-- ===== src/Pagestore/Store/Pairs.antt =====
-- The two-way merge of `PrepareMergeKv` (go/internal/pagestore/store.go): the pairs of a tree and
-- the new ones, without the deleted keys; and `rebuild`.
use eavt_sql.Prelude.{
  ◌%◌, ◌^◌, ◌≡◌, refl, sym, subst, Bool, true, false, Option, none, some, or_else, List, [], ◌∷◌,
  arith, All, length, is_eq, Bool-cases, inl, inr, if◌then◌else◌,
}
use eavt_sql.Bytes.Order.{Bytes, cmp_seq, cmp_keys-eq-cmp_seq, eq_of_cmp_keys}
use eavt_sql.Pagestore.Outcome.{Outcome, ok, ◌>>=◌}
use eavt_sql.Pagestore.Page.{Pair}
use eavt_sql.Pagestore.Page.Build.{build_pages_kv}
use eavt_sql.Pagestore.Root.{CfTree, empty_tree}
use eavt_sql.Pagestore.Range.{lt, lt_trans, lt_irrefl, eq_of_le_of_le}
use eavt_sql.Pagestore.Store.{Backend}
use eavt_sql.Pagestore.Store.Write.{put_page_list, build_index_tree}
use eavt_sql.Pagestore.Store.Merge.{holds_key}
use eavt_sql.Pagestore.Store.Commit.{first_tree}

-- The loop over `all` and the one over `sortedPairs` that keep the pairs not deleted.
unfoldable pub undeleted_pairs : List Bytes → List Pair → List Pair
unfolding holds_key
undeleted_pairs deleted [] = []
undeleted_pairs deleted ((k, v) ∷ ps) =
    let rest = undeleted_pairs deleted ps in
    elim (holds_key k deleted) [ true ↦ rest | false ↦ (k, v) ∷ rest ]

-- `append` of a pair unless its key is deleted.
unfoldable pub keep_pair : List Bytes → Pair → List Pair → List Pair
keep_pair deleted p rest = elim (holds_key p.0 deleted) [ true ↦ rest | false ↦ p ∷ rest ]

unfoldable pub merge_pairs : List Bytes → List Pair → List Pair → List Pair
unfolding keep_pair undeleted_pairs
merge_pairs deleted [] new = undeleted_pairs deleted new
merge_pairs deleted (p ∷ ps) [] = undeleted_pairs deleted (p ∷ ps)
merge_pairs deleted (p ∷ ps) (q ∷ qs) = elim (lt p.0 q.0) [
  | true ↦ keep_pair deleted p (merge_pairs deleted ps (q ∷ qs))
  | false ↦ elim (lt q.0 p.0) [
    | true ↦ keep_pair deleted q (merge_pairs deleted (p ∷ ps) qs)
    | false ↦ keep_pair deleted q (merge_pairs deleted ps qs)
  ]
]

-- `rebuild`: the new tree of a column family.
unfoldable pub rebuild : (B : Backend) → List Pair → B.State → Outcome (CfTree × B.State)
rebuild B [] s = ok (empty_tree, s)
rebuild B (p ∷ ps) s = do
  (es, s1) ← put_page_list B (build_pages_kv (p ∷ ps)) true s
  ((root, height), s2) ← build_index_tree B es 0 s1
  ok (first_tree root height (length es % 2 ^ 32), s2)

abbrev pub same_key : Bytes → Bytes → Bool
same_key a b = is_eq (cmp_seq a b)

unfoldable pub find_pair : Bytes → List Pair → Option Bytes
find_pair k [] = none
find_pair k ((j, v) ∷ ps) = let rest = find_pair k ps in if same_key k j then some v else rest

abbrev pub AreAfter : Bytes → List Pair → Type 0
AreAfter k = All (λ (p : Pair). lt k p.0 ≡ true)

-- Pairs with strictly ascending keys.
abbrev pub AreAscendingPairs : List Pair → Type 0
AreAscendingPairs [] = Unit
AreAscendingPairs (p ∷ ps) = AreAfter p.0 ps × AreAscendingPairs ps

-- What is found: nothing for a deleted key, else the new value, or the old one.
abbrev merged_value : List Bytes → Bytes → List Pair → List Pair → Option Bytes
merged_value deleted k old new =
    if holds_key k deleted then none else or_else (find_pair k new) (find_pair k old)

same_key-eq : (a b : Bytes) → same_key a b ≡ true → a ≡ b
same_key-eq a b h = eq_of_cmp_keys a b (ground (arith, cmp_keys-eq-cmp_seq a b, h))

not_same : (k j : Bytes) → lt k j ≡ true → same_key k j ≡ false
unfolding lt
not_same k j h = ground (arith, h)

not_same_flip : (k j : Bytes) → lt j k ≡ true → same_key k j ≡ false
not_same_flip k j h = elim (Bool-cases (same_key k j)) [
  | inl e ↦
      let same = same_key-eq k j e in
      let loop : lt j j ≡ true = subst (λ x. lt j x ≡ true) same h in
      ground (arith, loop, lt_irrefl j)
  | inr e ↦ e
]

-- A key below all of a list is not in it.
find_pair-none : (k : Bytes) (ps : List Pair) → AreAfter k ps → find_pair k ps ≡ none
unfolding find_pair
find_pair-none k [] a = refl
find_pair-none k ((j, v) ∷ ps) a = rw (not_same k j a.0) (find_pair-none k ps a.1)

AreAfter-trans : (k j : Bytes) (ps : List Pair) → lt k j ≡ true → AreAfter j ps → AreAfter k ps
AreAfter-trans k j [] h a = tt
AreAfter-trans k j (p ∷ ps) h a = (lt_trans k j p.0 h a.0, AreAfter-trans k j ps h a.1)

-- The pair in front is found by its key, and the others behind it.
find_pair-keep_pair :
    (deleted : List Bytes) (k j v : Bytes) (rest : List Pair)
    → (holds_key k deleted ≡ true → find_pair k rest ≡ none)
    → find_pair k (keep_pair deleted (j, v) rest)
      ≡ (if holds_key k deleted then none else if same_key k j then some v else find_pair k rest)
unfolding keep_pair find_pair
find_pair-keep_pair deleted k j v rest h = elim (Bool-cases (same_key k j)) [
  | inl e ↦
      subst
        (λ x. find_pair k (keep_pair deleted (x, v) rest) ≡ (
          if holds_key k deleted then none else if same_key k x then some v else find_pair k rest))
        (same_key-eq k j e)
        (elim (Bool-cases (holds_key k deleted)) [
          | inl d ↦ rw (d, keep_pair) (h d)
          | inr d ↦ rw (d, keep_pair) refl
        ])
  | inr e ↦ elim (Bool-cases (holds_key j deleted)) [
    | inl d ↦ rw (d, e, keep_pair) (kept (holds_key k deleted) h)
    | inr d ↦ rw (d, e, keep_pair, find_pair) (kept (holds_key k deleted) h)
  ]
]
  where
    kept : {o : Option Bytes} (b : Bool) → (b ≡ true → o ≡ none) → o ≡ (if b then none else o)
    kept true h = h refl
    kept false h = refl

find_pair-undeleted_pairs :
    (deleted : List Bytes) (k : Bytes) (ps : List Pair)
    → find_pair k (undeleted_pairs deleted ps)
      ≡ (if holds_key k deleted then none else find_pair k ps)
unfolding undeleted_pairs keep_pair find_pair
find_pair-undeleted_pairs deleted k [] = ground arith
find_pair-undeleted_pairs deleted k ((j, v) ∷ ps) =
    let more = find_pair-undeleted_pairs deleted k ps in
    let none_left : holds_key k deleted ≡ true → find_pair k (undeleted_pairs deleted ps) ≡ none =
      λ d. ground (arith, more, d) in
    ground (arith, find_pair-keep_pair deleted k j v (undeleted_pairs deleted ps) none_left, more)

-- What a merged list is looked up for, with one of its first pairs in front.
module _ (deleted : List Bytes) (k : Bytes) (rest : List Pair) (old new : List Pair)
    (more : find_pair k rest ≡ merged_value deleted k old new) where
  none_deleted : holds_key k deleted ≡ true → find_pair k rest ≡ none
  none_deleted d = ground (arith, more, d)

  old_in_front :
      (i v : Bytes)
      → (same_key k i ≡ true → find_pair k new ≡ none)
      → find_pair k (keep_pair deleted (i, v) rest) ≡ merged_value deleted k ((i, v) ∷ old) new
  unfolding find_pair
  old_in_front i v absent =
      let front = find_pair-keep_pair deleted k i v rest none_deleted in
      elim (Bool-cases (same_key k i)) [
        | inl e ↦ ground (arith, front, more, e, absent e)
        | inr e ↦ ground (arith, front, more, e)
      ]

  new_in_front :
      (j w : Bytes)
      → find_pair k (keep_pair deleted (j, w) rest) ≡ merged_value deleted k old ((j, w) ∷ new)
  unfolding find_pair
  new_in_front j w =
      let front = find_pair-keep_pair deleted k j w rest none_deleted in ground (arith, front, more)

  both_in_front :
      (i v j w : Bytes)
      → i ≡ j
      → find_pair k (keep_pair deleted (j, w) rest)
        ≡ merged_value deleted k ((i, v) ∷ old) ((j, w) ∷ new)
  unfolding find_pair
  both_in_front i v j w same =
      let both = new_in_front j w in
      subst
        (λ x.
          find_pair k (keep_pair deleted (j, w) rest)
          ≡ merged_value deleted k ((x, v) ∷ old) ((j, w) ∷ new))
        (sym same) (ground (arith, both))

-- In the merge of two lists of pairs with ascending keys a deleted key is not found, another key
-- has its new value, and a key without a new one its old value.
pub find_pair-merge_pairs :
    (deleted : List Bytes) (k : Bytes) (old new : List Pair)
    → AreAscendingPairs old
    → AreAscendingPairs new
    → find_pair k (merge_pairs deleted old new)
      ≡ (if holds_key k deleted then none else or_else (find_pair k new) (find_pair k old))
unfolding merge_pairs
find_pair-merge_pairs deleted k [] new a b =
    let all = find_pair-undeleted_pairs deleted k new in unfold find_pair in ground (arith, all)
find_pair-merge_pairs deleted k ((i, v) ∷ ps) [] a b =
    let all = find_pair-undeleted_pairs deleted k ((i, v) ∷ ps) in unfold find_pair in all
find_pair-merge_pairs deleted k ((i, v) ∷ ps) ((j, w) ∷ qs) a b =
    let old = (i, v) ∷ ps in
    let new = (j, w) ∷ qs in
    elim (Bool-cases (lt i j)) [
      | inl e ↦
          let more = find_pair-merge_pairs deleted k ps new a.1 b in
          let absent : same_key k i ≡ true → find_pair k new ≡ none = λ same.
            subst (λ x. find_pair x new ≡ none) (sym (same_key-eq k i same))
              (find_pair-none i new (e, AreAfter-trans i j qs e b.0)) in
          rw (e, merge_pairs)
            (old_in_front deleted k (merge_pairs deleted ps new) ps new more i v absent)
      | inr e ↦ elim (Bool-cases (lt j i)) [
        | inl f ↦
            let more = find_pair-merge_pairs deleted k ((i, v) ∷ ps) qs a b.1 in
            rw (e, f, merge_pairs)
              (new_in_front deleted k (merge_pairs deleted old qs) old qs more j w)
        | inr f ↦
            let more = find_pair-merge_pairs deleted k ps qs a.1 b.1 in
            let same = eq_of_le_of_le i j e f in
            rw (e, f, merge_pairs)
              (both_in_front deleted k (merge_pairs deleted ps qs) ps qs more i v j w same)
      ]
    ]
