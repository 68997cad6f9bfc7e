-- ===== src/Pagestore/Store/Merge.antt =====
-- The two-way merge of `mergeLeaf` (go/internal/pagestore/store.go): the loop over the leaf's keys
-- and the new ones, and the loop that takes the new keys of the leaf's range.
use eavt_sql.Prelude.{
  ◌≡◌, refl, sym, ap, subst, ◌∙◌, Bool, true, false, ◌||◌, Option, some, List, [], ◌∷◌, ◌++◌, arith,
  All, Bool-cases, inl, inr, is_eq,
}
use eavt_sql.Bytes.Order.{Bytes, cmp_seq}
use eavt_sql.Pagestore.Root.Prefix.{below_end}
use eavt_sql.Pagestore.Range.{
  lt, lt_trans, lt_asymm, lt_of_lt_of_le, eq_of_le_of_le, below_end-some, AllAtLeast, AllBelow,
  IsAscending,
}

unfoldable pub merge_keys : List Bytes → List Bytes → List Bytes
merge_keys [] new = new
merge_keys (x ∷ xs) [] = x ∷ xs
merge_keys (x ∷ xs) (y ∷ ys) = elim (lt x y) [
  | true ↦ x ∷ merge_keys xs (y ∷ ys)
  | false ↦ elim (lt y x) [ true ↦ y ∷ merge_keys (x ∷ xs) ys | false ↦ x ∷ merge_keys xs ys ]
]

-- The new keys below the end of a range, and the keys behind them.
unfoldable pub take_range : Option Bytes → List Bytes → List Bytes × List Bytes
take_range hi [] = ([], [])
take_range hi (k ∷ ks) =
    let (taken, rest) = take_range hi ks in
    elim (below_end hi k) [ true ↦ (k ∷ taken, rest) | false ↦ ([], k ∷ ks) ]

-- One key before the other, or none.
module _ (x : Bytes) (xs : List Bytes) (y : Bytes) (ys : List Bytes) where
  pub merge_keys-left : lt x y ≡ true → merge_keys (x ∷ xs) (y ∷ ys) ≡ x ∷ merge_keys xs (y ∷ ys)
  unfolding merge_keys
  merge_keys-left h = rw (h, merge_keys) refl

  pub merge_keys-right : lt y x ≡ true → merge_keys (x ∷ xs) (y ∷ ys) ≡ y ∷ merge_keys (x ∷ xs) ys
  unfolding merge_keys
  merge_keys-right h = rw (lt_asymm y x h, h, merge_keys) refl

  pub merge_keys-both :
      lt x y ≡ false → lt y x ≡ false → merge_keys (x ∷ xs) (y ∷ ys) ≡ x ∷ merge_keys xs ys
  unfolding merge_keys
  merge_keys-both h k = rw (h, k, merge_keys) refl

pub merge_keys-nil : (xs : List Bytes) → merge_keys xs [] ≡ xs
unfolding merge_keys
merge_keys-nil [] = refl
merge_keys-nil (x ∷ xs) = refl

pub All-merge_keys {κ} :
    (P : Bytes → Type κ) (xs ys : List Bytes) → All P xs → All P ys → All P (merge_keys xs ys)
unfolding merge_keys
All-merge_keys P [] ys a b = b
All-merge_keys P (x ∷ xs) [] a b = a
All-merge_keys P (x ∷ xs) (y ∷ ys) a b = elim (Bool-cases (lt x y)) [
  | inl e ↦ rw (e, merge_keys) (a.0, All-merge_keys P xs (y ∷ ys) a.1 b)
  | inr e ↦ elim (Bool-cases (lt y x)) [
    | inl f ↦ rw (e, f, merge_keys) (b.0, All-merge_keys P (x ∷ xs) ys a b.1)
    | inr f ↦ rw (e, f, merge_keys) (a.0, All-merge_keys P xs ys a.1 b.1)
  ]
]

All-lt :
    (x y : Bytes) (ys : List Bytes)
    → lt x y ≡ true
    → All (λ j. lt y j ≡ true) ys
    → All (λ j. lt x j ≡ true) ys
All-lt x y [] h a = tt
All-lt x y (z ∷ ys) h a = (lt_trans x y z h a.0, All-lt x y ys h a.1)

-- The merge of ascending keys is ascending.
pub merge_keys-IsAscending :
    (xs ys : List Bytes) → IsAscending xs → IsAscending ys → IsAscending (merge_keys xs ys)
unfolding merge_keys
merge_keys-IsAscending [] ys a b = b
merge_keys-IsAscending (x ∷ xs) [] a b = a
merge_keys-IsAscending (x ∷ xs) (y ∷ ys) a b =
    let After = λ (z : Bytes) (j : Bytes). lt z j ≡ true in
    elim (Bool-cases (lt x y)) [
      | inl e ↦
          rw (e, merge_keys)
            (
              All-merge_keys (After x) xs (y ∷ ys) a.0 (e, All-lt x y ys e b.0),
              merge_keys-IsAscending xs (y ∷ ys) a.1 b,
            )
      | inr e ↦ elim (Bool-cases (lt y x)) [
        | inl f ↦
            rw (e, f, merge_keys)
              (
                All-merge_keys (After y) (x ∷ xs) ys (f, All-lt y x xs f a.0) b.0,
                merge_keys-IsAscending (x ∷ xs) ys a b.1,
              )
        | inr f ↦
            let same = eq_of_le_of_le x y e f in
            rw (e, f, merge_keys)
              (
                All-merge_keys (After x) xs ys a.0 (subst (λ z. All (After z) ys) (sym same) b.0),
                merge_keys-IsAscending xs ys a.1 b.1,
              )
      ]
    ]

-- Below a bound and from it on, the merge is done apart.
pub merge_keys-append :
    (b : Bytes) (xs xs' ys ys' : List Bytes)
    → AllBelow (some b) xs
    → AllAtLeast b xs'
    → AllBelow (some b) ys
    → AllAtLeast b ys'
    → merge_keys (xs ++ xs') (ys ++ ys') ≡ merge_keys xs ys ++ merge_keys xs' ys'
unfolding merge_keys
merge_keys-append b [] xs' [] ys' h h' k k' = refl
merge_keys-append b [] [] (y ∷ ys) ys' h h' k k' = refl
merge_keys-append b [] (x ∷ xs') (y ∷ ys) ys' h h' k k' =
    let below = lt_of_lt_of_le y b x (rw (sym (below_end-some b y)) k.0) h'.0 in
    merge_keys-right x xs' y (ys ++ ys') below
    ∙ ap (◌∷◌ y) (merge_keys-append b [] (x ∷ xs') ys ys' tt h' k.1 k')
merge_keys-append b (x ∷ xs) xs' [] [] h h' k k' = ap (λ l. x ∷ xs ++ l) (sym (merge_keys-nil xs'))
merge_keys-append b (x ∷ xs) xs' [] (y ∷ ys') h h' k k' =
    let below = lt_of_lt_of_le x b y (rw (sym (below_end-some b x)) h.0) k'.0 in
    merge_keys-left x (xs ++ xs') y ys' below
    ∙ ap (◌∷◌ x) (merge_keys-append b xs xs' [] (y ∷ ys') h.1 h' tt k')
    ∙ ap (λ l. x ∷ l ++ merge_keys xs' (y ∷ ys')) (merge_keys-nil xs)
merge_keys-append b (x ∷ xs) xs' (y ∷ ys) ys' h h' k k' =
    let rest = merge_keys xs' ys' in
    elim (Bool-cases (lt x y)) [
      | inl e ↦
          merge_keys-left x (xs ++ xs') y (ys ++ ys') e
          ∙ ap (◌∷◌ x) (merge_keys-append b xs xs' (y ∷ ys) ys' h.1 h' k k')
          ∙ ap (λ l. l ++ rest) (sym (merge_keys-left x xs y ys e))
      | inr e ↦ elim (Bool-cases (lt y x)) [
        | inl f ↦
            merge_keys-right x (xs ++ xs') y (ys ++ ys') f
            ∙ ap (◌∷◌ y) (merge_keys-append b (x ∷ xs) xs' ys ys' h h' k.1 k')
            ∙ ap (λ l. l ++ rest) (sym (merge_keys-right x xs y ys f))
        | inr f ↦
            merge_keys-both x (xs ++ xs') y (ys ++ ys') e f
            ∙ ap (◌∷◌ x) (merge_keys-append b xs xs' ys ys' h.1 h' k.1 k')
            ∙ ap (λ l. l ++ rest) (sym (merge_keys-both x xs y ys e f))
      ]
    ]

unfoldable pub holds_key : Bytes → List Bytes → Bool
holds_key k [] = false
holds_key k (j ∷ ks) = is_eq (cmp_seq k j) || holds_key k ks

-- A key is in the merge exactly when it is in one of the two lists.
pub holds_key-merge_keys :
    (k : Bytes) (xs ys : List Bytes)
    → holds_key k (merge_keys xs ys) ≡ holds_key k xs || holds_key k ys
unfolding merge_keys holds_key
holds_key-merge_keys k [] ys = refl
holds_key-merge_keys k (x ∷ xs) [] = ground arith
holds_key-merge_keys k (x ∷ xs) (y ∷ ys) = elim (Bool-cases (lt x y)) [
  | inl e ↦ rw (e, merge_keys) (ground (arith, holds_key-merge_keys k xs (y ∷ ys)))
  | inr e ↦ elim (Bool-cases (lt y x)) [
    | inl f ↦ rw (e, f, merge_keys) (ground (arith, holds_key-merge_keys k (x ∷ xs) ys))
    | inr f ↦
        rw (e, f, merge_keys, eq_of_le_of_le x y e f) (ground (arith, holds_key-merge_keys k xs ys))
  ]
]

-- The keys taken are a first part of the new keys, below the end of the range, and the first key
-- that is left is not.
abbrev pub StopsAt : Option Bytes → List Bytes → Type 0
StopsAt hi [] = Unit
StopsAt hi (k ∷ ks) = below_end hi k ≡ false

pub take_range-append :
    (hi : Option Bytes) (ks : List Bytes) → (take_range hi ks).0 ++ (take_range hi ks).1 ≡ ks
unfolding take_range
take_range-append hi [] = refl
take_range-append hi (k ∷ ks) = elim (Bool-cases (below_end hi k)) [
  | inl e ↦ rw (e, take_range) (ap (◌∷◌ k) (take_range-append hi ks))
  | inr e ↦ rw (e, take_range) refl
]

pub take_range-AllBelow : (hi : Option Bytes) (ks : List Bytes) → AllBelow hi (take_range hi ks).0
unfolding take_range
take_range-AllBelow hi [] = tt
take_range-AllBelow hi (k ∷ ks) = elim (Bool-cases (below_end hi k)) [
  | inl e ↦ rw (e, take_range) (e, take_range-AllBelow hi ks)
  | inr e ↦ rw (e, take_range) tt
]

pub take_range-StopsAt : (hi : Option Bytes) (ks : List Bytes) → StopsAt hi (take_range hi ks).1
unfolding take_range
take_range-StopsAt hi [] = tt
take_range-StopsAt hi (k ∷ ks) = elim (Bool-cases (below_end hi k)) [
  | inl e ↦ rw (e, take_range) (take_range-StopsAt hi ks)
  | inr e ↦ rw (e, take_range) e
]
