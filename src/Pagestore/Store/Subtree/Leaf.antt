-- ===== src/Pagestore/Store/Subtree/Leaf.antt =====
-- `mergeLeaf` (go/internal/pagestore/store.go) puts the new keys of the leaf's range into it.
use eavt_sql.Prelude.{
  ◌≡◌, refl, sym, subst, true, false, Option, none, some, List, [], ◌∷◌, Bool-cases, inl, inr,
}
use eavt_sql.Bytes.Order.{Bytes}
use eavt_sql.Pagestore.Outcome.{ok}
use eavt_sql.Pagestore.Page.{IndexEntry}
use eavt_sql.Pagestore.Page.Build.{build_pages}
use eavt_sql.Pagestore.Range.{lt}
use eavt_sql.Pagestore.Root.Prefix.{below_end}
use eavt_sql.Pagestore.Store.{Backend, IsLawful, Keeps}
use eavt_sql.Pagestore.Store.Merge.{merge_keys, merge_keys-IsAscending, All-merge_keys}
use eavt_sql.Pagestore.Store.Write.{put_page_list, put_merged, merge_leaf}
use eavt_sql.Pagestore.Store.Chain.{IsTreeKey, InRange, IsLevel}
use eavt_sql.Pagestore.Store.Taken.{taken, left, taken-InRange}
use eavt_sql.Pagestore.Store.Levels.Leaf.{leaf-IsLevel}
use eavt_sql.Pagestore.Store.Subtree.{IsResult, Merges}

pub InRange-merge_keys :
    (lo : Bytes) (hi : Option Bytes) (xs ys : List Bytes)
    → InRange lo hi xs
    → InRange lo hi ys
    → InRange lo hi (merge_keys xs ys)
InRange-merge_keys lo hi xs ys (l, b, a, t) (l', b', a', t') = (
  All-merge_keys (λ k. lt k lo ≡ false) xs ys l l',
  All-merge_keys (λ k. below_end hi k ≡ true) xs ys b b',
  merge_keys-IsAscending xs ys a a',
  All-merge_keys IsTreeKey xs ys t t',
)

-- A merge with a key is not empty.
merge_keys_cons :
    (xs : List Bytes) (y : Bytes) (ys : List Bytes)
    → (k : Bytes) × (ks : List Bytes) × (merge_keys xs (y ∷ ys) ≡ k ∷ ks)
unfolding merge_keys
merge_keys_cons [] y ys = (y, ys, refl)
merge_keys_cons (x ∷ xs) y ys = elim (Bool-cases (lt x y)) [
  | inl e ↦ (x, merge_keys xs (y ∷ ys), rw (e, merge_keys) refl)
  | inr e ↦ elim (Bool-cases (lt y x)) [
    | inl f ↦ (y, merge_keys (x ∷ xs) ys, rw (e, f, merge_keys) refl)
    | inr f ↦ (x, merge_keys xs ys, rw (e, f, merge_keys) refl)
  ]
]

module _ (B : Backend) (L : IsLawful B) where
  abbrev IsPutMerged :
      Bytes → Option Bytes → B.State → List Bytes → List Bytes → List Bytes → Type 0
  IsPutMerged lo hi s ks new rest =
      (res : Option (List IndexEntry)) × (t : B.State) × (put_merged B ks new rest s
        ≡ ok ((res, rest), t))
      × Keeps B s t
      × IsResult B 0 lo hi t ks new res

  merged_put :
      (lo : Bytes) (hi : Option Bytes) (s : B.State) (ks new rest : List Bytes)
      → InRange lo hi ks
      → InRange lo hi new
      → IsPutMerged lo hi s ks new rest
  unfolding put_merged
  merged_put lo hi s ks [] rest r r' = (none, s, refl, λ v x f. f, refl)
  merged_put lo hi s ks (k ∷ new) rest r r' =
      let (j, js, same) = merge_keys_cons ks k new in
      let range = subst (InRange lo hi) same (InRange-merge_keys lo hi ks (k ∷ new) r r') in
      let (es, t, accepted, kept, level) = leaf-IsLevel B L lo hi j js s range in
      let accepted' : put_page_list B (build_pages (merge_keys ks (k ∷ new))) false s ≡ ok (es, t) =
        subst (λ l. put_page_list B (build_pages l) false s ≡ ok (es, t)) (sym same) accepted in
      (some es, t, rw accepted' refl, kept, subst (IsLevel B 0 t lo hi es) (sym same) level)

  pub merge_leaf-Merges : Merges B 0 (merge_leaf B)
  unfolding merge_leaf
  merge_leaf-Merges lo hi u ks new s (d, found, page, range) fresh =
      let (res, t, accepted, kept, level) =
        merged_put lo hi s ks (taken hi new) (left hi new) range (taken-InRange lo hi new fresh) in
      (res, t, rw (found, page) accepted, kept, level)
