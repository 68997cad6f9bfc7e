-- ===== src/Pagestore/Store/Taken.antt =====
-- The new keys that a leaf takes and those it leaves (`mergeLeaf` of go/internal/pagestore/store.go).
use eavt_sql.Prelude.{
  ◌≡◌, refl, sym, ap, subst, ◌∙◌, true, false, Option, some, List, [], ◌∷◌, ◌++◌, All, All-split,
  Bool-cases, inl, inr,
}
use eavt_sql.Bytes.Order.{Bytes}
use eavt_sql.Pagestore.Root.Prefix.{below_end}
use eavt_sql.Pagestore.Range.{
  lt, lt_asymm, le_trans, below_end-some, below_end_trans, AllAtLeast, IsAscending,
}
use eavt_sql.Pagestore.Store.Write.{has_keys}
use eavt_sql.Pagestore.Store.Chain.{IsTreeKey, InRange}
use eavt_sql.Pagestore.Store.Merge.{
  take_range, take_range-append, take_range-AllBelow, take_range-StopsAt, StopsAt,
}

abbrev pub taken : Option Bytes → List Bytes → List Bytes
taken hi new = (take_range hi new).0

abbrev pub left : Option Bytes → List Bytes → List Bytes
left hi new = (take_range hi new).1

-- The new keys: ascending, of the lengths that a tree takes, from a bound on.
abbrev pub AreNew : Bytes → List Bytes → Type 0
AreNew lo new = AllAtLeast lo new × IsAscending new × All IsTreeKey new

IsAscending-split : (xs ys : List Bytes) → IsAscending (xs ++ ys) → IsAscending xs × IsAscending ys
IsAscending-split [] ys a = (tt, a)
IsAscending-split (x ∷ xs) ys a =
    let (front, back) = IsAscending-split xs ys a.1 in
    (((All-split (λ j. lt x j ≡ true) xs ys a.0).0, front), back)

pub taken-InRange :
    (lo : Bytes) (hi : Option Bytes) (new : List Bytes)
    → AreNew lo new
    → InRange lo hi (taken hi new)
taken-InRange lo hi new (l, a, t) =
    let whole = sym (take_range-append hi new) in
    let split = λ (P : Bytes → Type 0) (h : All P new).
      (All-split P (taken hi new) (left hi new) (subst (All P) whole h)).0 in
    (
      split (λ k. lt k lo ≡ false) l,
      take_range-AllBelow hi new,
      (IsAscending-split (taken hi new) (left hi new) (subst IsAscending whole a)).0,
      split IsTreeKey t,
    )

at_least : (b : Bytes) (ks : List Bytes) → StopsAt (some b) ks → IsAscending ks → AllAtLeast b ks
at_least b [] s a = tt
at_least b (k ∷ ks) s a =
    let first : lt k b ≡ false = rw (sym (below_end-some b k)) s in (first, behind b k ks first a.0)
  where
    behind :
        (b k : Bytes) (ks : List Bytes)
        → lt k b ≡ false
        → All (λ j. lt k j ≡ true) ks
        → AllAtLeast b ks
    behind b k [] f a = tt
    behind b k (j ∷ ks) f a = (le_trans b k j f (lt_asymm k j a.0), behind b k ks f a.1)

-- The keys that are left start at the end of the range.
pub left-AreNew : (lo b : Bytes) (new : List Bytes) → AreNew lo new → AreNew b (left (some b) new)
left-AreNew lo b new (l, a, t) =
    let hi = some b in
    let whole = sym (take_range-append hi new) in
    let ascending =
      (IsAscending-split (taken hi new) (left hi new) (subst IsAscending whole a)).1 in
    (
      at_least b (left hi new) (take_range-StopsAt hi new) ascending,
      ascending,
      (All-split IsTreeKey (taken hi new) (left hi new) (subst (All IsTreeKey) whole t)).1,
    )

-- Without a first key in the range nothing is taken.
pub taken_none :
    (hi : Option Bytes) (new : List Bytes) → has_keys hi new ≡ false → take_range hi new ≡ ([], new)
unfolding has_keys take_range
taken_none hi [] h = refl
taken_none hi (k ∷ new) h = rw (h, take_range) refl

taken_one :
    (hi : Option Bytes) (k : Bytes) (new : List Bytes)
    → below_end hi k ≡ true
    → take_range hi (k ∷ new) ≡ (k ∷ taken hi new, left hi new)
unfolding take_range
taken_one hi k new h = rw (h, take_range) refl

-- Taking up to a bound and then up to the end is taking up to the end.
pub taken_twice :
    (hi : Option Bytes) (b : Bytes) (new : List Bytes)
    → below_end hi b ≡ true
    → take_range hi new
      ≡ (taken (some b) new ++ taken hi (left (some b) new), left hi (left (some b) new))
unfolding take_range
taken_twice hi b [] h = refl
taken_twice hi b (k ∷ new) h =
    let again : List Bytes × List Bytes → List Bytes × List Bytes =
      λ (p : List Bytes × List Bytes). (p.0 ++ taken hi p.1, left hi p.1) in
    let more : List Bytes × List Bytes → List Bytes × List Bytes =
      λ (x : List Bytes × List Bytes). (k ∷ x.0, x.1) in
    elim (Bool-cases (below_end (some b) k)) [
      | inl e ↦
          let below = below_end_trans hi b k h (rw (sym (below_end-some b k)) e) in
          taken_one hi k new below
          ∙ ap more (taken_twice hi b new h)
          ∙ ap again (sym (taken_one (some b) k new e))
      | inr e ↦ ap again (sym (taken_none (some b) (k ∷ new) (unfold has_keys in e)))
    ]
