-- ===== src/Memtable/Run/Sort.antt =====
-- Sorting the delta and keeping the last of each group gives an ascending run in which a lookup
-- finds the newest record.
use eavt_sql.Prelude.{
  ℕ, suc, ◌<◌, ◌≡◌, refl, ap, ◌∙◌, true, false, none, some, List, [], ◌∷◌, arith, Ordering, is_eq,
  or_else, if◌then◌else◌, All, All-map, Bool-cases, inl, inr, Ordering-cases, subst,
}
use eavt_sql.Bytes.Order.{Bytes, cmp_keys, cmp_keys-flip, eq_of_cmp_keys}
use eavt_sql.Memtable.Record.{rec_key, cmp_rec}
use eavt_sql.Memtable.Order.{latest, IsAscending, not_gt, cmp_keys-lt_of_not_gt, not_gt_trans}
use eavt_sql.Memtable.Run.{Tagged, less, insert_sorted, sort_slice, keep_last, enumerate}

abbrev pub records_of : List Tagged → List Bytes
records_of [] = []
records_of (x ∷ l) = x.0 ∷ records_of l

-- Among equal keys the later record of the input has the larger tag.
abbrev pub IsLater : Tagged → Tagged → Type 0
IsLater x y = cmp_rec x.0 y.0 ≡ Ordering.eq → x.1 < y.1

abbrev pub IsTagged : List Tagged → Type 0
IsTagged [] = Unit
IsTagged (x ∷ l) = All (IsLater x) l × IsTagged l

All-insert_sorted {κ} :
    (P : Tagged → Type κ) (x : Tagged) (l : List Tagged) → P x → All P l → All P (insert_sorted x l)
unfolding insert_sorted
All-insert_sorted P x [] h a = (h, tt)
All-insert_sorted P x (y ∷ l) h a = elim (Bool-cases (less x y)) [
  | inl e ↦ rw e (h, a)
  | inr e ↦ rw e (a.0, All-insert_sorted P x l h a.1)
]

All-sort_slice {κ} : (P : Tagged → Type κ) (l : List Tagged) → All P l → All P (sort_slice l)
unfolding sort_slice
All-sort_slice P [] a = tt
All-sort_slice P (x ∷ l) a = All-insert_sorted P x (sort_slice l) a.0 (All-sort_slice P l a.1)

less-gt :
    (x y : Tagged)
    → IsLater x y
    → less x y ≡ false
    → cmp_keys (rec_key x.0) (rec_key y.0) ≡ Ordering.gt
unfolding less cmp_rec
less-gt x y h e = elim (Ordering-cases (cmp_rec x.0 y.0)) [
  | inl f ↦ ground arith
  | inr (inl f) ↦ let small : x.1 < y.1 = h f in ground arith
  | inr (inr f) ↦ f
]

not_both_eq :
    (a b k : Bytes)
    → cmp_keys a b ≡ Ordering.gt
    → is_eq (cmp_keys a k) ≡ true
    → is_eq (cmp_keys b k) ≡ false
not_both_eq a b k h e = elim (Ordering-cases (cmp_keys a k)) [
  | inl f ↦ ground arith
  | inr (inl f) ↦
      let g : cmp_keys k b ≡ Ordering.gt =
        subst (λ x. cmp_keys x b ≡ Ordering.gt) (eq_of_cmp_keys a k f) h in
      ground (arith, cmp_keys-flip k b)
  | inr (inr f) ↦ ground arith
]

-- Inserting a record in front of the newer ones keeps the newest of each key.
latest-insert_sorted :
    (key : Bytes) (x : Tagged) (l : List Tagged)
    → All (IsLater x) l
    → latest key (records_of (insert_sorted x l)) ≡ latest key (x.0 ∷ records_of l)
unfolding insert_sorted latest
latest-insert_sorted key x [] a = refl
latest-insert_sorted key x (y ∷ l) a = elim (Bool-cases (less x y)) [
  | inl e ↦ rw e
  | inr e ↦ rw e (
      ground (
        arith,
        latest-insert_sorted key x l a.1,
        not_both_eq (rec_key x.0) (rec_key y.0) key (less-gt x y a.0 e),
      ))
]

pub latest-sort_slice :
    (key : Bytes) (l : List Tagged)
    → IsTagged l
    → latest key (records_of (sort_slice l)) ≡ latest key (records_of l)
unfolding sort_slice latest
latest-sort_slice key [] t = refl
latest-sort_slice key (x ∷ l) t =
    latest-insert_sorted key x (sort_slice l) (All-sort_slice (IsLater x) l t.0)
    ∙ ap (λ o. or_else o (if is_eq (cmp_keys (rec_key x.0) key) then some x.0 else none))
        (latest-sort_slice key l t.1)

pub latest-keep_last :
    (key : Bytes) (l : List Tagged) → latest key (keep_last l) ≡ latest key (records_of l)
unfolding keep_last latest cmp_rec
latest-keep_last key [] = refl
latest-keep_last key (x ∷ []) = refl
latest-keep_last key (x ∷ y ∷ l) = elim (Ordering-cases (cmp_rec x.0 y.0)) [
  | inl e ↦ ground (arith, latest-keep_last key (y ∷ l))
  | inr (inl e) ↦ ground (
    arith,
    latest-keep_last key (y ∷ l),
    ap (λ k. cmp_keys k key) (eq_of_cmp_keys (rec_key x.0) (rec_key y.0) e),
  )
  | inr (inr e) ↦ ground (arith, latest-keep_last key (y ∷ l))
]

-- The keys do not go down.
abbrev IsSorted : List Tagged → Type 0
IsSorted [] = Unit
IsSorted (x ∷ l) = All (λ y. not_gt (cmp_rec x.0 y.0) ≡ true) l × IsSorted l

less-not_gt : (x y : Tagged) → less x y ≡ true → not_gt (cmp_rec x.0 y.0) ≡ true
unfolding less
less-not_gt x y h = ground arith

not_less-not_gt : (x y : Tagged) → less x y ≡ false → not_gt (cmp_rec y.0 x.0) ≡ true
unfolding less cmp_rec
not_less-not_gt x y h = ground (arith, cmp_keys-flip (rec_key x.0) (rec_key y.0))

IsSorted-insert_sorted : (x : Tagged) (l : List Tagged) → IsSorted l → IsSorted (insert_sorted x l)
unfolding insert_sorted cmp_rec
IsSorted-insert_sorted x [] s = (tt, tt)
IsSorted-insert_sorted x (y ∷ l) s = elim (Bool-cases (less x y)) [
  | inl e ↦ rw e (
    (
      less-not_gt x y e,
      All-map {A = Tagged} (λ z. not_gt (cmp_rec y.0 z.0) ≡ true)
          (λ z. not_gt (cmp_rec x.0 z.0) ≡ true)
          (λ z h. not_gt_trans (rec_key x.0) (rec_key y.0) (rec_key z.0) (less-not_gt x y e) h) l
          s.0,
    ),
    s,
  )
  | inr e ↦ rw e (
    All-insert_sorted (λ z. not_gt (cmp_rec y.0 z.0) ≡ true) x l (not_less-not_gt x y e) s.0,
    IsSorted-insert_sorted x l s.1,
  )
]

IsSorted-sort_slice : (l : List Tagged) → IsSorted (sort_slice l)
unfolding sort_slice
IsSorted-sort_slice [] = tt
IsSorted-sort_slice (x ∷ l) = IsSorted-insert_sorted x (sort_slice l) (IsSorted-sort_slice l)

All-keep_last {κ} :
    (P : Bytes → Type κ) (l : List Tagged) → All (λ x. P x.0) l → All P (keep_last l)
unfolding keep_last
All-keep_last P [] a = tt
All-keep_last P (x ∷ []) a = a
All-keep_last P (x ∷ y ∷ l) a = elim (Bool-cases (is_eq (cmp_rec x.0 y.0))) [
  | inl e ↦ rw e (All-keep_last P (y ∷ l) a.1)
  | inr e ↦ rw e (a.0, All-keep_last P (y ∷ l) a.1)
]

lt_of_not_eq : (o : Ordering) → not_gt o ≡ true → is_eq o ≡ false → o ≡ Ordering.lt
lt_of_not_eq o h e = ground arith

IsAscending-keep_last : (l : List Tagged) → IsSorted l → IsAscending (keep_last l)
unfolding keep_last
IsAscending-keep_last [] s = tt
IsAscending-keep_last (x ∷ []) s = (tt, tt)
IsAscending-keep_last (x ∷ y ∷ l) s = elim (Bool-cases (is_eq (cmp_rec x.0 y.0))) [
  | inl e ↦ rw e (IsAscending-keep_last (y ∷ l) s.1)
  | inr e ↦ rw e (
    All-keep_last (λ q. cmp_rec x.0 q ≡ Ordering.lt) (y ∷ l)
        (above x y l (lt_of_not_eq _ s.0.0 e) s.1.0),
    IsAscending-keep_last (y ∷ l) s.1,
  )
]
  where
    above :
        (x y : Tagged) (l : List Tagged)
        → cmp_rec x.0 y.0 ≡ Ordering.lt
        → All (λ z. not_gt (cmp_rec y.0 z.0) ≡ true) l
        → All (λ z. cmp_rec x.0 z.0 ≡ Ordering.lt) (y ∷ l)
    above x y l h a = (
      h,
      All-map {A = Tagged} (λ z. not_gt (cmp_rec y.0 z.0) ≡ true)
          (λ z. cmp_rec x.0 z.0 ≡ Ordering.lt)
          (λ z k.
            unfold cmp_rec in cmp_keys-lt_of_not_gt (rec_key x.0) (rec_key y.0) (rec_key z.0) h k)
          l a,
    )

-- The records that a freeze keeps, in order.
pub IsAscending-frozen : (l : List Tagged) → IsAscending (keep_last (sort_slice l))
IsAscending-frozen l = IsAscending-keep_last (sort_slice l) (IsSorted-sort_slice l)

All-IsLater-enumerate :
    (n : ℕ) (x : Tagged) (l : List Bytes) → x.1 < n → All (IsLater x) (enumerate n l)
unfolding enumerate
All-IsLater-enumerate n x [] h = tt
All-IsLater-enumerate n x (p ∷ l) h = ((λ e. h), All-IsLater-enumerate (suc n) x l (omega arith))

IsTagged-enumerate : (n : ℕ) (l : List Bytes) → IsTagged (enumerate n l)
unfolding enumerate
IsTagged-enumerate n [] = tt
IsTagged-enumerate n (p ∷ l) =
    (All-IsLater-enumerate (suc n) (p, n) l (omega arith), IsTagged-enumerate (suc n) l)

records_of-enumerate : (n : ℕ) (l : List Bytes) → records_of (enumerate n l) ≡ l
unfolding enumerate
records_of-enumerate n [] = refl
records_of-enumerate n (p ∷ l) = ap (◌∷◌ p) (records_of-enumerate (suc n) l)

-- Freezing a delta buffer keeps the newest record of every key.
pub latest-frozen_buffer :
    (key : Bytes) (buf : List Bytes)
    → latest key (keep_last (sort_slice (enumerate 0 buf))) ≡ latest key buf
latest-frozen_buffer key buf =
    latest-keep_last key (sort_slice (enumerate 0 buf))
    ∙ latest-sort_slice key (enumerate 0 buf) (IsTagged-enumerate 0 buf)
    ∙ ap (latest key) (records_of-enumerate 0 buf)
