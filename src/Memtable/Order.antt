-- ===== src/Memtable/Order.antt =====
-- The order of records by their keys, and the newest record of a key.
use eavt_sql.Prelude.{
  ◌≡◌, refl, sym, Bool, true, false, Option, none, some, List, [], ◌∷◌, ◌++◌, arith, Ordering,
  is_eq, or_else, if◌then◌else◌, inl, inr, Ordering-cases, All, subst,
}
use eavt_sql.Bytes.Order.{Bytes, cmp_keys, eq_of_cmp_keys, cmp_keys-flip, cmp_keys_trans}
use eavt_sql.Memtable.Record.{rec_key, cmp_rec}

abbrev pub not_gt : Ordering → Bool
not_gt Ordering.gt = false
not_gt _ = true

pub cmp_keys-lt_of_not_gt :
    (a b c : Bytes)
    → cmp_keys a b ≡ Ordering.lt
    → not_gt (cmp_keys b c) ≡ true
    → cmp_keys a c ≡ Ordering.lt
cmp_keys-lt_of_not_gt a b c h k = elim (Ordering-cases (cmp_keys b c)) [
  | inl e ↦ cmp_keys_trans a b c h e
  | inr (inl e) ↦ subst (λ x. cmp_keys a x ≡ Ordering.lt) (eq_of_cmp_keys b c e) h
  | inr (inr e) ↦ ground arith
]

pub not_gt_trans :
    (a b c : Bytes)
    → not_gt (cmp_keys a b) ≡ true
    → not_gt (cmp_keys b c) ≡ true
    → not_gt (cmp_keys a c) ≡ true
not_gt_trans a b c h k = elim (Ordering-cases (cmp_keys a b)) [
  | inl e ↦ ground (arith, cmp_keys-lt_of_not_gt a b c e k)
  | inr (inl e) ↦ subst (λ x. not_gt (cmp_keys x c) ≡ true) (sym (eq_of_cmp_keys a b e)) k
  | inr (inr e) ↦ ground arith
]

pub cmp_keys-gt_of_not_lt :
    (a b c : Bytes)
    → cmp_keys a b ≡ Ordering.lt
    → cmp_keys a c ≡ Ordering.gt
    → cmp_keys b c ≡ Ordering.gt
cmp_keys-gt_of_not_lt a b c h k =
    ground (arith, cmp_keys-flip a c, cmp_keys-flip c b, cmp_keys_trans c a b)

-- The last record of a list that has the key: appended last, it is the newest.
unfoldable pub latest : Bytes → List Bytes → Option Bytes
latest key [] = none
latest key (p ∷ ps) =
    or_else (latest key ps) (if is_eq (cmp_keys (rec_key p) key) then some p else none)

pub latest-append :
    (key : Bytes) (ps qs : List Bytes)
    → latest key (ps ++ qs) ≡ or_else (latest key qs) (latest key ps)
unfolding latest
latest-append key [] qs = ground arith
latest-append key (p ∷ ps) qs = ground (arith, latest-append key ps qs)

-- The keys go up strictly.
abbrev pub IsAscending : List Bytes → Type 0
IsAscending [] = Unit
IsAscending (p ∷ ps) = All (λ q. cmp_rec p q ≡ Ordering.lt) ps × IsAscending ps

-- Above a record that is not below the key, the key does not occur.
pub latest-eq-none :
    (key p : Bytes) (ps : List Bytes)
    → cmp_keys key (rec_key p) ≡ Ordering.lt
    → All (λ q. cmp_rec p q ≡ Ordering.lt) ps
    → latest key ps ≡ none
unfolding latest cmp_rec
latest-eq-none key p [] h a = refl
latest-eq-none key p (q ∷ ps) h a = ground (
  arith,
  latest-eq-none key p ps h a.1,
  cmp_keys_trans key (rec_key p) (rec_key q),
  cmp_keys-flip key (rec_key q),
)
