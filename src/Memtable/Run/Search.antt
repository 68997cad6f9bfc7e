-- ===== src/Memtable/Run/Search.antt =====
-- Point lookups in one buffer and in one run find the newest record.
use eavt_sql.Prelude.{
  ℕ, zero, suc, ◌≤◌, ◌<◌, ◌≡◌, refl, true, false, none, List, [], ◌∷◌, arith, Ordering, is_lt,
  is_eq, length, All, subst, inl, inr, Ordering-cases,
}
use eavt_sql.Prelude.Search.{lower_bound, IsMonotone, IsBoundary, lower_bound-IsBoundary}
use eavt_sql.Bytes.Order.{Bytes, cmp_keys, cmp_keys_trans, eq_of_cmp_keys}
use eavt_sql.Memtable.Record.{rec_key, cmp_rec}
use eavt_sql.Memtable.Order.{latest, IsAscending}
use eavt_sql.Memtable.Run.{Run, find_buf, match_at, is_below, find_run}

pub find_buf-eq-latest : (buf : List Bytes) (key : Bytes) → find_buf buf key ≡ latest key buf
unfolding find_buf latest
find_buf-eq-latest [] key = refl
find_buf-eq-latest (p ∷ ps) key = ground (arith, find_buf-eq-latest ps key)

-- A record that is below the key is after every record that is.
above_head :
    (p key : Bytes) (ps : List Bytes)
    → All (λ q. cmp_rec p q ≡ Ordering.lt) ps
    → (j : ℕ) → j < length ps
    → is_below ps key j ≡ true
    → is_lt (cmp_keys (rec_key p) key) ≡ true
unfolding is_below cmp_rec
above_head p key [] a j h e = elim h [ ]
above_head p key (q ∷ ps) a zero h e = ground (arith, cmp_keys_trans (rec_key p) (rec_key q) key)
above_head p key (q ∷ ps) a (suc j) h e = above_head p key ps a.1 j (omega arith) e

pub is_below-IsMonotone :
    (ps : List Bytes) (key : Bytes) → IsAscending ps → IsMonotone (is_below ps key) (length ps)
unfolding is_below
is_below-IsMonotone [] key a i j h b e = absurd (omega arith)
is_below-IsMonotone (p ∷ ps) key a zero zero h b e = e
is_below-IsMonotone (p ∷ ps) key a zero (suc j) h b e = above_head p key ps a.0 j (omega arith) e
is_below-IsMonotone (p ∷ ps) key a (suc i) zero h b e = absurd (omega arith)
is_below-IsMonotone (p ∷ ps) key a (suc i) (suc j) h b e =
    is_below-IsMonotone ps key a.1 i j (omega arith) (omega arith) e

not_eq_above :
    (p q k : Bytes)
    → cmp_keys p q ≡ Ordering.lt
    → is_lt (cmp_keys p k) ≡ false
    → is_eq (cmp_keys q k) ≡ false
not_eq_above p q k h e = elim (Ordering-cases (cmp_keys q k)) [
  | inl f ↦ ground (arith, cmp_keys_trans p q k)
  | inr (inl f) ↦ ground (arith, subst (λ x. cmp_keys p x ≡ Ordering.lt) (eq_of_cmp_keys q k f) h)
  | inr (inr f) ↦ ground arith
]

pub latest_of_head :
    (p key : Bytes) (ps : List Bytes)
    → All (λ q. cmp_rec p q ≡ Ordering.lt) ps
    → is_lt (cmp_keys (rec_key p) key) ≡ false
    → latest key ps ≡ none
unfolding latest cmp_rec
latest_of_head p key [] a e = refl
latest_of_head p key (q ∷ ps) a e =
    ground (arith, latest_of_head p key ps a.1 e, not_eq_above (rec_key p) (rec_key q) key a.0 e)

match_at-boundary :
    (ps : List Bytes) (key : Bytes)
    → IsAscending ps
    → (r : ℕ) → r ≤ length ps
    → ((i : ℕ) → i < r → is_below ps key i ≡ true)
    → ((i : ℕ) → r ≤ i → i < length ps → is_below ps key i ≡ false)
    → match_at ps r key ≡ latest key ps
unfolding match_at is_below latest
match_at-boundary [] key a r h low high = refl
match_at-boundary (p ∷ ps) key a zero h low high =
    ground (arith, latest_of_head p key ps a.0 (high 0 (omega arith) (omega arith)))
match_at-boundary (p ∷ ps) key a (suc r) h low high = ground (
  arith,
  low 0 (omega arith),
  match_at-boundary ps key a.1 r (omega arith) (λ i k. low (suc i) (omega arith))
      (λ i b k. high (suc i) (omega arith) (omega arith)),
)

-- The binary search of a run finds the record of the key, if the run has one.
pub find_run-eq-latest :
    (r : Run) (key : Bytes) → IsAscending r.records → find_run r key ≡ latest key r.records
unfolding find_run
find_run-eq-latest r key a =
    let b : IsBoundary (is_below r.records key) 0 (length r.records)
        (lower_bound (length r.records) (is_below r.records key) 0 (length r.records)) =
      lower_bound-IsBoundary (is_below r.records key) (length r.records)
        (is_below-IsMonotone r.records key a) (length r.records) 0 (length r.records) (omega arith)
        (omega arith) (omega arith) in
    match_at-boundary r.records key a _ b.below (λ i k. b.passed i (omega arith) k)
      (λ i h k. b.failed i h k)
