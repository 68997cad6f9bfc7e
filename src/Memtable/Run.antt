-- ===== src/Memtable/Run.antt =====
-- `findBufLocked`, `findRun`, and the sorting that freezes a delta buffer or merges runs
-- (memtable.go). `sort.Slice` is an insertion sort by the same `less`.
pub mod Search
pub mod Sort
pub mod Merge
use eavt_sql.Prelude.{
  ℕ, zero, suc, ◌+◌, Bool, true, false, Option, none, some, List, [], ◌∷◌, ◌++◌, Ordering, is_lt,
  is_eq, ltb, or_else, if◌then◌else◌, length, get_elem?, get_or, map,
}
use eavt_sql.Prelude.Search.{lower_bound}
use eavt_sql.Bytes.Order.{Bytes, cmp_keys}
use eavt_sql.Memtable.Record.{rec_key, cmp_rec}

pub record Run : Type 0 where
  pub records : List Bytes
  pub kv : Bool

-- The loop goes down from the end, so the rest of the buffer is asked first.
unfoldable pub find_buf : List Bytes → Bytes → Option Bytes
find_buf [] key = none
find_buf (p ∷ ps) key =
    or_else (find_buf ps key) (if is_eq (cmp_keys (rec_key p) key) then some p else none)

-- The final test of `findRun` at the index where the search ended.
unfoldable pub match_at : List Bytes → ℕ → Bytes → Option Bytes
match_at records lo key = elim (get_elem? records lo) [
  | none ↦ none
  | some p ↦ if is_eq (cmp_keys (rec_key p) key) then some p else none
]

unfoldable pub is_below : List Bytes → Bytes → ℕ → Bool
is_below records key i = is_lt (cmp_keys (rec_key (get_or records i [])) key)

unfoldable pub find_run : Run → Bytes → Option Bytes
unfolding match_at is_below lower_bound
find_run r key =
    match_at r.records
      (lower_bound (length r.records) (is_below r.records key) 0 (length r.records)) key

-- A record with the number that breaks ties: its index in the buffer, or its run's index.
abbrev pub Tagged : Type 0
Tagged = Bytes × ℕ

unfoldable pub less : Tagged → Tagged → Bool
less (p, a) (q, b) = elim (cmp_rec p q) [
  | Ordering.lt ↦ true
  | Ordering.eq ↦ ltb a b
  | Ordering.gt ↦ false
]

unfoldable pub insert_sorted : Tagged → List Tagged → List Tagged
insert_sorted x [] = x ∷ []
insert_sorted x (y ∷ l) = if less x y then x ∷ y ∷ l else y ∷ insert_sorted x l

unfoldable pub sort_slice : List Tagged → List Tagged
unfolding insert_sorted less
sort_slice [] = []
sort_slice (x ∷ l) = insert_sorted x (sort_slice l)

-- The loop over groups of equal keys: the last record of each group stays.
unfoldable pub keep_last : List Tagged → List Bytes
keep_last [] = []
keep_last (x ∷ []) = x.0 ∷ []
keep_last (x ∷ y ∷ l) =
    let rest = keep_last (y ∷ l) in if is_eq (cmp_rec x.0 y.0) then rest else x.0 ∷ rest

-- `order`: each record of the delta with its index.
unfoldable pub enumerate : ℕ → List Bytes → List Tagged
enumerate n [] = []
enumerate n (p ∷ ps) = (p, n) ∷ enumerate (suc n) ps

-- `merged` and `origin`: each record of the runs with the index of its run.
unfoldable pub tag_all : ℕ → List Bytes → List Tagged
tag_all ri [] = []
tag_all ri (p ∷ ps) = (p, ri) ∷ tag_all ri ps

unfoldable pub tag_runs : ℕ → List Run → List Tagged
unfolding tag_all
tag_runs ri [] = []
tag_runs ri (r ∷ rs) = tag_all ri r.records ++ tag_runs (suc ri) rs
