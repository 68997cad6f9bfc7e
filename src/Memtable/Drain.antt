-- ===== src/Memtable/Drain.antt =====
-- `DrainSorted` and `DrainKvSorted` (go/internal/memtable/memtable.go): the merge of the captured
-- runs, the newest record of each key first. `runs[i].Records[heads[i]:]` is the i-th list of
-- `heads`. The callback `yield` pauses the caller and has no part in the result.
pub mod Pick
pub mod Winner
pub mod Skip
pub mod Newest
pub mod Flush
use eavt_sql.Prelude.{
  ℕ, zero, suc, Option, none, some, List, [], ◌∷◌, ltb, ◌==◌, is_eq, Ordering, if◌then◌else◌,
  length,
}
use eavt_sql.Bytes.Order.{Bytes}
use eavt_sql.Memtable.Record.{cmp_rec}
use eavt_sql.Memtable.Pairs.{Pair, live_pairs, deleted_keys, keys_in}
use eavt_sql.Memtable.Run.{Run}
use eavt_sql.Memtable.Run.Merge.{flatten}

abbrev pub Heads : Type 0
Heads = List (List Bytes)

-- The test of the loop for `best`: a smaller key, or the same key in a later run.
unfoldable pub choose : ℕ → Bytes → Option (ℕ × Bytes) → Option (ℕ × Bytes)
choose i p none = some (i, p)
choose i p (some (best, q)) = elim (cmp_rec p q) [
  | Ordering.lt ↦ some (i, p)
  | Ordering.eq ↦ if ltb best i then some (i, p) else some (best, q)
  | Ordering.gt ↦ some (best, q)
]

unfoldable pub pick : ℕ → Option (ℕ × Bytes) → Heads → Option (ℕ × Bytes)
unfolding choose
pick i best [] = best
pick i best ([] ∷ hs) = pick (suc i) best hs
pick i best ((p ∷ ps) ∷ hs) = pick (suc i) (choose i p best) hs

-- The loop over the records of another run with the winner's key.
unfoldable pub skip_equal : Bytes → List Bytes → List Bytes
skip_equal win [] = []
skip_equal win (p ∷ ps) =
    let rest = skip_equal win ps in if is_eq (cmp_rec p win) then rest else p ∷ ps

unfoldable pub past_head : List Bytes → List Bytes
past_head [] = []
past_head (p ∷ ps) = ps

unfoldable pub advance_heads : ℕ → ℕ → Bytes → Heads → Heads
unfolding skip_equal past_head
advance_heads i best win [] = []
advance_heads i best win (h ∷ hs) =
    (if i == best then past_head h else skip_equal win h) ∷ advance_heads (suc i) best win hs

-- The winning records in the order in which the loop finds them; the fuel is the number of
-- records.
unfoldable pub winners : ℕ → Heads → List Bytes
unfolding pick advance_heads
winners zero hs = []
winners (suc fuel) hs = elim (pick 0 none hs) [
  | none ↦ []
  | some (best, win) ↦ win ∷ winners fuel (advance_heads 0 best win hs)
]

abbrev pub heads_of : List Run → Heads
heads_of [] = []
heads_of (r ∷ rs) = r.records ∷ heads_of rs

unfoldable pub drain_winners : List Run → List Bytes
unfolding winners flatten
drain_winners rs = winners (length (flatten rs)) (heads_of rs)

unfoldable pub drain_sorted : List Run → List Bytes
unfolding drain_winners keys_in
drain_sorted rs = keys_in (drain_winners rs)

unfoldable pub drain_kv_sorted : List Run → List Pair × List Bytes
unfolding drain_winners live_pairs deleted_keys
drain_kv_sorted rs = (live_pairs (drain_winners rs), deleted_keys (drain_winners rs))
