-- ===== src/Memtable/Cursor/Seek.antt =====
-- Where `Seek` leaves the cursor (run_cursor.go).
use eavt_sql.Prelude.{
  ℕ, zero, suc, ◌<◌, ◌≤◌, ◌≡◌, refl, true, false, List, [], ◌∷◌, is_lt, if◌then◌else◌, length, drop,
  arith,
}
use eavt_sql.Prelude.Search.{lower_bound, IsBoundary, lower_bound-IsBoundary}
use eavt_sql.Bytes.Order.{Bytes, cmp_keys}
use eavt_sql.Memtable.Record.{rec_key}
use eavt_sql.Memtable.Order.{IsAscending}
use eavt_sql.Memtable.Run.{is_below}
use eavt_sql.Memtable.Run.Search.{is_below-IsMonotone}
use eavt_sql.Memtable.Cursor.{RunCursor, seek, seek_stack}
use eavt_sql.Memtable.Cursor.Walk.{remaining, IsRunCursor, drop_all}

-- The records from the first key on that is not below the target.
unfoldable pub from_key : Bytes → List Bytes → List Bytes
from_key target [] = []
from_key target (p ∷ ps) =
    let rest = from_key target ps in if is_lt (cmp_keys (rec_key p) target) then rest else p ∷ ps

drop-boundary :
    (ps : List Bytes) (target : Bytes) (r : ℕ)
    → r ≤ length ps
    → ((i : ℕ) → i < r → is_below ps target i ≡ true)
    → ((i : ℕ) → r ≤ i → i < length ps → is_below ps target i ≡ false)
    → drop r ps ≡ from_key target ps
unfolding is_below from_key
drop-boundary [] target zero h low high = refl
drop-boundary [] target (suc r) h low high = refl
drop-boundary (p ∷ ps) target zero h low high = ground (arith, high 0 (omega arith) (omega arith))
drop-boundary (p ∷ ps) target (suc r) h low high =
    let head = low 0 (omega arith) in
    let ih =
      drop-boundary ps target r (omega arith) (λ i k. low (suc i) (omega arith))
        (λ i b k. high (suc i) (omega arith) (omega arith)) in
    ground (arith, head, ih)

-- In a run of strictly ascending keys a seek leaves the records from the first key on that is not
-- below the target, and the cursor well placed.
pub remaining-seek :
    (target : Bytes) (c : RunCursor)
    → IsAscending c.run.records
    → IsRunCursor (seek target c) × (remaining (seek target c) ≡ from_key target c.run.records)
unfolding seek seek_stack remaining
remaining-seek target c a =
    let ps = c.run.records in
    let b : IsBoundary (is_below ps target) 0 (length ps)
        (lower_bound (length ps) (is_below ps target) 0 (length ps)) =
      lower_bound-IsBoundary (is_below ps target) (length ps) (is_below-IsMonotone ps target a)
        (length ps) 0 (length ps) (omega arith) (omega arith) (omega arith) in
    let whole =
      drop-boundary ps target _ b.below (λ i k. b.passed i (omega arith) k)
        (λ i h k. b.failed i h k) in
    (
      (λ e. ground arith),
      ground
          (arith, whole, drop_all ps (lower_bound (length ps) (is_below ps target) 0 (length ps))),
    )
