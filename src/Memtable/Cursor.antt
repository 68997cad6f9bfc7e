-- ===== src/Memtable/Cursor.antt =====
-- go/internal/memtable/run_cursor.go: a cursor over one run. A method gives the cursor it leaves
-- behind with its result; the outer `none` is the panic of an index out of range.
pub mod Walk
pub mod Seek
use eavt_sql.Prelude.{
  ℕ, zero, suc, ◌+◌, Bool, true, false, Option, none, some, List, [], ◌∷◌, leb, if◌then◌else◌,
  length, get_elem?,
}
use eavt_sql.Prelude.Search.{lower_bound}
use eavt_sql.Bytes.Order.{Bytes}
use eavt_sql.Memtable.Record.{rec_key, rec_value, rec_deleted}
use eavt_sql.Memtable.Pairs.{Pair}
use eavt_sql.Memtable.Run.{Run, is_below}

pub record RunCursor : Type 0 where
  pub run : Run
  pub pos : ℕ
  pub at_end : Bool

-- `NewRunCursor` of a run that is not nil.
unfoldable pub new_run_cursor : Run → RunCursor
new_run_cursor r = record { run = r; pos = 0; at_end = leb (length r.records) 0 }

unfoldable pub advance : RunCursor → RunCursor
advance c =
    if c.at_end
    then c
    else record c { pos = suc c.pos; at_end = leb (length c.run.records) (suc c.pos) }

-- The test of `Peek` on the position is the lookup's own.
unfoldable pub peek : RunCursor → Option Bytes
peek c =
    if c.at_end
    then none
    else elim (get_elem? c.run.records c.pos) [ none ↦ none | some p ↦ some (rec_key p) ]

unfoldable pub next : RunCursor → RunCursor × Option Bytes
unfolding peek advance
next c = elim (peek c) [ none ↦ (c, none) | some k ↦ (advance c, some k) ]

-- The loop of `PeekKv`; the fuel is above the number of records.
unfoldable pub skip_deleted : ℕ → RunCursor → Option (RunCursor × Option Pair)
unfolding advance
skip_deleted zero c = some (c, none)
skip_deleted (suc fuel) c =
    let rest = skip_deleted fuel (advance c) in
    if c.at_end then some (c, none) else elim (get_elem? c.run.records c.pos) [
      | none ↦ none
      | some p ↦ if rec_deleted p then rest else some (c, some (rec_key p, rec_value p))
    ]

unfoldable pub peek_kv : RunCursor → Option (RunCursor × Option Pair)
unfolding skip_deleted
peek_kv c = skip_deleted (suc (length c.run.records)) c

abbrev pub step_over : Option (RunCursor × Option Pair) → Option (RunCursor × Option Pair)
step_over none = none
step_over (some (c, none)) = some (c, none)
step_over (some (c, some p)) = some (advance c, some p)

unfoldable pub next_kv : RunCursor → Option (RunCursor × Option Pair)
unfolding peek_kv advance
next_kv c = step_over (peek_kv c)

-- The loop of `NextDeleted`.
unfoldable pub skip_live : ℕ → RunCursor → Option (RunCursor × Option Bytes)
unfolding advance
skip_live zero c = some (c, none)
skip_live (suc fuel) c =
    let rest = skip_live fuel (advance c) in
    if c.at_end then some (c, none) else elim (get_elem? c.run.records c.pos) [
      | none ↦ none
      | some p ↦ if rec_deleted p then some (advance c, some (rec_key p)) else rest
    ]

unfoldable pub next_deleted : RunCursor → Option (RunCursor × Option Bytes)
unfolding skip_live
next_deleted c = skip_live (suc (length c.run.records)) c

unfoldable pub seek_stack : Bytes → RunCursor → RunCursor
unfolding is_below lower_bound
seek_stack target c = record c {
  pos = lower_bound (length c.run.records) (is_below c.run.records target) 0 (length c.run.records);
}

unfoldable pub seek : Bytes → RunCursor → RunCursor
unfolding seek_stack
seek target c =
    let c' = seek_stack target c in record c' { at_end = leb (length c'.run.records) c'.pos }

unfoldable pub set_at_end : Bool → RunCursor → RunCursor
set_at_end v c = record c { at_end = v }
