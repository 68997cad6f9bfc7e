-- ===== src/Memtable/Ladder.antt =====
-- The ladder of one memtable (memtable.go): its state, and every operation on it. The arrays
-- indexed by column family are one function of the family; `none` is the panic of an index out of
-- range. The mutex makes each operation one step. `uint64` counters wrap.
pub mod Read
pub mod Lookup
pub mod Writes
pub mod Table
pub mod Answers
pub mod Flush
use eavt_sql.Prelude.{
  ℕ, zero, suc, ◌+◌, ◌-◌, ◌%◌, ◌^◌, Bool, true, false, ◌&&◌, ◌||◌, Option, none, some, List, [],
  ◌∷◌, ◌++◌, ltb, leb, ◌==◌, or_else, if◌then◌else◌, length, map,
}
use eavt_sql.Bytes.Order.{Bytes}
use eavt_sql.Memtable.Record.{make_rec, rec_klen, rec_deleted, rec_value}
use eavt_sql.Memtable.Run.{Run, find_buf, find_run, enumerate, tag_runs, sort_slice, keep_last}

abbrev pub max_active_runs : ℕ
max_active_runs = 8

abbrev pub max_buf_entries : ℕ
max_buf_entries = 65536

pub data KvLookup : Type 0 where
  absent deleted value : KvLookup

-- One column family's part of the state.
pub record Column : Type 0 where
  pub runs : List Run
  pub draining : List Run
  pub buf : List Bytes
  pub cf_size : ℕ

pub record MemTable : Type 0 where
  pub num_cf : ℕ
  pub gen : ℕ
  pub columns : ℕ → Column

abbrev pub empty_column : Column
empty_column = record { runs = []; draining = []; buf = []; cf_size = 0 }

-- `New`; a count of 0 panics.
unfoldable pub create : ℕ → Option MemTable
create zero = none
create (suc n) = some (record { num_cf = suc n; gen = 0; columns = λ cf. empty_column })

abbrev pub set_column : MemTable → ℕ → Column → MemTable
set_column mt cf c = record mt { columns = λ j. if cf == j then c else mt.columns j }

abbrev pub next_gen : ℕ → ℕ
next_gen g = (g + 1) % 2 ^ 64

-- `kv := cf >= 10`.
abbrev pub is_kv : ℕ → Bool
is_kv cf = leb 10 cf

unfoldable pub key_bytes : List Bytes → ℕ
key_bytes [] = 0
key_bytes (p ∷ ps) = rec_klen p + key_bytes ps

-- `materializeLocked` on a buffer that is not empty. The source subtracts `bufSum - keptBytes`
-- from an int, which never falls below 0 (`Size`).
unfoldable pub freeze_buffer : Bool → Column → Column
freeze_buffer kv c =
    let records = keep_last (sort_slice (enumerate 0 c.buf)) in
    record c {
      runs = c.runs ++ record { records = records; kv = kv } ∷ [];
      buf = [];
      cf_size = c.cf_size - (key_bytes c.buf - key_bytes records);
    }

unfoldable pub materialize_column : Bool → Column → Column
unfolding freeze_buffer
materialize_column kv c = elim c.buf [ [] ↦ c | p ∷ ps ↦ freeze_buffer kv c ]

unfoldable pub is_nil : List Bytes → Bool
is_nil [] = true
is_nil (p ∷ ps) = false

unfoldable pub materialize_locked : ℕ → MemTable → MemTable
unfolding materialize_column is_nil
materialize_locked cf mt =
    if is_nil (mt.columns cf).buf
    then mt
    else record (set_column mt cf (materialize_column (is_kv cf) (mt.columns cf))) {
      gen = next_gen mt.gen;
    }

unfoldable pub merge_column : Bool → Column → Column
merge_column kv c = if leb (length c.runs) max_active_runs then c else record c {
  runs = record { records = keep_last (sort_slice (tag_runs 0 c.runs)); kv = kv } ∷ [];
}

unfoldable pub maybe_merge_locked : ℕ → MemTable → MemTable
unfolding merge_column
maybe_merge_locked cf mt =
    if leb (length (mt.columns cf).runs) max_active_runs
    then mt
    else record (set_column mt cf (merge_column (is_kv cf) (mt.columns cf))) {
      gen = next_gen mt.gen;
    }

-- The body of `EnsureMaterialized`.
unfoldable pub settle : ℕ → MemTable → MemTable
unfolding materialize_locked maybe_merge_locked
settle cf mt = maybe_merge_locked cf (materialize_locked cf mt)

unfoldable pub append_column : Bool → Bool → Bytes → Bytes → Column → Column
append_column kv del key val c = record c {
  buf = c.buf ++ make_rec kv del key val ∷ [];
  cf_size = c.cf_size + length key;
}

unfoldable pub append_rec_locked : ℕ → Bool → Bytes → Bytes → MemTable → MemTable
unfolding append_column settle
append_rec_locked cf del key val mt =
    let mt' = set_column mt cf (append_column (is_kv cf) del key val (mt.columns cf)) in
    if leb max_buf_entries (length (mt'.columns cf).buf) then settle cf mt' else mt'

size_below : ℕ → MemTable → ℕ
size_below zero mt = 0
size_below (suc cf) mt = size_below cf mt + (mt.columns cf).cf_size

unfoldable pub size_locked : MemTable → ℕ
unfolding size_below
size_locked mt = size_below mt.num_cf mt % 2 ^ 64

abbrev in_range : ℕ → MemTable → MemTable → Option MemTable
in_range cf mt mt' = if ltb cf mt.num_cf then some mt' else none

abbrev with_size : Option MemTable → Option (MemTable × ℕ)
with_size none = none
with_size (some mt) = some (mt, size_locked mt)

unfoldable pub put : ℕ → Bytes → MemTable → Option (MemTable × ℕ)
unfolding append_rec_locked
put cf key mt = with_size (in_range cf mt (append_rec_locked cf false key [] mt))

unfoldable pub put_kv : ℕ → Bytes → Bytes → MemTable → Option (MemTable × ℕ)
unfolding append_rec_locked
put_kv cf key val mt = with_size (in_range cf mt (append_rec_locked cf false key val mt))

unfoldable pub delete_kv : ℕ → Bytes → MemTable → Option MemTable
unfolding append_rec_locked
delete_kv cf key mt = in_range cf mt (append_rec_locked cf true key [] mt)

pub record CfKey : Type 0 where
  pub cf : ℕ
  pub key : Bytes

-- The loop of `Batch`: an entry of an unknown family is skipped.
unfoldable pub append_batch : List CfKey → MemTable → MemTable
unfolding append_rec_locked
append_batch [] mt = mt
append_batch (e ∷ es) mt =
    append_batch es (if leb mt.num_cf e.cf then mt else append_rec_locked e.cf false e.key [] mt)

unfoldable pub batch : List CfKey → MemTable → MemTable × ℕ
unfolding append_batch
batch es mt = let mt' = append_batch es mt in (mt', size_locked mt')

unfoldable pub ensure_materialized : ℕ → MemTable → Option MemTable
unfolding settle
ensure_materialized cf mt = in_range cf mt (settle cf mt)

unfoldable pub maybe_cap_buf : ℕ → MemTable → Option MemTable
unfolding settle
maybe_cap_buf cf mt =
    in_range cf mt (if leb max_buf_entries (length (mt.columns cf).buf) then settle cf mt else mt)

-- `for cf := 0; cf < n; cf++`.
unfoldable pub each_cf : ℕ → (ℕ → MemTable → MemTable) → MemTable → MemTable
each_cf zero f mt = mt
each_cf (suc n) f mt = f n (each_cf n f mt)

unfoldable pub materialize_all : MemTable → MemTable
unfolding each_cf settle
materialize_all mt = each_cf mt.num_cf settle mt

-- The new state, and the draining runs followed by the active ones.
unfoldable pub snapshot_runs : ℕ → MemTable → Option (MemTable × List Run)
unfolding settle
snapshot_runs cf mt =
    let mt' = settle cf mt in
    if ltb cf mt.num_cf
    then some (mt', (mt'.columns cf).draining ++ (mt'.columns cf).runs)
    else none

abbrev pub drain_column : Column → Column
drain_column c = record { runs = []; draining = c.runs; buf = []; cf_size = 0 }

unfoldable pub start_drain : ℕ → MemTable → MemTable
start_drain cf mt = set_column mt cf (drain_column (mt.columns cf))

-- The captured runs are the new state's draining runs.
unfoldable pub freeze_all_capture : MemTable → MemTable
unfolding materialize_all start_drain
freeze_all_capture mt =
    let mt' = each_cf mt.num_cf start_drain (materialize_all mt) in
    record mt' { gen = next_gen mt'.gen }

unfoldable pub drop_draining : ℕ → MemTable → MemTable
drop_draining cf mt = set_column mt cf (record (mt.columns cf) { draining = [] })

unfoldable pub publish : MemTable → MemTable
unfolding each_cf drop_draining
publish mt = let mt' = each_cf mt.num_cf drop_draining mt in record mt' { gen = next_gen mt'.gen }

unfoldable pub drop_column : ℕ → MemTable → MemTable
drop_column cf mt = set_column mt cf empty_column

unfoldable pub clear : MemTable → MemTable
unfolding each_cf drop_column
clear mt = let mt' = each_cf mt.num_cf drop_column mt in record mt' { gen = next_gen mt'.gen }
