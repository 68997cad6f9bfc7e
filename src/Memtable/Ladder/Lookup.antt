-- ===== src/Memtable/Ladder/Lookup.antt =====
-- Lookups in the ladder answer by the newest record of the key.
use eavt_sql.Prelude.{
  ◌≡◌, refl, Option, none, some, List, [], ◌∷◌, ◌++◌, arith, or_else, if◌then◌else◌,
}
use eavt_sql.Bytes.Order.{Bytes}
use eavt_sql.Memtable.Record.{rec_deleted, rec_value}
use eavt_sql.Memtable.Order.{latest, latest-append}
use eavt_sql.Memtable.Run.{Run, find_buf}
use eavt_sql.Memtable.Run.Search.{find_buf-eq-latest, find_run-eq-latest}
use eavt_sql.Memtable.Run.Merge.{AreAscending, flatten}
use eavt_sql.Memtable.Ladder.{Column, KvLookup, absent}
use eavt_sql.Memtable.Ladder.Read.{
  kind_of, live, find_runs, find_live, lookup_kv_locked, get_value_locked,
}

-- Every frozen run is sorted by strictly ascending keys.
pub record IsLadder (c : Column) : Type 0 where
  pub active : AreAscending c.runs
  pub drained : AreAscending c.draining

-- What was written and is still there, the oldest first.
unfoldable pub history : Column → List Bytes
history c = flatten c.draining ++ (flatten c.runs ++ c.buf)

pub find_runs-eq-latest :
    (rs : List Run) (key : Bytes) → AreAscending rs → find_runs rs key ≡ latest key (flatten rs)
unfolding find_runs flatten
find_runs-eq-latest [] key a = unfold latest in refl
find_runs-eq-latest (r ∷ rs) key a = ground (
  arith,
  find_runs-eq-latest rs key a.1,
  find_run-eq-latest r key a.0,
  latest-append key r.records (flatten rs),
)

-- What the newest record of a key says.
abbrev pub kind_of? : Option Bytes → KvLookup
kind_of? none = absent
kind_of? (some p) = kind_of p

abbrev pub value_of? : Option Bytes → Option Bytes
value_of? none = none
value_of? (some p) = if rec_deleted p then none else some (rec_value p)

-- What the loops of the two lookups see is the newest record of the whole history.
newest :
    (c : Column) (key : Bytes)
    → IsLadder c
    → latest key (history c)
      ≡ or_else (find_buf c.buf key) (or_else (find_runs c.runs key) (find_runs c.draining key))
unfolding history
newest c key l = ground (
  arith,
  find_buf-eq-latest c.buf key,
  find_runs-eq-latest c.runs key l.active,
  find_runs-eq-latest c.draining key l.drained,
  latest-append key (flatten c.runs) c.buf,
  latest-append key (flatten c.draining) (flatten c.runs ++ c.buf),
)

-- In a ladder of sorted runs a lookup says what the newest record of the key says: absent if the
-- history has none, deleted if it is a tombstone, and a value otherwise.
pub lookup_kv_locked-newest :
    (c : Column) (key : Bytes)
    → IsLadder c
    → lookup_kv_locked c key ≡ kind_of? (latest key (history c))
unfolding lookup_kv_locked
lookup_kv_locked-newest c key l = rw (newest c key l) (ground arith)

find_live-none : (rs : List Run) (key : Bytes) → find_runs rs key ≡ none → find_live rs key ≡ none
unfolding find_runs find_live
find_live-none [] key h = refl
find_live-none (r ∷ rs) key h = ground (arith, find_live-none rs key)

find_live-newest :
    (rs : List Run) (key : Bytes)
    → or_else (live (find_runs rs key)) (find_live rs key) ≡ find_live rs key
unfolding find_runs find_live
find_live-newest [] key = refl
find_live-newest (r ∷ rs) key = ground (arith, find_live-newest rs key, find_live-none rs key)

pub get_value_locked-newest :
    (c : Column) (key : Bytes)
    → IsLadder c
    → get_value_locked c key ≡ value_of? (latest key (history c))
unfolding get_value_locked lookup_kv_locked
get_value_locked-newest c key l = rw (newest c key l) (
    ground (
      arith,
      find_live-newest c.runs key,
      find_live-none c.runs key,
      find_live-newest c.draining key,
      find_live-none c.draining key,
    ))
