-- ===== src/Memtable/Ladder/Read.antt =====
-- Lookups in the ladder (memtable.go): the buffer, then the active runs from the newest, then the
-- draining runs.
use eavt_sql.Prelude.{
  ℕ, Bool, true, false, Option, none, some, List, [], ◌∷◌, ltb, or_else, if◌then◌else◌,
}
use eavt_sql.Bytes.Order.{Bytes}
use eavt_sql.Memtable.Record.{rec_deleted, rec_value}
use eavt_sql.Memtable.Run.{Run, find_buf, find_run}
use eavt_sql.Memtable.Ladder.{Column, MemTable, KvLookup, absent, deleted, value}

-- The loops over runs go down from the newest, so the later runs are asked first.
unfoldable pub find_runs : List Run → Bytes → Option Bytes
find_runs [] key = none
find_runs (r ∷ rs) key = or_else (find_runs rs key) (find_run r key)

abbrev pub kind_of : Bytes → KvLookup
kind_of p = if rec_deleted p then deleted else value

unfoldable pub lookup_kv_locked : Column → Bytes → KvLookup
lookup_kv_locked c key = elim (find_buf c.buf key) [
  | some p ↦ kind_of p
  | none ↦ elim (find_runs c.runs key) [
    | some p ↦ kind_of p
    | none ↦ elim (find_runs c.draining key) [ some p ↦ kind_of p | none ↦ absent ]
  ]
]

unfoldable pub lookup_kv : ℕ → Bytes → MemTable → Option KvLookup
unfolding lookup_kv_locked
lookup_kv cf key mt = if ltb cf mt.num_cf then some (lookup_kv_locked (mt.columns cf) key) else none

-- A hit that is no tombstone.
abbrev pub live : Option Bytes → Option Bytes
live none = none
live (some p) = if rec_deleted p then none else some p

-- Here a tombstone does not end the loop.
unfoldable pub find_live : List Run → Bytes → Option Bytes
find_live [] key = none
find_live (r ∷ rs) key = or_else (find_live rs key) (live (find_run r key))

unfoldable pub get_value_locked : Column → Bytes → Option Bytes
unfolding lookup_kv_locked
get_value_locked c key = elim (lookup_kv_locked c key) [
  | absent ↦ none
  | deleted ↦ none
  | value ↦
      elim (or_else (live (find_buf c.buf key))
        (or_else (find_live c.runs key) (find_live c.draining key))) [
          | none ↦ none
          | some p ↦ some (rec_value p)
        ]
]

unfoldable pub get_value : ℕ → Bytes → MemTable → Option (Option Bytes)
unfolding get_value_locked
get_value cf key mt = if ltb cf mt.num_cf then some (get_value_locked (mt.columns cf) key) else none

unfoldable pub contains_any : ℕ → Bytes → MemTable → Option Bool
unfolding lookup_kv
contains_any cf key mt = elim (lookup_kv cf key mt) [
  | none ↦ none
  | some absent ↦ some false
  | some deleted ↦ some true
  | some value ↦ some true
]
