-- ===== src/Tests/Table.antt =====
-- go/internal/memtable at concrete inputs.
use eavt_sql.Prelude.{
  ℕ, List, ◌≡◌, refl, Bool, true, false, none, some, [], ◌∷◌, ◌++◌, arith, ◌==◌, if◌then◌else◌, ◌<◌,
}
use eavt_sql.Bytes.Order.{Bytes, cmp_keys}
use eavt_sql.Memtable.Record.{
  make_rec, rec_klen, rec_key, rec_deleted, rec_value, rec_vlen, cmp_rec,
}
use eavt_sql.Memtable.Order.{latest, IsAscending}
use eavt_sql.Memtable.Run.{Run, find_run, find_buf}
use eavt_sql.Memtable.Run.Merge.{flatten}
use eavt_sql.Memtable.Ladder.{
  Column, MemTable, absent, deleted, value, empty_column, size_locked, put_kv, delete_kv,
  freeze_all_capture, publish,
}
use eavt_sql.Memtable.Ladder.Read.{lookup_kv, get_value, find_runs, find_live, lookup_kv_locked}
use eavt_sql.Memtable.Ladder.Lookup.{IsLadder, history, kind_of?, lookup_kv_locked-newest}
use eavt_sql.Memtable.Ladder.Table.{IsMemTable}
use eavt_sql.Memtable.Ladder.Answers.{
  SameAnswers, AnswersAfter, put_kv-get_value, delete_kv-lookup_kv,
}
use eavt_sql.Memtable.Ladder.Flush.{freeze_all_capture-SameAnswers, publish-lookup_kv}
use eavt_sql.Memtable.Drain.{drain_sorted, drain_kv_sorted, drain_winners}
use eavt_sql.Memtable.Drain.Flush.{drain_winners-lookup_kv}

abbrev rec_a : Bytes
rec_a = 2 ∷ 0 ∷ 0 ∷ 0 ∷ 1 ∷ 7 ∷ 0 ∷ 0 ∷ 0 ∷ 1 ∷ 42 ∷ []

abbrev rec_b : Bytes
rec_b = 3 ∷ 0 ∷ 0 ∷ 0 ∷ 1 ∷ 9 ∷ 0 ∷ 0 ∷ 0 ∷ 0 ∷ []

rec_a_lem : make_rec true false (7 ∷ []) (42 ∷ []) ≡ rec_a
unfolding make_rec
rec_a_lem = refl

rec_b_lem : make_rec true true (9 ∷ []) [] ≡ rec_b
unfolding make_rec
rec_b_lem = refl

-- One frozen run with a live key and a tombstone, and a buffer that hides the live key.
abbrev sample_column : Column
sample_column = record {
  runs = record { records = rec_a ∷ rec_b ∷ []; kv = true } ∷ [];
  draining = [];
  buf = rec_b ∷ rec_a ∷ [];
  cf_size = 4;
}

abbrev sample : MemTable
sample = record {
  num_cf = 11;
  gen = 1;
  columns = λ cf. if 10 == cf then sample_column else empty_column;
}

sample_run-IsAscending : IsAscending (rec_a ∷ rec_b ∷ [])
unfolding cmp_rec rec_key rec_klen cmp_keys
sample_run-IsAscending = ((refl, tt), (tt, tt))

sample_column-IsLadder : IsLadder sample_column
sample_column-IsLadder = record { active = (sample_run-IsAscending, tt); drained = tt }

column-IsLadder : (b : Bool) → IsLadder (if b then sample_column else empty_column)
column-IsLadder true = sample_column-IsLadder
column-IsLadder false = record { active = tt; drained = tt }

sample-IsMemTable : IsMemTable sample
sample-IsMemTable cf = column-IsLadder (10 == cf)

column-idle : (b : Bool) → (if b then sample_column else empty_column).draining ≡ []
column-idle true = refl
column-idle false = refl

lookups :
    (lookup_kv 10 (7 ∷ []) sample ≡ some value)
    × (lookup_kv 10 (9 ∷ []) sample ≡ some deleted)
    × (lookup_kv 10 (8 ∷ []) sample ≡ some absent)
    × (get_value 10 (7 ∷ []) sample ≡ some (some (42 ∷ [])))
unfolding lookup_kv get_value find_run find_runs find_live find_buf rec_klen rec_key rec_deleted
    rec_value rec_vlen cmp_keys
lookups = (refl, refl, refl, refl)

put_kv-get_value_example :
    (mt' : MemTable) × (put_kv 10 (9 ∷ []) (5 ∷ []) sample ≡ some (mt', size_locked mt'))
    × IsMemTable mt'
    × AnswersAfter 10 (9 ∷ []) value (some (5 ∷ [])) sample mt'
put_kv-get_value_example =
    put_kv-get_value 10 (9 ∷ []) (5 ∷ []) sample sample-IsMemTable (omega arith) (omega arith)
      (omega arith) (omega arith)

delete_kv-lookup_kv_example :
    (mt' : MemTable) × (delete_kv 10 (7 ∷ []) sample ≡ some mt')
    × IsMemTable mt'
    × AnswersAfter 10 (7 ∷ []) deleted none sample mt'
delete_kv-lookup_kv_example =
    delete_kv-lookup_kv 10 (7 ∷ []) sample sample-IsMemTable (omega arith) (omega arith)

freeze_all_capture-SameAnswers_example :
    SameAnswers sample (freeze_all_capture sample)
    × ((cf : ℕ)
        → cf < 11
        → (((freeze_all_capture sample).columns cf).runs ≡ [])
          × (((freeze_all_capture sample).columns cf).buf ≡ [])
          × (((freeze_all_capture sample).columns cf).cf_size ≡ 0))
freeze_all_capture-SameAnswers_example =
    freeze_all_capture-SameAnswers sample sample-IsMemTable (λ cf. column-idle (10 == cf))

lookup_kv_locked-newest_example :
    lookup_kv_locked sample_column (9 ∷ []) ≡ kind_of? (latest (9 ∷ []) (history sample_column))
lookup_kv_locked-newest_example =
    lookup_kv_locked-newest sample_column (9 ∷ []) sample_column-IsLadder

publish-lookup_kv_example :
    lookup_kv 10 (7 ∷ []) (publish sample)
    ≡ some (kind_of? (latest (7 ∷ []) (flatten sample_column.runs ++ sample_column.buf)))
publish-lookup_kv_example = publish-lookup_kv sample sample-IsMemTable 10 (7 ∷ []) (omega arith)

abbrev sample_run : Run
sample_run = record { records = rec_a ∷ rec_b ∷ []; kv = true }

abbrev two_runs : List Run
two_runs = sample_run ∷ record { records = rec_b ∷ []; kv = true } ∷ []

drains :
    (drain_sorted two_runs ≡ (7 ∷ []) ∷ (9 ∷ []) ∷ [])
    × (drain_kv_sorted two_runs ≡ ((7 ∷ [], 42 ∷ []) ∷ [], (9 ∷ []) ∷ []))
unfolding drain_sorted drain_kv_sorted cmp_rec cmp_keys rec_key rec_klen rec_deleted rec_value
    rec_vlen
drains = (refl, refl)

drain_winners-lookup_kv_example :
    IsAscending (drain_winners ((freeze_all_capture sample).columns 10).draining)
    × (lookup_kv 10 (7 ∷ []) sample
        ≡ some (
            kind_of?
              (latest (7 ∷ []) (drain_winners ((freeze_all_capture sample).columns 10).draining))))
drain_winners-lookup_kv_example =
    drain_winners-lookup_kv sample sample-IsMemTable (λ cf. column-idle (10 == cf)) 10 (7 ∷ [])
      (omega arith)
