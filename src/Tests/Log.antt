-- ===== src/Tests/Log.antt =====
-- The write-ahead log and the journal at concrete inputs.
use eavt_sql.Prelude.{
  ltb, ℕ, ◌≡◌, ◌≤◌, refl, inl, true, none, some, List, [], ◌∷◌, ◌++◌, arith, take, drop, length,
  if◌then◌else◌, ◌==◌,
}
use eavt_sql.Memtable.Ladder.{MemTable, CfKey, empty_column}
use eavt_sql.Kvstore.Journal.{parse_journal_records}
use eavt_sql.Kvstore.Journal.RoundTrip.{
  Write, write_records, index_keys, parse_journal_records-write_records,
}
use eavt_sql.Kvstore.Replay.{parse_files}
use eavt_sql.Wal.{fails, Files, Writer, succeeded, failed, drained, drain, sink, seal, sink_records}
use eavt_sql.Wal.Segments.{complete, cut_short, attach, fresh_writer, delete_durable}
use eavt_sql.Wal.Reachable.{IsReachable, attached, sunk, sealed, deleted, Kept, IsReachable-Kept}
use eavt_sql.Wal.Recovery.{indexed, all_files, drain-parse_files}
use eavt_sql.Wal.Ends.{IsEnd, drain-IsEnd}
use eavt_sql.Wal.Stuck.{IsStuck, drain-IsStuck}

abbrev one_key : CfKey
one_key = record { cf = 0; key = 7 ∷ 8 ∷ [] }

abbrev two_keys : List CfKey
two_keys = one_key ∷ record { cf = 5; key = 9 ∷ [] } ∷ []

abbrev two_writes : List Write
two_writes = (one_key, none) ∷ (record { cf = 5; key = 9 ∷ [] }, some (3 ∷ 4 ∷ [])) ∷ []

parse_journal_records-write_records_example :
    parse_journal_records (write_records two_writes ++ 0 ∷ 0 ∷ 1 ∷ []) ≡ index_keys two_writes
parse_journal_records-write_records_example =
    parse_journal_records-write_records two_writes (0 ∷ 0 ∷ 1 ∷ [])
      (
        (omega arith, omega arith, omega arith, omega arith),
        ((omega arith, omega arith, omega arith, omega arith), tt),
      )
      (omega arith)

abbrev empty_table : MemTable
empty_table = record { num_cf = 6; gen = 0; columns = λ cf. empty_column }

abbrev no_files : Files
no_files = λ i. none

-- A log that was attached without failures.
abbrev new_log : Writer
new_log = record (fresh_writer 0 no_files []) {
  files = λ i. if i == 0 then some [] else none;
  is_open = true;
}

is_attached : attach (complete []) no_files [] ≡ succeeded new_log
unfolding attach
is_attached = refl

-- After a listing that failed, the log opens the first segment again, behind its old bytes, although
-- a later one is there.
reopens_old_segment :
    attach (cut_short []) (λ i. if ltb i 2 then some (1 ∷ 2 ∷ []) else none) []
    ≡ succeeded (record (fresh_writer 0 (λ i. if ltb i 2 then some (1 ∷ 2 ∷ []) else none) []) {
      files =
          λ i. if i == 0 then some (1 ∷ 2 ∷ []) else if ltb i 2 then some (1 ∷ 2 ∷ []) else none;
      is_open = true;
      offset = 2;
    })
unfolding attach
reopens_old_segment = refl

-- Two batches with a boundary between them, after which the first segment is durable.
abbrev busy_log : Writer
busy_log = delete_durable (some 12) (sink two_keys (seal (sink (one_key ∷ []) new_log)).1)

busy_log-IsReachable : IsReachable (([] ++ one_key ∷ []) ++ two_keys) 12 busy_log
unfolding sink seal
busy_log-IsReachable = deleted (([] ++ one_key ∷ []) ++ two_keys) 0 12 _ (omega arith) (
    sunk ([] ++ one_key ∷ []) 0 (seal (sink (one_key ∷ []) new_log)).1 two_keys refl (
      sealed ([] ++ one_key ∷ []) 0 (sink (one_key ∷ []) new_log) (
        sunk [] 0 new_log (one_key ∷ []) refl
          (attached [] no_files [] new_log (λ i. inl refl) is_attached))))

IsReachable-Kept_example : Kept (one_key ∷ two_keys) 12 busy_log
IsReachable-Kept_example = IsReachable-Kept (one_key ∷ two_keys) 12 busy_log busy_log-IsReachable

drain-parse_files_example :
    (w' : Writer) × (n : ℕ) × (drain busy_log ≡ drained w')
    × (length (sink_records (take n (one_key ∷ two_keys))) ≤ 12)
    × (parse_files (all_files w') ≡ indexed (drop n (one_key ∷ two_keys)))
unfolding sink seal delete_durable
drain-parse_files_example =
    drain-parse_files (one_key ∷ two_keys) 12 busy_log busy_log-IsReachable
      (
        (omega arith, omega arith, omega arith, omega arith),
        (
          (omega arith, omega arith, omega arith, omega arith),
          ((omega arith, omega arith, omega arith, omega arith), tt),
        ),
      )
      refl refl

drain-IsEnd_example : IsEnd (drain busy_log)
drain-IsEnd_example = drain-IsEnd busy_log

-- The rotation cannot open the next segment, and a boundary is set before the next drain.
abbrev stuck_log : Writer
stuck_log = (seal (sink two_keys (record (seal new_log).1 { outcomes = fails 0 ∷ [] }))).1

stuck_log-IsStuck : IsStuck stuck_log
unfolding sink seal
stuck_log-IsStuck = record {
  boundary = 23;
  is_set = refl;
  closed = refl;
  ahead = omega arith;
  some_bytes = omega arith;
  end_ahead = omega arith;
}

drain-IsStuck_example :
    (drain stuck_log ≡ failed stuck_log)
    × ((sink two_keys stuck_log).files ≡ stuck_log.files)
    × IsStuck (sink two_keys stuck_log)
    × IsStuck (seal stuck_log).1
drain-IsStuck_example = drain-IsStuck stuck_log two_keys stuck_log-IsStuck
