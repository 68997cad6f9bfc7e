-- ===== src/Wal/Segments.antt =====
-- The files of the log's segments: `deleteDurable` and `Attach` (wal.go).
use eavt_sql.Prelude.{ℕ, ◌+◌, Option, none, some, List, [], ◌∷◌, ltb, leb, if◌then◌else◌, false}
use eavt_sql.Bytes.Order.{Bytes}
use eavt_sql.Wal.{
  FileOutcome, done, fails, SealedSeg, Files, Writer, Attempt, succeeded, erred, set_file,
  next_outcome, open_seg,
}

-- `os.Remove`, which also fails when there is no such file.
abbrev pub remove_outcome : ℕ → Option Bytes → FileOutcome → Writer → Attempt
remove_outcome i none o w = erred w
remove_outcome i (some bs) done w = succeeded (record w { files = set_file w.files i none })
remove_outcome i (some bs) (fails n) w = erred w

unfoldable pub remove_file : ℕ → Writer → Attempt
remove_file i w =
    let (o, os) = next_outcome w.outcomes in
    remove_outcome i (w.files i) o (record w { outcomes = os })

-- The loop of `deleteDurable` over the sealed segments.
unfoldable pub delete_sealed : ℕ → List SealedSeg → Writer → Writer
unfolding remove_file
delete_sealed durable [] w = record w { sealed = [] }
delete_sealed durable (s ∷ ss) w =
    if leb s.boundary durable
    then elim (remove_file s.idx w) [
      | succeeded w' ↦ delete_sealed durable ss w'
      | erred w' ↦ record w' { sealed = s ∷ ss }
    ]
    else record w { sealed = s ∷ ss }

-- `deleteDurable`; without a durable counter, or at -1, there is nothing to do.
unfoldable pub delete_durable : Option ℕ → Writer → Writer
unfolding delete_sealed
delete_durable none w = w
delete_durable (some durable) w = delete_sealed durable w.sealed w

-- The greatest number among the segment files.
abbrev pub max_index : List (Option ℕ) → Option ℕ
max_index [] = none
max_index (none ∷ is) = max_index is
max_index (some i ∷ is) =
    let rest = max_index is in
    elim rest [ some j ↦ some (if ltb i j then j else i) | none ↦ some i ]

abbrev pub next_index : Option ℕ → ℕ
next_index none = 0
next_index (some i) = i + 1

abbrev pub fresh_writer : ℕ → Files → List FileOutcome → Writer
fresh_writer n fs os = record {
  files = fs;
  seg_idx = n;
  is_open = false;
  offset = 0;
  buf = [];
  buf_pos = 0;
  logical_end = 0;
  seal_boundary = none;
  sealed = [];
  stopped = false;
  events = [];
  outcomes = os;
}

-- What `os.ReadDir` returns: all names, or those that it read before an error. A name that is not of
-- a segment is `none`.
pub data Listing : Type 0 where
  complete cut_short : List (Option ℕ) → Listing

-- `entries, _ := os.ReadDir(dir)`: the error is ignored.
abbrev pub listed_names : Listing → List (Option ℕ)
listed_names (complete names) = names
listed_names (cut_short names) = names

-- `Attach` in a directory that is there: the new segment stands after the numbers that the file
-- names have.
unfoldable pub attach : Listing → Files → List FileOutcome → Attempt
unfolding open_seg
attach listing fs os = open_seg (fresh_writer (next_index (max_index (listed_names listing))) fs os)
