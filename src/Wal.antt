-- ===== src/Wal.antt =====
-- The segmented write-ahead log, go/internal/wal/wal.go. Segment files are named by their number, so
-- the directory maps a number to the bytes of the file. The open file is always that of `seg_idx`;
-- `is_open` is false once the handle was closed and no new one was opened. Each operation of the file
-- system takes the next element of `outcomes`, and succeeds when the list has ended; a failed write
-- may have written some bytes. The writer's mutex makes each operation one step.
pub mod Segments
pub mod Log
mod Write
mod Rotate
pub mod Drain
pub mod Ends
mod Cuts
mod Marks
pub mod Delete
pub mod Steps
pub mod Reachable
pub mod Recovery
pub mod Durable
pub mod Stuck
use eavt_sql.Prelude.{
  ℕ, zero, suc, ◌+◌, ◌-◌, ◌/◌, ◌%◌, ◌^◌, min, Bool, true, false, Option, none, some, List, [], ◌∷◌,
  ◌++◌, ltb, leb, ◌==◌, if◌then◌else◌, length, take, drop, replicate,
}
use eavt_sql.Bytes.Order.{Bytes}
use eavt_sql.Memtable.Ladder.{CfKey}

pub data FileOutcome : Type 0 where
  done : FileOutcome
  fails : ℕ → FileOutcome

pub record SealedSeg : Type 0 where
  pub idx : ℕ
  pub boundary : ℕ

-- A call of `OnWal` or `OnSeal`.
pub data Event : Type 0 where
  on_wal : Bytes → Event
  on_seal : ℕ → Event

abbrev pub Files : Type 0
Files = ℕ → Option Bytes

-- `Writer` with its directory; the code's -1 for no boundary is `none`.
pub record Writer : Type 0 where
  pub files : Files
  pub seg_idx : ℕ
  pub is_open : Bool
  pub offset : ℕ
  pub buf : Bytes
  pub buf_pos : ℕ
  pub logical_end : ℕ
  pub seal_boundary : Option ℕ
  pub sealed : List SealedSeg
  pub stopped : Bool
  pub events : List Event
  pub outcomes : List FileOutcome

-- The writer after an attempt.
pub data Attempt : Type 0 where
  succeeded : Writer → Attempt
  erred : Writer → Attempt

abbrev pub content : Files → ℕ → Bytes
content fs i = elim (fs i) [ some bs ↦ bs | none ↦ [] ]

abbrev pub set_file : Files → ℕ → Option Bytes → Files
set_file fs i c = λ j. if j == i then c else fs j

-- `WriteAt`: the bytes between the end of the file and the offset are zero.
abbrev pub write_at : ℕ → Bytes → Bytes → Bytes
write_at off bs file =
    take off file ++ (replicate (off - length file) 0 ++ (bs ++ drop (off + length bs) file))

abbrev pub next_outcome : List FileOutcome → FileOutcome × List FileOutcome
next_outcome [] = (done, [])
next_outcome (o ∷ os) = (o, os)

-- A write of the first bytes of the buffer to the open file, and what the code does on success.
abbrev pub write_outcome : ℕ → FileOutcome → Writer → Attempt
write_outcome k done w = succeeded (record w {
  files =
      set_file w.files w.seg_idx
        (some (write_at w.offset (take k w.buf) (content w.files w.seg_idx)));
  offset = w.offset + k;
  buf = drop k w.buf;
  buf_pos = w.buf_pos + k;
})
write_outcome k (fails n) w = erred (record w {
  files =
      set_file w.files w.seg_idx
        (some (write_at w.offset (take n (take k w.buf)) (content w.files w.seg_idx)));
})

unfoldable pub write_split : ℕ → Writer → Attempt
write_split k w =
    let (o, os) = next_outcome w.outcomes in
    if w.is_open then write_outcome k o (record w { outcomes = os }) else erred w

-- `openSeg` at `segIdx`, and what the code does on success. The call may fail before or after the
-- file is made.
abbrev pub open_outcome : FileOutcome → Writer → Attempt
open_outcome done w = succeeded (record w {
  files = set_file w.files w.seg_idx (some (content w.files w.seg_idx));
  is_open = true;
  offset = length (content w.files w.seg_idx);
})
open_outcome (fails zero) w = erred w
open_outcome (fails (suc n)) w =
    erred (record w { files = set_file w.files w.seg_idx (some (content w.files w.seg_idx)) })

unfoldable pub open_seg : Writer → Attempt
open_seg w = let (o, os) = next_outcome w.outcomes in open_outcome o (record w { outcomes = os })

abbrev pub with_no_boundary : Attempt → Attempt
with_no_boundary (succeeded w) = succeeded (record w { seal_boundary = none })
with_no_boundary (erred w) = erred w

-- The open segment is closed and sealed at the boundary.
abbrev pub rotate : ℕ → Writer → Writer
rotate b w = record w {
  is_open = false;
  sealed = w.sealed ++ record { idx = w.seg_idx; boundary = b } ∷ [];
  seg_idx = suc w.seg_idx;
  events = w.events ++ on_seal w.seg_idx ∷ [];
}

-- The rotation to the next segment.
unfoldable pub seal_segment : ℕ → Writer → Attempt
unfolding open_seg
seal_segment b w = with_no_boundary (open_seg (rotate b w))

-- The number of buffered bytes before the boundary.
abbrev pub split_of : ℕ → Writer → ℕ
split_of b w = if ltb w.buf_pos b then min (b - w.buf_pos) (length w.buf) else 0

abbrev pub write_before : ℕ → Writer → Attempt
write_before b w = if ltb 0 (split_of b w) then write_split (split_of b w) w else succeeded w

abbrev pub seal_if_reached : ℕ → Writer → Attempt
seal_if_reached b w = if leb b w.buf_pos then seal_segment b w else succeeded w

-- How `drainLocked` ends; `out_of_rounds` stands for a loop that goes on.
pub data Drained : Type 0 where
  drained : Writer → Drained
  failed : Writer → Drained
  out_of_rounds : Drained

-- The whole buffer goes to the open file.
abbrev pub write_rest : Attempt → Drained
write_rest (succeeded w) = drained w
write_rest (erred w) = failed w

-- The end of a round with a boundary.
abbrev pub finish_round : (Writer → Drained) → Attempt → Drained
finish_round continue (erred w) = failed w
finish_round continue (succeeded w) = if length w.buf == 0 then drained w else continue w

abbrev pub then_seal : ℕ → Attempt → Attempt
then_seal b (erred w) = erred w
then_seal b (succeeded w) = seal_if_reached b w

-- A round of the loop.
abbrev pub drain_round : (Writer → Drained) → Option ℕ → Writer → Drained
drain_round continue (some b) w = finish_round continue (then_seal b (write_before b w))
drain_round continue none w =
    if length w.buf == 0 then drained w else write_rest (write_split (length w.buf) w)

unfoldable pub drain_locked : ℕ → Writer → Drained
unfolding write_split seal_segment
drain_locked zero w = out_of_rounds
drain_locked (suc rounds) w = drain_round (λ w'. drain_locked rounds w') w.seal_boundary w

-- The loop of `drainLocked` takes at most two rounds.
abbrev pub drain : Writer → Drained
drain w = drain_locked 2 w

-- The writer after a drain whose error is only logged.
abbrev pub after_drain : Writer → Writer
after_drain w = elim (drain w) [ drained w' ↦ w' | failed w' ↦ w' | out_of_rounds ↦ w ]

-- The record that `Sink` writes for an entry.
abbrev pub sink_record : CfKey → Bytes
sink_record e =
    let n = 1 + length e.key in
    (n / 2 ^ 24 % 256)
    ∷ (n / 2 ^ 16 % 256)
    ∷ (n / 2 ^ 8 % 256)
    ∷ (n % 256)
    ∷ e.cf
    ∷ (e.key ++ 0 ∷ 0 ∷ 0 ∷ 1 ∷ 0 ∷ [])

abbrev pub sink_records : List CfKey → Bytes
sink_records [] = []
sink_records (e ∷ es) = sink_record e ++ sink_records es

abbrev pub push_records : Bytes → Writer → Writer
push_records bs w = record w {
  buf = w.buf ++ bs;
  logical_end = w.logical_end + length bs;
  events = if ltb 0 (length bs) then w.events ++ on_wal bs ∷ [] else w.events;
}

unfoldable pub sink : List CfKey → Writer → Writer
unfolding drain_locked
sink es w = if w.stopped then w else after_drain (push_records (sink_records es) w)

unfoldable pub seal : Writer → ℕ × Writer
seal w = (w.logical_end, record w { seal_boundary = some w.logical_end })

unfoldable pub stop : Writer → Writer
unfolding drain_locked
stop w =
    if w.stopped then w else record (after_drain (record w { stopped = true })) { is_open = false }

unfoldable pub open_tail : Writer → Bytes
open_tail w = w.buf
