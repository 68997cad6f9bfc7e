-- ===== src/Wal/Stuck.antt =====
-- A rotation that fails and a boundary that is set before the next drain (wal.go, `Seal` and
-- `drainLocked`).
use eavt_sql.Prelude.{
  ℕ, ◌<◌, ◌≡◌, refl, ap, sym, subst, ◌∙◌, true, false, some, List, ltb, if◌then◌else◌, length,
  arith, length-append,
}
use eavt_sql.Bytes.Order.{Bytes}
use eavt_sql.Memtable.Ladder.{CfKey}
use eavt_sql.Wal.{
  Writer, succeeded, erred, drained, failed, out_of_rounds, next_outcome, split_of, write_split,
  write_outcome, write_before, then_seal, finish_round, drain_round, drain_locked, drain,
  after_drain, sink, sink_records, push_records, seal,
}

-- No file is open, and buffered bytes stand before a boundary that is not reached.
pub record IsStuck (w : Writer) : Type 0 where
  pub boundary : ℕ
  pub is_set : w.seal_boundary ≡ some boundary
  pub closed : w.is_open ≡ false
  pub ahead : w.buf_pos < boundary
  pub some_bytes : 0 < length w.buf
  pub end_ahead : w.buf_pos < w.logical_end

closed_write : (k : ℕ) (w : Writer) → w.is_open ≡ false → write_split k w ≡ erred w
unfolding write_split
closed_write k w e =
    let (o, os) = next_outcome w.outcomes in
    ap (λ z. if z then write_outcome k o (record w { outcomes = os }) else erred w) e

drain-failed : (w : Writer) → IsStuck w → drain w ≡ failed w
unfolding drain_locked
drain-failed w s =
    let b = s.boundary in
    let k = split_of b w in
    let again = λ (w' : Writer). drain_locked 1 w' in
    let some_split : ltb 0 k ≡ true = ground (arith, s.ahead, s.some_bytes) in
    let before : write_before b w ≡ erred w =
      ap (λ z. if z then write_split k w else succeeded w) some_split ∙ closed_write k w s.closed in
    ap (λ o. drain_round again o w) s.is_set ∙ ap (λ a. finish_round again (then_seal b a)) before

after_drain-same : (w : Writer) → IsStuck w → after_drain w ≡ w
after_drain-same w s =
    ap (λ d. elim d [ drained w' ↦ w' | failed w' ↦ w' | out_of_rounds ↦ w ]) (drain-failed w s)

push_records-IsStuck : (bs : Bytes) (w : Writer) → IsStuck w → IsStuck (push_records bs w)
push_records-IsStuck bs w s = record {
  boundary = s.boundary;
  is_set = s.is_set;
  closed = s.closed;
  ahead = s.ahead;
  some_bytes = omega (arith, s.some_bytes, length-append w.buf bs);
  end_ahead = omega (arith, s.end_ahead);
}

seal-IsStuck : (w : Writer) → IsStuck w → IsStuck (seal w).1
unfolding seal
seal-IsStuck w s = record {
  boundary = w.logical_end;
  is_set = refl;
  closed = s.closed;
  ahead = s.end_ahead;
  some_bytes = s.some_bytes;
  end_ahead = s.end_ahead;
}

-- From a stuck state a drain fails and changes nothing; a batch of records reaches no file, and the
-- state is stuck again after it and after a new boundary.
pub drain-IsStuck :
    (w : Writer) (es : List CfKey)
    → IsStuck w
    → (drain w ≡ failed w)
      × ((sink es w).files ≡ w.files)
      × IsStuck (sink es w)
      × IsStuck (seal w).1
unfolding sink
drain-IsStuck w es s =
    let pushed = push_records (sink_records es) w in
    let same = after_drain-same pushed (push_records-IsStuck (sink_records es) w s) in
    let goal = λ (w' : Writer). (w'.files ≡ w.files) × IsStuck w' in
    let after : goal (sink es w) =
      elim w.stopped as (λ z. goal (if z then w else after_drain pushed)) [
        | true ↦ (refl, s)
        | false ↦ subst goal (sym same) (refl, push_records-IsStuck (sink_records es) w s)
      ] in
    (drain-failed w s, after.0, after.1, seal-IsStuck w s)
