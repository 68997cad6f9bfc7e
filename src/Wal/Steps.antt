-- ===== src/Wal/Steps.antt =====
-- The operations of the log as steps, and the states that they reach (wal.go).
use eavt_sql.Prelude.{
  ℕ, ◌+◌, ◌≡◌, refl, ap, sym, subst, ◌∙◌, true, false, Option, none, some, List, ◌++◌,
  if◌then◌else◌, length, arith, length-append, append_assoc,
}
use eavt_sql.Bytes.Order.{Bytes}
use eavt_sql.Memtable.Ladder.{CfKey}
use eavt_sql.Wal.{
  Writer, Drained, drained, failed, out_of_rounds, drain, after_drain, push_records, sink_records,
  sink, seal, stop,
}
use eavt_sql.Wal.Log.{HasRoom, Holds, IsLog-control, room_end, sealed_bytes}
use eavt_sql.Wal.Drain.{KeepsDrained, KeepsDrained-drain_locked}

module _ (stream removed : Bytes) where
  pub after_drain-Holds :
      (w : Writer) → Holds stream removed w → Holds stream removed (after_drain w)
  after_drain-Holds w h = of_drained (drain w) (KeepsDrained-drain_locked stream removed 2 w h)
    where
      of_drained :
          (d : Drained)
          → KeepsDrained stream removed d
          → Holds stream removed (elim d [ drained w' ↦ w' | failed w' ↦ w' | out_of_rounds ↦ w ])
      of_drained (drained w') k = k
      of_drained (failed w') k = k
      of_drained out_of_rounds k = h

  pub stream_end : (w : Writer) → Holds stream removed w → length stream ≡ w.logical_end
  stream_end w (live, stray, l) =
      let kept = sealed_bytes w.files w.sealed in
      omega (
        arith,
        ap length l.whole,
        length-append removed (kept ++ (live ++ w.buf)),
        length-append kept (live ++ w.buf),
        length-append live w.buf,
        l.position,
        l.ending,
      )

  HasRoom-grow :
      (b : Option ℕ) (n at end more : ℕ) → HasRoom b n at end → HasRoom b n at (end + more)
  HasRoom-grow none n at end more r = omega (arith, r)
  HasRoom-grow (some b) n at end more r = (r.0, omega (arith, r.1))

  push_records-Holds :
      (bs : Bytes) (w : Writer)
      → Holds stream removed w
      → Holds (stream ++ bs) removed (push_records bs w)
  push_records-Holds bs w (live, stray, l) = (
    live,
    stray,
    record {
      chain = l.chain;
      whole =
          ap (λ z. z ++ bs) l.whole
          ∙ rw
              (
                append_assoc removed (sealed_bytes w.files w.sealed ++ (live ++ w.buf)) bs,
                append_assoc (sealed_bytes w.files w.sealed) (live ++ w.buf) bs,
                append_assoc live w.buf bs,
              )
              refl;
      live_file = l.live_file;
      position = l.position;
      ending = omega (arith, l.ending, length-append w.buf bs);
      room = HasRoom-grow w.seal_boundary (length stray) w.buf_pos w.logical_end (length bs) l.room;
      handle = l.handle;
      fresh = l.fresh;
    },
  )

  -- Closing the file and setting a boundary at the end change nothing that the log holds.
  module _ (w : Writer) (h : Holds stream removed w) where
    pub seal-Holds : Holds stream removed (seal w).1
    unfolding seal
    seal-Holds =
        let (live, stray, l) = h in
        (
          live,
          stray,
          IsLog-control stream removed live stray w l w.is_open w.offset (some w.logical_end)
              w.stopped w.outcomes (room_end stream removed live stray w l, omega arith) l.handle,
        )

    stopped-Holds : Holds stream removed (record w { stopped = true })
    stopped-Holds =
        let (live, stray, l) = h in
        (
          live,
          stray,
          IsLog-control stream removed live stray w l w.is_open w.offset w.seal_boundary true
              w.outcomes l.room l.handle,
        )

    closed-Holds : Holds stream removed (record w { is_open = false })
    closed-Holds =
        let (live, stray, l) = h in
        (
          live,
          stray,
          IsLog-control stream removed live stray w l false w.offset w.seal_boundary w.stopped
              w.outcomes l.room (λ e. ground (arith, e)),
        )

  pub stop-Holds : (w : Writer) → Holds stream removed w → Holds stream removed (stop w)
  unfolding stop
  stop-Holds w h =
      elim w.stopped
        as (λ z. Holds stream removed (
          if z
          then w
          else record (after_drain (record w { stopped = true })) { is_open = false })) [
            | true ↦ h
            | false ↦
                let w' = record w { stopped = true } in
                closed-Holds (after_drain w') (after_drain-Holds w' (stopped-Holds w h))
          ]

-- A batch of entries goes to the end of the stream, unless the log is stopped.
pub sink-Holds :
    (stream removed : Bytes) (es : List CfKey) (w : Writer)
    → w.stopped ≡ false
    → Holds stream removed w
    → Holds (stream ++ sink_records es) removed (sink es w)
unfolding sink
sink-Holds stream removed es w e h =
    subst
      (λ z.
        Holds (stream ++ sink_records es) removed
          (if z then w else after_drain (push_records (sink_records es) w)))
      (sym e)
      (after_drain-Holds (stream ++ sink_records es) removed (push_records (sink_records es) w)
        (push_records-Holds stream removed (sink_records es) w h))
