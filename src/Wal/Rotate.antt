-- ===== src/Wal/Rotate.antt =====
-- The rotation of the log to the next segment (wal.go, `drainLocked` and `openSeg`).
use eavt_sql.Prelude.{
  ℕ, zero, suc, ◌+◌, ◌≤◌, ◌≡◌, refl, ap, sym, subst, ◌∙◌, true, none, some, List, [], ◌∷◌, ◌++◌,
  length, arith, append_assoc, append-nil, length-append, drop_of_short,
}
use eavt_sql.Bytes.Order.{Bytes}
use eavt_sql.Wal.{
  FileOutcome, done, fails, SealedSeg, Writer, content, set_file, open_outcome, open_seg,
  seal_segment, next_outcome, rotate, with_no_boundary,
}
use eavt_sql.Wal.Log.{
  sealed_bytes, HasRoom, IsLog, Holds, IsLog-control, IsChain-snoc, sealed_bytes-snoc,
}
use eavt_sql.Wal.Write.{Keeps, IsLog-spoilt, spoilt}

-- A log whose live segment is empty and not open.
module _ (stream removed : Bytes) (w : Writer) (l : IsLog stream removed [] [] w) where
  module _ (os : List FileOutcome) where
    abbrev made : Writer
    made = spoilt stream removed [] [] w l [] os l.room

    abbrev opened : Writer
    opened = record made { is_open = true; offset = 0; seal_boundary = none }

    IsLog-made : IsLog stream removed [] [] made
    IsLog-made = IsLog-spoilt stream removed [] [] w l [] os l.room

    IsLog-opened : IsLog stream removed [] [] opened
    IsLog-opened =
        IsLog-control stream removed [] [] made IsLog-made true 0 none w.stopped os
          (omega (arith, l.ending)) (λ h. refl)

    IsLog-outcomes : IsLog stream removed [] [] (record w { outcomes = os })
    IsLog-outcomes =
        IsLog-control stream removed [] [] w l w.is_open w.offset w.seal_boundary w.stopped os
          l.room l.handle

    pub Keeps-open_outcome :
        (o : FileOutcome)
        → Keeps stream removed (with_no_boundary (open_outcome o (record w { outcomes = os })))
    Keeps-open_outcome done =
        subst
          (λ z.
            Holds stream removed
              (record opened { files = set_file w.files w.seg_idx (some z); offset = length z }))
          (sym l.live_file) ([], [], IsLog-opened)
    Keeps-open_outcome (fails zero) = ([], [], IsLog-outcomes)
    Keeps-open_outcome (fails (suc n)) =
        subst
          (λ z. Holds stream removed (record made { files = set_file w.files w.seg_idx (some z) }))
          (sym l.live_file) ([], [], IsLog-made)

  Keeps-open_seg : Keeps stream removed (with_no_boundary (open_seg w))
  unfolding open_seg
  Keeps-open_seg = let (o, os) = next_outcome w.outcomes in Keeps-open_outcome os o

module _ (stream removed live stray : Bytes) (w : Writer)
    (l : IsLog stream removed live stray w) where
  -- The boundary is reached.
  module _ (b : ℕ) (e : w.seal_boundary ≡ some b) (reached : b ≤ w.buf_pos) where
    abbrev seg : SealedSeg
    seg = record { idx = w.seg_idx; boundary = b }

    abbrev rotated : Writer
    rotated = rotate b w

    room_at : (w.buf_pos + length stray ≤ b) × (b ≤ w.logical_end)
    room_at = subst (λ z. HasRoom z (length stray) w.buf_pos w.logical_end) e l.room

    all_live : content w.files w.seg_idx ≡ live
    all_live =
        l.live_file
        ∙ ap (λ z. live ++ z) (drop_of_short 0 stray (omega (arith, reached, room_at.0)))
        ∙ append-nil live

    all_sealed : sealed_bytes w.files (w.sealed ++ seg ∷ []) ≡ sealed_bytes w.files w.sealed ++ live
    all_sealed =
        sealed_bytes-snoc w.files seg w.sealed
        ∙ ap (λ z. sealed_bytes w.files w.sealed ++ z) all_live

    IsLog-rotated : IsLog stream removed [] [] rotated
    IsLog-rotated = record {
      chain =
          IsChain-snoc w.files (length removed) 0 w.seg_idx b w.sealed l.chain
            (omega (arith, l.position, ap length all_live, reached, room_at.0));
      whole =
          l.whole
          ∙ ap (λ z. removed ++ z)
              (sym (append_assoc (sealed_bytes w.files w.sealed) live w.buf)
                ∙ ap (λ z. z ++ w.buf) (sym all_sealed));
      live_file =
          ap (λ z. elim z [ some bs ↦ bs | none ↦ [] ]) (l.fresh (suc w.seg_idx) (omega arith));
      position = omega (
        arith,
        l.position,
        ap length all_sealed,
        length-append (sealed_bytes w.files w.sealed) live,
      );
      ending = l.ending;
      room =
          subst (λ z. HasRoom z 0 w.buf_pos w.logical_end) (sym e)
            (omega (arith, room_at.0), room_at.1);
      handle = λ h. ground (arith, h);
      fresh = λ i h. l.fresh i (omega (arith, h));
    }

    pub Keeps-seal_segment : Keeps stream removed (seal_segment b w)
    unfolding seal_segment
    Keeps-seal_segment = Keeps-open_seg stream removed rotated IsLog-rotated
