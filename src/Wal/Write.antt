-- ===== src/Wal/Write.antt =====
-- A write to the open segment, and the opening of the next one, keep the log (wal.go).
use eavt_sql.Prelude.{
  ℕ, ◌+◌, ◌≤◌, ◌≡◌, inl, inr, ap, sym, subst, ◌∙◌, Option, none, some, List, [], ◌++◌,
  if◌then◌else◌, length, take, drop, arith, append_assoc, append-nil, length-append, length-take,
  length-drop, drop_of_short, take-append-drop, Bool-cases,
}
use eavt_sql.Bytes.Order.{Bytes}
use eavt_sql.Wal.{
  FileOutcome, done, fails, Writer, Attempt, succeeded, erred, content, set_file, write_at,
  write_outcome, write_split, next_outcome,
}
use eavt_sql.Wal.Log.{
  HasRoom, IsLog, Holds, content-set_file, set_file-other, IsChain-set_file, sealed_bytes-set_file,
  write_at-append,
}

-- Either way the log is kept.
abbrev pub Keeps : Bytes → Bytes → Attempt → Type 0
Keeps stream removed (succeeded w) = Holds stream removed w
Keeps stream removed (erred w) = Holds stream removed w

HasRoom-shift : (k at end : ℕ) (b : Option ℕ) → HasRoom b k at end → HasRoom b 0 (at + k) end
HasRoom-shift k at end none r = omega (arith, r)
HasRoom-shift k at end (some b) r = (omega (arith, r.0), r.1)

pub HasRoom-less : (k n at end : ℕ) (b : Option ℕ) → n ≤ k → HasRoom b k at end → HasRoom b n at end
HasRoom-less k n at end none h r = omega (arith, h, r)
HasRoom-less k n at end (some b) h r = (omega (arith, h, r.0), r.1)

-- The open file gets other bytes, which begin with the live ones.
module _ (stream removed live stray : Bytes) (w : Writer)
    (l : IsLog stream removed live stray w) where
  -- The stray bytes that a failed write leaves.
  module _ (stray' : Bytes) (os : List FileOutcome)
      (r : HasRoom w.seal_boundary (length stray') w.buf_pos w.logical_end) where
    abbrev pub spoilt : Writer
    spoilt = record w { files = set_file w.files w.seg_idx (some (live ++ stray')); outcomes = os }

    pub IsLog-spoilt : IsLog stream removed live stray' spoilt
    IsLog-spoilt =
        let same =
          sealed_bytes-set_file w.files w.seg_idx (some (live ++ stray')) (length removed) 0
            w.seg_idx w.sealed (inr (omega arith)) l.chain in
        record {
          chain =
              IsChain-set_file w.files w.seg_idx (some (live ++ stray')) (length removed) 0
                w.seg_idx w.sealed (inr (omega arith)) l.chain;
          whole = subst (λ z. stream ≡ removed ++ (z ++ (live ++ w.buf))) (sym same) l.whole;
          live_file = content-set_file w.files w.seg_idx (live ++ stray');
          position =
              subst (λ z. w.buf_pos ≡ length removed + length z + length live) (sym same)
                l.position;
          ending = l.ending;
          room = r;
          handle = l.handle;
          fresh = λ i h.
              set_file-other w.files w.seg_idx i (some (live ++ stray')) (omega (arith, h))
              ∙ l.fresh i h;
        }

  module _ (k : ℕ) (os : List FileOutcome) (fits : k ≤ length w.buf)
      (r : HasRoom w.seal_boundary k w.buf_pos w.logical_end) where
    abbrev written : Writer
    written = record w {
      files = set_file w.files w.seg_idx (some (live ++ take k w.buf));
      offset = w.offset + k;
      buf = drop k w.buf;
      buf_pos = w.buf_pos + k;
      outcomes = os;
    }

    IsLog-written : IsLog stream removed (live ++ take k w.buf) [] written
    IsLog-written =
        let file = some (live ++ take k w.buf) in
        let same =
          sealed_bytes-set_file w.files w.seg_idx file (length removed) 0 w.seg_idx w.sealed
            (inr (omega arith)) l.chain in
        let taken = length-append live (take k w.buf) in
        let count = length-take k w.buf in
        let left = length-drop k w.buf in
        let moved : live ++ w.buf ≡ (live ++ take k w.buf) ++ drop k w.buf =
          ap (λ z. live ++ z) (sym (take-append-drop k w.buf))
          ∙ sym (append_assoc live (take k w.buf) (drop k w.buf)) in
        record {
          chain =
              IsChain-set_file w.files w.seg_idx file (length removed) 0 w.seg_idx w.sealed
                (inr (omega arith)) l.chain;
          whole = rw (same, sym moved) l.whole;
          live_file =
              content-set_file w.files w.seg_idx (live ++ take k w.buf)
              ∙ sym (append-nil (live ++ take k w.buf));
          position = rw same (omega (arith, l.position, taken, count, fits));
          ending = omega (arith, l.ending, left, fits);
          room = HasRoom-shift k w.buf_pos w.logical_end w.seal_boundary r;
          handle = λ h. omega (arith, l.handle h, taken, count, fits);
          fresh = λ i h. set_file-other w.files w.seg_idx i file (omega (arith, h)) ∙ l.fresh i h;
        }

  -- A write of as many bytes as cover the stray ones.
  module _ (k : ℕ) (cover : length stray ≤ k) (fits : k ≤ length w.buf)
      (r : HasRoom w.seal_boundary k w.buf_pos w.logical_end) where
    file_after :
        (bs : Bytes)
        → w.offset ≡ length live
        → write_at w.offset bs (content w.files w.seg_idx) ≡ live ++ (bs ++ drop (length bs) stray)
    file_after bs e = rw (e, l.live_file) (write_at-append live stray bs)

    Keeps-write_outcome :
        (o : FileOutcome) (os : List FileOutcome)
        → w.offset ≡ length live
        → Keeps stream removed (write_outcome k o (record w { outcomes = os }))
    Keeps-write_outcome done os e =
        let bs = take k w.buf in
        let full : length bs ≡ k = omega (arith, length-take k w.buf, fits) in
        let covered : drop (length bs) stray ≡ [] =
          drop_of_short (length bs) stray (omega (arith, full, cover)) in
        let file : live ++ bs ≡ write_at w.offset bs (content w.files w.seg_idx) =
          ap (λ z. live ++ z) (sym (append-nil bs))
          ∙ ap (λ z. live ++ (bs ++ z)) (sym covered)
          ∙ sym (file_after bs e) in
        subst
          (λ z.
            Holds stream removed
              (record (written k os fits r) { files = set_file w.files w.seg_idx (some z) }))
          file (live ++ bs, [], IsLog-written k os fits r)
    Keeps-write_outcome (fails n) os e =
        let bs = take n (take k w.buf) in
        let stray' = bs ++ drop (length bs) stray in
        let few : length stray' ≤ k = omega (
          arith,
          length-append bs (drop (length bs) stray),
          length-drop (length bs) stray,
          length-take n (take k w.buf),
          length-take k w.buf,
          cover,
        ) in
        let room = HasRoom-less k (length stray') w.buf_pos w.logical_end w.seal_boundary few r in
        subst
          (λ z.
            Holds stream removed
              (record (spoilt stray' os room) { files = set_file w.files w.seg_idx (some z) }))
          (sym (file_after bs e)) (live, stray', IsLog-spoilt stray' os room)

    pub Keeps-write_split : Keeps stream removed (write_split k w)
    unfolding write_split
    Keeps-write_split =
        let (o, os) = next_outcome w.outcomes in
        elim (Bool-cases w.is_open) [
          | inl e ↦
              subst
                (λ b.
                  Keeps stream removed
                    (if b then write_outcome k o (record w { outcomes = os }) else erred w))
                (sym e) (Keeps-write_outcome o os (l.handle e))
          | inr e ↦
              subst
                (λ b.
                  Keeps stream removed
                    (if b then write_outcome k o (record w { outcomes = os }) else erred w))
                (sym e) (live, stray, l)
        ]
