-- ===== src/Wal/Recovery.antt =====
-- What the parser of the store reads from the segment files of the log (wal.go, kvstore.go).
use eavt_sql.Prelude.{
  ℕ, suc, ◌-◌, ◌≤◌, ◌≡◌, refl, ap, sym, subst, ◌∙◌, true, none, List, [], ◌∷◌, ◌++◌, length, take,
  drop, arith, All, All-split, append_assoc, append-nil, take-append-drop, if◌then◌else◌, leb,
}
use eavt_sql.Bytes.Order.{Bytes}
use eavt_sql.Memtable.Ladder.{CfKey}
use eavt_sql.Kvstore.Journal.{parse_journal_records, journal_record}
use eavt_sql.Kvstore.Journal.RoundTrip.{
  Write, write_records, IsParsable, index_keys, parse_journal_records-write_records,
}
use eavt_sql.Kvstore.Replay.{parse_files}
use eavt_sql.Wal.{
  SealedSeg, Files, Writer, drained, failed, out_of_rounds, drain, after_drain, content,
  sink_record, sink_records,
}
use eavt_sql.Wal.Log.{IsChain, Holds, sealed_bytes}
use eavt_sql.Wal.Delete.{Boundaries}
use eavt_sql.Wal.Marks.{Marks, Marks-after_drain, weaken}
use eavt_sql.Wal.Steps.{after_drain-Holds}
use eavt_sql.Wal.Cuts.{IsCut, IsCut-drop, split_stream}
use eavt_sql.Wal.Reachable.{IsReachable, IsReachable-Kept}
use eavt_sql.Wal.Durable.{drain-file_bytes, file_bytes}

-- The entries as the journal has them: keys without a value.
abbrev pub key_only : List CfKey → List Write
key_only [] = []
key_only (e ∷ es) = (e, none) ∷ key_only es

-- The entries of the four indexes.
abbrev pub indexed : List CfKey → List CfKey
indexed es = index_keys (key_only es)

abbrev pub AreParsable : List CfKey → Type 0
AreParsable es = All (λ e. IsParsable (e, none)) es

sink_records-write_records : (es : List CfKey) → sink_records es ≡ write_records (key_only es)
unfolding journal_record
sink_records-write_records [] = refl
sink_records-write_records (e ∷ es) = ap (λ z. sink_record e ++ z) (sink_records-write_records es)

All-key_only : (es : List CfKey) → AreParsable es → All IsParsable (key_only es)
All-key_only [] h = tt
All-key_only (e ∷ es) h = (h.0, All-key_only es h.1)

-- The records of the log's sink are parsed as the entries of the four indexes.
pub parse_journal_records-sink_records :
    (es : List CfKey) → AreParsable es → parse_journal_records (sink_records es) ≡ indexed es
parse_journal_records-sink_records es h =
    let written = sink_records-write_records es ∙ sym (append-nil (write_records (key_only es))) in
    ap parse_journal_records written
    ∙ parse_journal_records-write_records (key_only es) [] (All-key_only es h) (omega arith)

indexed-append : (es more : List CfKey) → indexed (es ++ more) ≡ indexed es ++ indexed more
indexed-append [] more = refl
indexed-append (e ∷ es) more =
    let first = if leb e.cf 3 then e ∷ [] else [] in
    ap (λ z. first ++ z) (indexed-append es more)
    ∙ sym (append_assoc first (indexed es) (indexed more))

abbrev pub segment_files : Files → List SealedSeg → List Bytes
segment_files fs [] = []
segment_files fs (s ∷ ss) = content fs s.idx ∷ segment_files fs ss

-- The sealed segments, then the live one.
abbrev pub all_files : Writer → List Bytes
all_files w = segment_files w.files w.sealed ++ content w.files w.seg_idx ∷ []

module _ (fs : Files) where
  -- Cuts behind a position are cuts of the entries that follow it.
  module _ (from at : ℕ) (es : List CfKey) (m : ℕ) (le : from ≤ at)
      (e : at - from ≡ length (sink_records (take m es))) where
    cuts_behind :
        (start lo hi : ℕ) (ss : List SealedSeg)
        → at ≤ start
        → IsChain fs start lo hi ss
        → Boundaries (λ b. IsCut es (b - from)) ss
        → Boundaries (λ b. IsCut (drop m es) (b - at)) ss
    cuts_behind start lo hi [] k c h = tt
    cuts_behind start lo hi (s ∷ ss) k c h =
        let same : s.boundary - from - (at - from) ≡ s.boundary - at = omega (arith, le) in
        (
          subst (IsCut (drop m es)) same
              (IsCut-drop es m (at - from) (s.boundary - from) e (omega (arith, k, c.1, le)) h.0),
          cuts_behind s.boundary (suc s.idx) hi ss (omega (arith, k, c.1)) c.2 h.1,
        )

  parse_segments :
      (start lo hi : ℕ) (ss : List SealedSeg) (tail : Bytes) (es : List CfKey)
      → IsChain fs start lo hi ss
      → Boundaries (λ b. IsCut es (b - start)) ss
      → AreParsable es
      → sink_records es ≡ sealed_bytes fs ss ++ tail
      → parse_files (segment_files fs ss ++ tail ∷ []) ≡ indexed es
  parse_segments start lo hi [] tail es c cuts ok e =
      append-nil (parse_journal_records tail)
      ∙ ap parse_journal_records (sym e)
      ∙ parse_journal_records-sink_records es ok
  parse_segments start lo hi (s ∷ ss) tail es c cuts ok e =
      let (n, at) = cuts.0 in
      let file = content fs s.idx in
      let (xs, ys) =
        split_stream es n file (sealed_bytes fs ss ++ tail)
          (e ∙ append_assoc file (sealed_bytes fs ss) tail) (omega (arith, at, c.1)) in
      let (front, back) =
        All-split (λ e. IsParsable (e, none)) (take n es) (drop n es)
          (subst AreParsable (sym (take-append-drop n es)) ok) in
      let later =
        parse_segments s.boundary (suc s.idx) hi ss tail (drop n es) c.2
          (cuts_behind start s.boundary es n (omega (arith, c.1)) (at ∙ refl) s.boundary (suc s.idx)
            hi ss (omega arith) c.2 cuts.1)
          back (sym ys) in
      ap (λ z. parse_journal_records z ++ parse_files (segment_files fs ss ++ tail ∷ [])) xs
      ∙ ap (λ z. z ++ parse_files (segment_files fs ss ++ tail ∷ []))
          (parse_journal_records-sink_records (take n es) front)
      ∙ ap (λ z. indexed (take n es) ++ z) later
      ∙ sym (indexed-append (take n es) (drop n es))
      ∙ ap indexed (take-append-drop n es)

-- After any steps of the log from an attach that listed all files of its directory, with entries of
-- families up to 63 and keys shorter than 65536 bytes, when its file is open and no operation of
-- the file system fails, a drain succeeds, and then the parser reads from the sealed segments and
-- the live one exactly the entries of the four indexes that were written, in order, but for the
-- first ones whose records lie before the durable position.
pub drain-parse_files :
    (es : List CfKey) (durable : ℕ) (w : Writer)
    → IsReachable es durable w
    → AreParsable es
    → w.is_open ≡ true
    → w.outcomes ≡ []
    → (w' : Writer) × (n : ℕ) × (drain w ≡ drained w')
      × (length (sink_records (take n es)) ≤ durable)
      × (parse_files (all_files w') ≡ indexed (drop n es))
drain-parse_files es durable w r ok opened fine =
    let (removed, before, cut, marks, h) = IsReachable-Kept es durable w r in
    let (w', ended, stream) = drain-file_bytes (sink_records es) removed w h opened fine in
    let same : after_drain w ≡ w' =
      ap (λ d. elim d [ drained w' ↦ w' | failed w' ↦ w' | out_of_rounds ↦ w ]) ended in
    let (live, stray, l) =
      subst (Holds (sink_records es) removed) same
        (after_drain-Holds (sink_records es) removed w h) in
    let marks' = subst (Marks (IsCut es)) same (Marks-after_drain (IsCut es) w marks) in
    let (n, at) = cut in
    let (front, back) = split_stream es n removed (file_bytes w') stream at in
    let shifted =
      weaken (IsCut es) (λ b. IsCut es (b - 0)) (λ b c. (c.0, omega (arith, c.1))) w'.sealed
        marks'.0 in
    let cuts =
      cuts_behind w'.files 0 (length removed) es n (omega arith) (omega (arith, at))
        (length removed) 0 w'.seg_idx w'.sealed (omega arith) l.chain shifted in
    let kept =
      All-split (λ e. IsParsable (e, none)) (take n es) (drop n es)
        (subst AreParsable (sym (take-append-drop n es)) ok) in
    (
      w',
      n,
      ended,
      subst (λ z. length z ≤ durable) front before,
      parse_segments w'.files (length removed) 0 w'.seg_idx w'.sealed (content w'.files w'.seg_idx)
          (drop n es) l.chain cuts kept.1 (sym back),
    )
