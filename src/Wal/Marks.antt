-- ===== src/Wal/Marks.antt =====
-- Which positions become boundaries of segments (wal.go): only those that `Seal` has set.
use eavt_sql.Prelude.{
  ℕ, zero, suc, ◌≡◌, refl, sym, subst, true, false, Option, none, some, List, [], ◌∷◌, ◌++◌, ltb,
  leb, ◌==◌, if◌then◌else◌, length,
}
use eavt_sql.Wal.{
  FileOutcome, done, fails, Writer, Attempt, succeeded, erred, Drained, drained, failed,
  out_of_rounds, SealedSeg, next_outcome, open_outcome, open_seg, rotate, seal_segment, split_of,
  write_split, write_outcome, write_before, then_seal, with_no_boundary, write_rest, finish_round,
  drain_round, drain_locked, drain, after_drain, sink, sink_records, push_records, stop, set_file,
}
use eavt_sql.Bytes.Order.{Bytes}
use eavt_sql.Memtable.Ladder.{CfKey}
use eavt_sql.Wal.Segments.{remove_outcome, delete_sealed, delete_durable, remove_file}
use eavt_sql.Wal.Delete.{Boundaries}

-- A property of all boundaries.
module _ (P : ℕ → Type 0) where
  abbrev Mark : Option ℕ → Type 0
  Mark none = Unit
  Mark (some b) = P b

  abbrev pub Marks : Writer → Type 0
  Marks w = Boundaries P w.sealed × Mark w.seal_boundary

  abbrev MarksAttempt : Attempt → Type 0
  MarksAttempt (succeeded w) = Marks w
  MarksAttempt (erred w) = Marks w

  abbrev MarksDrained : Drained → Type 0
  MarksDrained (drained w) = Marks w
  MarksDrained (failed w) = Marks w
  MarksDrained out_of_rounds = Unit

  Boundaries-snoc :
      (ss : List SealedSeg) (s : SealedSeg)
      → Boundaries P ss
      → P s.boundary
      → Boundaries P (ss ++ s ∷ [])
  Boundaries-snoc [] s h p = (p, tt)
  Boundaries-snoc (t ∷ ss) s h p = (h.0, Boundaries-snoc ss s h.1 p)

  Marks-write_split : (k : ℕ) (w : Writer) → Marks w → MarksAttempt (write_split k w)
  unfolding write_split
  Marks-write_split k w m =
      let (o, os) = next_outcome w.outcomes in
      let by_outcome = λ (o : FileOutcome).
        elim o as (λ o. MarksAttempt (write_outcome k o (record w { outcomes = os }))) [
          | done ↦ m
          | fails n ↦ m
        ] in
      elim w.is_open
        as (λ z.
          MarksAttempt (if z then write_outcome k o (record w { outcomes = os }) else erred w)) [
            | true ↦ by_outcome o
            | false ↦ m
          ]

  Marks-write_before : (b : ℕ) (w : Writer) → Marks w → MarksAttempt (write_before b w)
  Marks-write_before b w m =
      elim (ltb 0 (split_of b w))
        as (λ z. MarksAttempt (if z then write_split (split_of b w) w else succeeded w)) [
          | true ↦ Marks-write_split (split_of b w) w m
          | false ↦ m
        ]

  Marks-open_seg : (w : Writer) → Marks w → MarksAttempt (with_no_boundary (open_seg w))
  unfolding open_seg
  Marks-open_seg w m =
      let (o, os) = next_outcome w.outcomes in
      elim o
        as (λ o. MarksAttempt (with_no_boundary (open_outcome o (record w { outcomes = os })))) [
          | done ↦ (m.0, tt)
          | fails k ↦
              elim k
                as (λ k.
                  MarksAttempt
                    (with_no_boundary (open_outcome (fails k) (record w { outcomes = os })))) [
                      | zero ↦ m
                      | suc k ↦ m
                    ]
        ]

  Marks-then_seal : (b : ℕ) (a : Attempt) → P b → MarksAttempt a → MarksAttempt (then_seal b a)
  unfolding seal_segment
  Marks-then_seal b (erred w) p m = m
  Marks-then_seal b (succeeded w) p m =
      elim (leb b w.buf_pos) as (λ z. MarksAttempt (if z then seal_segment b w else succeeded w)) [
        | true ↦
            Marks-open_seg (rotate b w)
              (Boundaries-snoc w.sealed (record { idx = w.seg_idx; boundary = b }) m.0 p, m.1)
        | false ↦ m
      ]

  Marks-finish_round :
      (continue : Writer → Drained) (a : Attempt)
      → MarksAttempt a
      → ((w : Writer) → Marks w → MarksDrained (continue w))
      → MarksDrained (finish_round continue a)
  Marks-finish_round continue (erred w) m c = m
  Marks-finish_round continue (succeeded w) m c =
      elim (length w.buf == 0) as (λ z. MarksDrained (if z then drained w else continue w)) [
        | true ↦ m
        | false ↦ c w m
      ]

  Marks-drain_round :
      (continue : Writer → Drained) (o : Option ℕ) (w : Writer)
      → Mark o
      → Marks w
      → ((w : Writer) → Marks w → MarksDrained (continue w))
      → MarksDrained (drain_round continue o w)
  Marks-drain_round continue (some b) w p m c =
      Marks-finish_round continue (then_seal b (write_before b w))
        (Marks-then_seal b (write_before b w) p (Marks-write_before b w m)) c
  Marks-drain_round continue none w p m c =
      elim (length w.buf == 0)
        as (λ z.
          MarksDrained (if z then drained w else write_rest (write_split (length w.buf) w))) [
            | true ↦ m
            | false ↦ written (write_split (length w.buf) w) (Marks-write_split (length w.buf) w m)
          ]
    where
      written : (a : Attempt) → MarksAttempt a → MarksDrained (write_rest a)
      written (succeeded w) m = m
      written (erred w) m = m

  pub Marks-drain_locked :
      (rounds : ℕ) (w : Writer) → Marks w → MarksDrained (drain_locked rounds w)
  unfolding drain_locked
  Marks-drain_locked zero w m = tt
  Marks-drain_locked (suc rounds) w m =
      Marks-drain_round (λ w'. drain_locked rounds w') w.seal_boundary w m.1 m
        (Marks-drain_locked rounds)

  pub Marks-after_drain : (w : Writer) → Marks w → Marks (after_drain w)
  Marks-after_drain w m = of_drained (drain w) (Marks-drain_locked 2 w m)
    where
      of_drained :
          (d : Drained)
          → MarksDrained d
          → Marks (elim d [ drained w' ↦ w' | failed w' ↦ w' | out_of_rounds ↦ w ])
      of_drained (drained w') k = k
      of_drained (failed w') k = k
      of_drained out_of_rounds k = m

  pub Marks-sink : (es : List CfKey) (w : Writer) → Marks w → Marks (sink es w)
  unfolding sink
  Marks-sink es w m =
      elim w.stopped
        as (λ z. Marks (if z then w else after_drain (push_records (sink_records es) w))) [
          | true ↦ m
          | false ↦ Marks-after_drain (push_records (sink_records es) w) m
        ]

  pub Marks-stop : (w : Writer) → Marks w → Marks (stop w)
  unfolding stop
  Marks-stop w m =
      elim w.stopped
        as (λ z. Marks (
          if z
          then w
          else record (after_drain (record w { stopped = true })) { is_open = false })) [
            | true ↦ m
            | false ↦ Marks-after_drain (record w { stopped = true }) m
          ]

  -- A removal leaves the boundary that is set.
  delete_sealed-boundary :
      (durable : ℕ) (ss : List SealedSeg) (w : Writer)
      → (delete_sealed durable ss w).seal_boundary ≡ w.seal_boundary
  unfolding delete_sealed
  delete_sealed-boundary durable [] w = refl
  delete_sealed-boundary durable (s ∷ ss) w =
      let (o, os) = next_outcome w.outcomes in
      let gone = record w { files = set_file w.files s.idx none; outcomes = os } in
      let goal = λ (w' : Writer). w'.seal_boundary ≡ w.seal_boundary in
      let continue = λ (a : Attempt). elim a as (λ a. Writer) [
        | succeeded w' ↦ delete_sealed durable ss w'
        | erred w' ↦ record w' { sealed = s ∷ ss }
      ] in
      let file_gone = λ (c : Option Bytes) (o : FileOutcome).
        goal (continue (remove_outcome s.idx c o (record w { outcomes = os }))) in
      let removed : goal (continue (remove_file s.idx w)) =
        elim (w.files s.idx) as (λ c. file_gone c o) [
          | none ↦ refl
          | some bs ↦ elim o as (λ o. file_gone (some bs) o) [
            | done ↦ delete_sealed-boundary durable ss gone
            | fails n ↦ refl
          ]
        ] in
      elim (leb s.boundary durable)
        as (λ z.
          goal (if z then continue (remove_file s.idx w) else record w { sealed = s ∷ ss })) [
            | true ↦ removed
            | false ↦ refl
          ]

  pub Marks-delete_durable :
      (durable : ℕ) (w : Writer)
      → Boundaries P (delete_durable (some durable) w).sealed
      → Mark w.seal_boundary
      → Marks (delete_durable (some durable) w)
  unfolding delete_durable
  Marks-delete_durable durable w ps p =
      (ps, subst Mark (sym (delete_sealed-boundary durable w.sealed w)) p)

-- A weaker property of all boundaries.
module _ (P Q : ℕ → Type 0) (f : (b : ℕ) → P b → Q b) where
  pub weaken : (ss : List SealedSeg) → Boundaries P ss → Boundaries Q ss
  weaken [] h = tt
  weaken (s ∷ ss) h = (f s.boundary h.0, weaken ss h.1)

  pub Marks-weaken : (w : Writer) → Marks P w → Marks Q w
  Marks-weaken w m = (weaken w.sealed m.0, of_mark w.seal_boundary m.1)
    where
      of_mark : (o : Option ℕ) → Mark P o → Mark Q o
      of_mark none h = tt
      of_mark (some b) h = f b h
