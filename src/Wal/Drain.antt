-- ===== src/Wal/Drain.antt =====
-- The loop of `drainLocked` (wal.go): it ends within two rounds, and it keeps the log.
use eavt_sql.Prelude.{
  ℕ, zero, suc, ◌+◌, ◌-◌, ◌≤◌, ◌≡◌, inl, inr, refl, sym, subst, ◌∙◌, Bool, true, false, Option,
  none, some, ltb, leb, ◌==◌, if◌then◌else◌, length, drop, arith, Bool-cases,
}
use eavt_sql.Bytes.Order.{Bytes}
use eavt_sql.Wal.{
  FileOutcome, done, fails, Writer, Attempt, succeeded, erred, Drained, drained, failed,
  out_of_rounds, drain_locked, split_of, write_split, write_before, write_rest, seal_segment,
  write_outcome, next_outcome, then_seal, finish_round, drain_round,
}
use eavt_sql.Wal.Log.{HasRoom, Holds}
use eavt_sql.Wal.Write.{Keeps, Keeps-write_split}
use eavt_sql.Wal.Rotate.{Keeps-seal_segment}

-- However a drain ends, the log is kept.
abbrev pub KeepsDrained : Bytes → Bytes → Drained → Type 0
KeepsDrained stream removed (drained w) = Holds stream removed w
KeepsDrained stream removed (failed w) = Holds stream removed w
KeepsDrained stream removed out_of_rounds = Unit

-- What holds of the writer after a success.
abbrev pub OnSuccess : (Writer → Type 0) → Attempt → Type 0
OnSuccess P (succeeded w) = P w
OnSuccess P (erred w) = Unit

abbrev pub HasBoundary : ℕ → Writer → Type 0
HasBoundary b w = w.seal_boundary ≡ some b

-- What a successful write does to the buffer and the boundary.
pub OnSuccess-write_split :
    (P : Writer → Type 0) (k : ℕ) (w : Writer)
    → ((w' : Writer)
        → w'.buf ≡ drop k w.buf
        → w'.buf_pos ≡ w.buf_pos + k
        → w'.seal_boundary ≡ w.seal_boundary
        → P w')
    → OnSuccess P (write_split k w)
unfolding write_split
OnSuccess-write_split P k w h =
    let (o, os) = next_outcome w.outcomes in
    let by_outcome = λ (o : FileOutcome).
      elim o as (λ o. OnSuccess P (write_outcome k o (record w { outcomes = os }))) [
        | done ↦ h _ refl refl refl
        | fails n ↦ tt
      ] in
    elim w.is_open
      as (λ z.
        OnSuccess P (if z then write_outcome k o (record w { outcomes = os }) else erred w)) [
          | true ↦ by_outcome o
          | false ↦ tt
        ]

write_before-HasBoundary :
    (b : ℕ) (w : Writer) → HasBoundary b w → OnSuccess (HasBoundary b) (write_before b w)
write_before-HasBoundary b w e =
    elim (ltb 0 (split_of b w))
      as (λ z.
        OnSuccess (HasBoundary b) (if z then write_split (split_of b w) w else succeeded w)) [
          | true ↦
              OnSuccess-write_split (HasBoundary b) (split_of b w) w (λ w' buf at same. same ∙ e)
          | false ↦ e
        ]

module _ (stream removed : Bytes) where
  Keeps-write_before :
      (b : ℕ) (w : Writer)
      → HasBoundary b w
      → Holds stream removed w
      → Keeps stream removed (write_before b w)
  Keeps-write_before b w e h =
      let (live, stray, l) = h in
      let room : (w.buf_pos + length stray ≤ b) × (b ≤ w.logical_end) =
        subst (λ z. HasRoom z (length stray) w.buf_pos w.logical_end) e l.room in
      let k = split_of b w in
      let exact : (1 ≤ k) → k ≡ b - w.buf_pos = ground (arith, room.1, l.ending) in
      let goal = λ (z : Bool). Keeps stream removed (if z then write_split k w else succeeded w) in
      elim (Bool-cases (ltb 0 k)) [
        | inl t ↦
            let some_bytes : 1 ≤ k = ground (arith, t) in
            subst goal (sym t) (
              Keeps-write_split stream removed live stray w l k
                (omega (arith, exact some_bytes, room.0))
                (omega (arith, exact some_bytes, room.0, room.1, l.ending, some_bytes))
                (subst (λ z. HasRoom z k w.buf_pos w.logical_end) (sym e)
                  (omega (arith, exact some_bytes, some_bytes, room.0), room.1)))
        | inr f ↦ subst goal (sym f) h
      ]

  Keeps-write_rest :
      (w : Writer)
      → w.seal_boundary ≡ none
      → Holds stream removed w
      → KeepsDrained stream removed (write_rest (write_split (length w.buf) w))
  Keeps-write_rest w e h =
      let (live, stray, l) = h in
      let k = length w.buf in
      let room : w.buf_pos + length stray ≤ w.logical_end =
        subst (λ z. HasRoom z (length stray) w.buf_pos w.logical_end) e l.room in
      rest_of (write_split k w) (
        Keeps-write_split stream removed live stray w l k (omega (arith, l.ending, room))
          (omega arith)
          (subst (λ z. HasRoom z k w.buf_pos w.logical_end) (sym e) (omega (arith, l.ending))))
    where
      rest_of : (a : Attempt) → Keeps stream removed a → KeepsDrained stream removed (write_rest a)
      rest_of (succeeded w) h = h
      rest_of (erred w) h = h

  Keeps-then_seal :
      (b : ℕ) (a : Attempt)
      → OnSuccess (HasBoundary b) a
      → Keeps stream removed a
      → Keeps stream removed (then_seal b a)
  Keeps-then_seal b (erred w) e h = h
  Keeps-then_seal b (succeeded w) e h =
      let (live, stray, l) = h in
      let goal = λ (z : Bool). Keeps stream removed (if z then seal_segment b w else succeeded w) in
      elim (Bool-cases (leb b w.buf_pos)) [
        | inl t ↦
            subst goal (sym t)
              (Keeps-seal_segment stream removed live stray w l b e (ground (arith, t)))
        | inr f ↦ subst goal (sym f) h
      ]

  KeepsDrained-finish_round :
      (continue : Writer → Drained) (a : Attempt)
      → ((w : Writer) → Holds stream removed w → KeepsDrained stream removed (continue w))
      → Keeps stream removed a
      → KeepsDrained stream removed (finish_round continue a)
  KeepsDrained-finish_round continue (erred w) c h = h
  KeepsDrained-finish_round continue (succeeded w) c h =
      elim (length w.buf == 0)
        as (λ z. KeepsDrained stream removed (if z then drained w else continue w)) [
          | true ↦ h
          | false ↦ c w h
        ]

  KeepsDrained-drain_round :
      (continue : Writer → Drained) (w : Writer) (o : Option ℕ)
      → w.seal_boundary ≡ o
      → ((w : Writer) → Holds stream removed w → KeepsDrained stream removed (continue w))
      → Holds stream removed w
      → KeepsDrained stream removed (drain_round continue o w)
  KeepsDrained-drain_round continue w (some b) e c h =
      KeepsDrained-finish_round continue (then_seal b (write_before b w)) c (
        Keeps-then_seal b (write_before b w) (write_before-HasBoundary b w e)
          (Keeps-write_before b w e h))
  KeepsDrained-drain_round continue w none e c h =
      elim (length w.buf == 0)
        as (λ z.
          KeepsDrained stream removed
            (if z then drained w else write_rest (write_split (length w.buf) w))) [
              | true ↦ h
              | false ↦ Keeps-write_rest w e h
            ]

  pub KeepsDrained-drain_locked :
      (rounds : ℕ) (w : Writer)
      → Holds stream removed w
      → KeepsDrained stream removed (drain_locked rounds w)
  unfolding drain_locked
  KeepsDrained-drain_locked zero w h = tt
  KeepsDrained-drain_locked (suc rounds) w h =
      KeepsDrained-drain_round (λ w'. drain_locked rounds w') w w.seal_boundary refl
        (KeepsDrained-drain_locked rounds) h
