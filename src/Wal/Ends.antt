-- ===== src/Wal/Ends.antt =====
-- How the loop of `drainLocked` ends (wal.go).
use eavt_sql.Prelude.{
  ℕ, ◌+◌, ◌≤◌, ◌≡◌, ◌⊎◌, inl, inr, refl, ap, sym, subst, ◌∙◌, Bool, Option, none, some, [], ltb,
  leb, ◌==◌, if◌then◌else◌, length, arith, Bool-cases, drop_of_short,
}
use eavt_sql.Bytes.Order.{Bytes}
use eavt_sql.Wal.{
  Writer, Attempt, succeeded, erred, Drained, drained, failed, out_of_rounds, drain_locked, drain,
  split_of, write_split, write_before, write_rest, seal_segment, open_seg, rotate, then_seal,
  finish_round, drain_round, with_no_boundary,
}
use eavt_sql.Wal.Drain.{OnSuccess, OnSuccess-write_split}

-- The loop is over, and on success the buffer is empty.
abbrev pub IsEnd : Drained → Type 0
IsEnd (drained w) = w.buf ≡ []
IsEnd (failed w) = Unit
IsEnd out_of_rounds = ⊥

abbrev IsReached : ℕ → Writer → Type 0
IsReached b w = (b ≤ w.buf_pos) ⊎ (w.buf ≡ [])

abbrev IsLast : Writer → Type 0
IsLast w = (w.seal_boundary ≡ none) ⊎ (w.buf ≡ [])

empty_of : (bs : Bytes) → length bs ≤ 0 → bs ≡ []
empty_of bs h = drop_of_short 0 bs h

-- What a successful write leaves in the buffer.
IsReached-write_split :
    (b k : ℕ) (w : Writer)
    → (b ≤ w.buf_pos + k) ⊎ (length w.buf ≤ k)
    → OnSuccess (IsReached b) (write_split k w)
IsReached-write_split b k w h = OnSuccess-write_split (IsReached b) k w (λ w' buf at same. elim h [
  | inl reached ↦ inl (omega (arith, reached, at))
  | inr all ↦ inr (buf ∙ drop_of_short k w.buf all)
])

IsReached-write_before : (b : ℕ) (w : Writer) → OnSuccess (IsReached b) (write_before b w)
IsReached-write_before b w =
    let k = split_of b w in
    let goal = λ (z : Bool). OnSuccess (IsReached b) (if z then write_split k w else succeeded w) in
    elim (Bool-cases (ltb 0 k)) [
      | inl t ↦ subst goal (sym t) (IsReached-write_split b k w (ground (arith, t)))
      | inr f ↦ subst goal (sym f) (elim (Bool-cases (ltb w.buf_pos b)) [
        | inl below ↦ inr (empty_of w.buf (ground (arith, f, below)))
        | inr above ↦ inl (ground (arith, above))
      ])
    ]

IsLast-with_no_boundary : (a : Attempt) → OnSuccess IsLast (with_no_boundary a)
IsLast-with_no_boundary (succeeded w) = inl refl
IsLast-with_no_boundary (erred w) = tt

IsLast-seal_segment : (b : ℕ) (w : Writer) → OnSuccess IsLast (seal_segment b w)
unfolding seal_segment
IsLast-seal_segment b w = IsLast-with_no_boundary (open_seg (rotate b w))

IsLast-then_seal :
    (b : ℕ) (a : Attempt) → OnSuccess (IsReached b) a → OnSuccess IsLast (then_seal b a)
IsLast-then_seal b (erred w) h = tt
IsLast-then_seal b (succeeded w) h =
    let goal = λ (z : Bool). OnSuccess IsLast (if z then seal_segment b w else succeeded w) in
    elim (Bool-cases (leb b w.buf_pos)) [
      | inl t ↦ subst goal (sym t) (IsLast-seal_segment b w)
      | inr f ↦
          subst goal (sym f) (elim h [ inl reached ↦ ground (arith, f, reached) | inr e ↦ inr e ])
    ]

IsEnd-write_rest : (w : Writer) → IsEnd (write_rest (write_split (length w.buf) w))
IsEnd-write_rest w = of_attempt (write_split (length w.buf) w) (
    OnSuccess-write_split (λ w'. w'.buf ≡ []) (length w.buf) w
      (λ w' buf at same. buf ∙ drop_of_short (length w.buf) w.buf (omega arith)))
  where
    of_attempt : (a : Attempt) → OnSuccess (λ w'. w'.buf ≡ []) a → IsEnd (write_rest a)
    of_attempt (succeeded w') h = h
    of_attempt (erred w') h = tt

IsEnd-last : (continue : Writer → Drained) (w : Writer) → IsEnd (drain_round continue none w)
IsEnd-last continue w =
    let goal =
      λ (z : Bool). IsEnd (if z then drained w else write_rest (write_split (length w.buf) w)) in
    elim (Bool-cases (length w.buf == 0)) [
      | inl t ↦ subst goal (sym t) (empty_of w.buf (ground (arith, t)))
      | inr f ↦ subst goal (sym f) (IsEnd-write_rest w)
    ]

IsEnd-finish_round :
    (continue : Writer → Drained) (a : Attempt)
    → OnSuccess IsLast a
    → ((w : Writer) → w.seal_boundary ≡ none → IsEnd (continue w))
    → IsEnd (finish_round continue a)
IsEnd-finish_round continue (erred w) h c = tt
IsEnd-finish_round continue (succeeded w) h c =
    let goal = λ (z : Bool). IsEnd (if z then drained w else continue w) in
    elim (Bool-cases (length w.buf == 0)) [
      | inl t ↦ subst goal (sym t) (empty_of w.buf (ground (arith, t)))
      | inr f ↦
          subst goal (sym f) (elim h [ inl e ↦ c w e | inr e ↦ ground (arith, f, ap length e) ])
    ]

-- The drain ends within two rounds from any state, and when it succeeds its buffer is empty.
pub drain-IsEnd : (w : Writer) → IsEnd (drain w)
unfolding drain_locked
drain-IsEnd w = of_boundary w.seal_boundary
  where
    again : Writer → Drained
    again w' = drain_locked 1 w'

    of_boundary : (o : Option ℕ) → IsEnd (drain_round again o w)
    of_boundary (some b) =
        IsEnd-finish_round again (then_seal b (write_before b w))
          (IsLast-then_seal b (write_before b w) (IsReached-write_before b w))
          (λ w' e.
            subst (λ o. IsEnd (drain_round (λ w''. drain_locked 0 w'') o w')) (sym e)
              (IsEnd-last (λ w''. drain_locked 0 w'') w'))
    of_boundary none = IsEnd-last again w
