-- ===== src/Wal/Delete.antt =====
-- The removal of durable segments (wal.go, `deleteDurable`).
use eavt_sql.Prelude.{
  ℕ, suc, ◌≤◌, ◌≡◌, ◌⊎◌, inl, inr, refl, ap, sym, subst, ◌∙◌, Bool, Option, none, some, List, [],
  ◌∷◌, ◌++◌, leb, if◌then◌else◌, length, arith, length-append, append_assoc, append-nil, Bool-cases,
}
use eavt_sql.Bytes.Order.{Bytes}
use eavt_sql.Wal.{
  FileOutcome, done, fails, Writer, Attempt, succeeded, erred, SealedSeg, content, set_file,
  next_outcome,
}
use eavt_sql.Wal.Segments.{remove_outcome, remove_file, delete_sealed, delete_durable}
use eavt_sql.Wal.Log.{
  IsLog, Holds, IsLog-control, sealed_bytes, IsChain, IsChain-lower, IsChain-bounds,
  IsChain-set_file, sealed_bytes-set_file, set_file-other, content-other,
}

-- A property of the boundaries of all sealed segments.
abbrev pub Boundaries : (ℕ → Type 0) → List SealedSeg → Type 0
Boundaries P [] = Unit
Boundaries P (s ∷ ss) = P s.boundary × Boundaries P ss

-- Some more segments are removed, up to a boundary, and all that is removed is durable.
abbrev pub RemovesDurable : (ℕ → Type 0) → Bytes → Bytes → ℕ → Writer → Type 0
RemovesDurable P stream removed durable w =
    (more : Bytes) × ((more ≡ []) ⊎ (length (removed ++ more) ≤ durable))
    × P (length (removed ++ more))
    × Boundaries P w.sealed
    × Holds stream (removed ++ more) w

abbrev with_sealed : List SealedSeg → Writer → Writer
with_sealed ss w = record w { sealed = ss }

module _ (P : ℕ → Type 0) (stream removed : Bytes) (durable : ℕ) (w : Writer) where
  keep :
      P (length removed)
      → Boundaries P w.sealed
      → Holds stream removed w
      → RemovesDurable P stream removed durable w
  keep p ps h =
      let same : removed ≡ removed ++ [] = sym (append-nil removed) in
      ([], inl refl, subst (λ z. P (length z)) same p, ps, subst (λ z. Holds stream z w) same h)

module _ (stream removed live stray : Bytes) (w : Writer) (s : SealedSeg) (ss : List SealedSeg)
    (l : IsLog stream removed live stray (with_sealed (s ∷ ss) w)) (os : List FileOutcome) where
  abbrev shorter : Writer
  shorter = record w { files = set_file w.files s.idx none; outcomes = os; sealed = ss }

  -- The first sealed segment is removed.
  IsLog-shorter : IsLog stream (removed ++ content w.files s.idx) live stray shorter
  IsLog-shorter =
      let below = IsChain-bounds w.files s.boundary (suc s.idx) w.seg_idx ss l.chain.2 in
      let longer = length-append removed (content w.files s.idx) in
      let start : s.boundary ≡ length (removed ++ content w.files s.idx) =
        omega (arith, l.chain.1, longer) in
      let same =
        sealed_bytes-set_file w.files s.idx none s.boundary (suc s.idx) w.seg_idx ss
          (inl (omega arith)) l.chain.2 in
      record {
        chain =
            subst (λ z. IsChain (set_file w.files s.idx none) z 0 w.seg_idx ss) start
              (IsChain-lower (set_file w.files s.idx none) s.boundary 0 (suc s.idx) w.seg_idx ss
                (omega arith)
                (IsChain-set_file w.files s.idx none s.boundary (suc s.idx) w.seg_idx ss
                  (inl (omega arith)) l.chain.2));
        whole =
            rw
              (
                same,
                append_assoc removed (content w.files s.idx)
                    (sealed_bytes w.files ss ++ (live ++ w.buf)),
              )
              (l.whole
                ∙ ap (λ z. removed ++ z)
                    (append_assoc (content w.files s.idx) (sealed_bytes w.files ss)
                      (live ++ w.buf)));
        live_file = content-other w.files s.idx w.seg_idx none (omega (arith, below)) ∙ l.live_file;
        position = rw same (
            omega (
              arith,
              l.position,
              longer,
              length-append (content w.files s.idx) (sealed_bytes w.files ss),
            ));
        ending = l.ending;
        room = l.room;
        handle = l.handle;
        fresh = λ i h. set_file-other w.files s.idx i none (omega (arith, h, below)) ∙ l.fresh i h;
      }

-- The first segment is removed, and then more of them.
module _ (P : ℕ → Type 0) (stream removed first : Bytes) (durable : ℕ) (w : Writer) where
  longer_removal :
      length (removed ++ first) ≤ durable
      → RemovesDurable P stream (removed ++ first) durable w
      → RemovesDurable P stream removed durable w
  longer_removal bound (more, small, p, ps, held) =
      let all = append_assoc removed first more in
      let none_more : more ≡ [] → length ((removed ++ first) ++ more) ≤ durable = λ e.
        subst (λ z. length ((removed ++ first) ++ z) ≤ durable) (sym e)
          (subst (λ z. length z ≤ durable) (sym (append-nil (removed ++ first))) bound) in
      let within : length ((removed ++ first) ++ more) ≤ durable = elim small [
        | inl e ↦ none_more e
        | inr k ↦ k
      ] in
      (
        first ++ more,
        inr (subst (λ z. length z ≤ durable) all within),
        subst (λ z. P (length z)) all p,
        ps,
        subst (λ z. Holds stream z w) all held,
      )

module _ (P : ℕ → Type 0) (stream : Bytes) (durable : ℕ) where
  delete_sealed-RemovesDurable :
      (removed : Bytes) (ss : List SealedSeg) (w : Writer)
      → P (length removed)
      → Boundaries P ss
      → Holds stream removed (with_sealed ss w)
      → RemovesDurable P stream removed durable (delete_sealed durable ss w)
  unfolding delete_sealed
  delete_sealed-RemovesDurable removed [] w p ps h =
      keep P stream removed durable (with_sealed [] w) p tt h
  delete_sealed-RemovesDurable removed (s ∷ ss) w p ps h =
      let (live, stray, l) = h in
      let (o, os) = next_outcome w.outcomes in
      let stays = with_sealed (s ∷ ss) w in
      let continue = λ (a : Attempt). elim a as (λ a. Writer) [
        | succeeded w' ↦ delete_sealed durable ss w'
        | erred w' ↦ with_sealed (s ∷ ss) w'
      ] in
      let goal = λ (a : Attempt). RemovesDurable P stream removed durable (continue a) in
      let unchanged : goal (erred (record w { outcomes = os })) =
        keep P stream removed durable (record stays { outcomes = os }) p ps
          (
            live,
            stray,
            IsLog-control stream removed live stray stays l w.is_open w.offset w.seal_boundary
                w.stopped os l.room l.handle,
          ) in
      let gone = record w { files = set_file w.files s.idx none; outcomes = os } in
      let first = content w.files s.idx in
      let start : s.boundary ≡ length (removed ++ first) =
        omega (arith, l.chain.1, length-append removed first) in
      let later =
        delete_sealed-RemovesDurable (removed ++ first) ss gone (subst P start ps.0) ps.1
          (live, stray, IsLog-shorter stream removed live stray w s ss l os) in
      let test = λ (z : Bool).
        RemovesDurable P stream removed durable
          (if z then continue (remove_file s.idx w) else stays) in
      elim (Bool-cases (leb s.boundary durable)) [
        | inr f ↦ subst test (sym f) (keep P stream removed durable stays p ps h)
        | inl t ↦ subst test (sym t) (
            let shrunk : goal (succeeded gone) =
              longer_removal P stream removed first durable (delete_sealed durable ss gone)
                (ground (arith, t, start)) later in
            let file_gone = λ (c : Option Bytes) (o : FileOutcome).
              goal (remove_outcome s.idx c o (record w { outcomes = os })) in
            elim (w.files s.idx) as (λ c. file_gone c o) [
              | none ↦ unchanged
              | some bs ↦ elim o as (λ o. file_gone (some bs) o) [
                | done ↦ shrunk
                | fails n ↦ unchanged
              ]
            ])
      ]

  -- Removing segments keeps the log, and what is removed ends at a boundary at or before the
  -- durable position.
  pub delete_durable-RemovesDurable :
      (removed : Bytes) (w : Writer)
      → P (length removed)
      → Boundaries P w.sealed
      → Holds stream removed w
      → RemovesDurable P stream removed durable (delete_durable (some durable) w)
  unfolding delete_durable
  delete_durable-RemovesDurable removed w p ps h =
      delete_sealed-RemovesDurable removed w.sealed w p ps h
