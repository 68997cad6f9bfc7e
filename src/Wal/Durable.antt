-- ===== src/Wal/Durable.antt =====
-- A drain without failures brings the whole stream to the files (wal.go).
use eavt_sql.Prelude.{
  ℕ, zero, suc, ◌≡◌, refl, ap, sym, subst, ◌∙◌, Bool, true, false, Option, none, some, List, [],
  ◌++◌, ltb, leb, ◌==◌, if◌then◌else◌, length, arith, drop_of_short,
}
use eavt_sql.Bytes.Order.{Bytes}
use eavt_sql.Wal.{
  FileOutcome, Writer, Attempt, succeeded, erred, Drained, drained, failed, out_of_rounds, content,
  next_outcome, open_outcome, rotate, seal_segment, split_of, write_split, write_outcome,
  write_before, then_seal, with_no_boundary, write_rest, finish_round, drain_round, drain_locked,
  drain,
}
use eavt_sql.Wal.Log.{Holds, sealed_bytes, room_end}
use eavt_sql.Wal.Drain.{KeepsDrained, KeepsDrained-drain_locked}
use eavt_sql.Wal.Ends.{IsEnd, drain-IsEnd}

-- The file is open, and nothing fails from here on.
abbrev pub IsSound : Writer → Type 0
IsSound w = (w.is_open ≡ true) × (w.outcomes ≡ [])

abbrev Sound : Attempt → Type 0
Sound (succeeded w) = IsSound w
Sound (erred w) = ⊥

Sound-write_split : (k : ℕ) (w : Writer) → IsSound w → Sound (write_split k w)
unfolding write_split
Sound-write_split k w (opened, fine) =
    let goal = λ (os : List FileOutcome) (b : Bool). Sound (
      if b
      then write_outcome k (next_outcome os).0 (record w { outcomes = (next_outcome os).1 })
      else erred w) in
    subst (λ os. goal os w.is_open) (sym fine) (subst (goal []) (sym opened) (opened, refl))

Sound-write_before : (b : ℕ) (w : Writer) → IsSound w → Sound (write_before b w)
Sound-write_before b w s =
    elim (ltb 0 (split_of b w))
      as (λ z. Sound (if z then write_split (split_of b w) w else succeeded w)) [
        | true ↦ Sound-write_split (split_of b w) w s
        | false ↦ s
      ]

-- The next segment is opened whether or not the last one is.
Sound-seal_segment : (b : ℕ) (w : Writer) → w.outcomes ≡ [] → Sound (seal_segment b w)
unfolding seal_segment
Sound-seal_segment b w e =
    let goal = λ (os : List FileOutcome). Sound (
      with_no_boundary (
        open_outcome (next_outcome os).0
          (record (rotate b w) { outcomes = (next_outcome os).1 }))) in
    subst goal (sym e) (refl, refl)

Sound-then_seal : (b : ℕ) (a : Attempt) → Sound a → Sound (then_seal b a)
Sound-then_seal b (erred w) s = s
Sound-then_seal b (succeeded w) s =
    elim (leb b w.buf_pos) as (λ z. Sound (if z then seal_segment b w else succeeded w)) [
      | true ↦ Sound-seal_segment b w s.1
      | false ↦ s
    ]

-- The loop goes on, or is over without an error.
abbrev IsFine : Drained → Type 0
IsFine (drained w) = Unit
IsFine (failed w) = ⊥
IsFine out_of_rounds = Unit

IsFine-finish_round :
    (continue : Writer → Drained) (a : Attempt)
    → Sound a
    → ((w : Writer) → IsSound w → IsFine (continue w))
    → IsFine (finish_round continue a)
IsFine-finish_round continue (succeeded w) s c =
    elim (length w.buf == 0) as (λ z. IsFine (if z then drained w else continue w)) [
      | true ↦ tt
      | false ↦ c w s
    ]
IsFine-finish_round continue (erred w) s c = s

IsFine-drain_round :
    (continue : Writer → Drained) (o : Option ℕ) (w : Writer)
    → IsSound w
    → ((w : Writer) → IsSound w → IsFine (continue w))
    → IsFine (drain_round continue o w)
IsFine-drain_round continue (some b) w s c =
    IsFine-finish_round continue (then_seal b (write_before b w))
      (Sound-then_seal b (write_before b w) (Sound-write_before b w s)) c
IsFine-drain_round continue none w s c =
    elim (length w.buf == 0)
      as (λ z. IsFine (if z then drained w else write_rest (write_split (length w.buf) w))) [
        | true ↦ tt
        | false ↦ written (write_split (length w.buf) w) (Sound-write_split (length w.buf) w s)
      ]
  where
    written : (a : Attempt) → Sound a → IsFine (write_rest a)
    written (succeeded w) s = tt
    written (erred w) s = s

IsFine-drain_locked : (rounds : ℕ) (w : Writer) → IsSound w → IsFine (drain_locked rounds w)
unfolding drain_locked
IsFine-drain_locked zero w s = tt
IsFine-drain_locked (suc rounds) w s =
    IsFine-drain_round (λ w'. drain_locked rounds w') w.seal_boundary w s
      (IsFine-drain_locked rounds)

-- All bytes of the sealed segments and of the live one.
abbrev pub file_bytes : Writer → Bytes
file_bytes w = sealed_bytes w.files w.sealed ++ content w.files w.seg_idx

stored_when_empty :
    (stream removed : Bytes) (w : Writer)
    → Holds stream removed w
    → w.buf ≡ []
    → stream ≡ removed ++ file_bytes w
stored_when_empty stream removed w (live, stray, l) e =
    let none_left : stray ≡ [] =
      drop_of_short 0 stray
        (omega (arith, room_end stream removed live stray w l, l.ending, ap length e)) in
    let file : content w.files w.seg_idx ≡ live ++ w.buf =
      l.live_file ∙ ap (λ z. live ++ z) (none_left ∙ sym e) in
    l.whole ∙ ap (λ z. removed ++ (sealed_bytes w.files w.sealed ++ z)) (sym file)

-- When the file is open and no operation of the file system fails, a drain succeeds, and then the
-- stream after the removed bytes is exactly what the segment files hold.
pub drain-file_bytes :
    (stream removed : Bytes) (w : Writer)
    → Holds stream removed w
    → w.is_open ≡ true
    → w.outcomes ≡ []
    → (w' : Writer) × (drain w ≡ drained w') × (stream ≡ removed ++ file_bytes w')
drain-file_bytes stream removed w h opened fine =
    of_drained (drain w) refl (IsFine-drain_locked 2 w (opened, fine)) (drain-IsEnd w)
      (KeepsDrained-drain_locked stream removed 2 w h)
  where
    of_drained :
        (d : Drained)
        → drain w ≡ d
        → IsFine d
        → IsEnd d
        → KeepsDrained stream removed d
        → (w' : Writer) × (drain w ≡ drained w') × (stream ≡ removed ++ file_bytes w')
    of_drained (drained w') e f last k = (w', e, stored_when_empty stream removed w' k last)
    of_drained (failed w') e f last k = elim f [ ]
    of_drained out_of_rounds e f last k = elim last [ ]
