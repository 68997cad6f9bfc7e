-- ===== src/Wal/Log.antt =====
-- What the log holds: the stream of all records is the bytes of the removed segments, of the sealed
-- ones, of the live one, and the buffer (wal.go).
use eavt_sql.Prelude.{
  drop-length-append-add, ℕ, suc, ◌+◌, ◌-◌, ◌≤◌, ◌<◌, ◌≡◌, ◌≢◌, ◌⊎◌, refl, ap, sym, subst, Bool,
  true, Option, none, some, List, [], ◌∷◌, ◌++◌, ◌==◌, length, drop, arith, append_assoc,
  append-nil, length-append, take_of_length,
}
use eavt_sql.Bytes.Order.{Bytes}
use eavt_sql.Wal.{FileOutcome, SealedSeg, Files, Writer, content, set_file, write_at}

-- The bytes of the sealed segments, in order.
abbrev pub sealed_bytes : Files → List SealedSeg → Bytes
sealed_bytes fs [] = []
sealed_bytes fs (s ∷ ss) = content fs s.idx ++ sealed_bytes fs ss

-- Sealed segments whose numbers ascend from one bound to another, and whose boundaries are the
-- positions in the stream at which their bytes end.
abbrev pub IsChain : Files → ℕ → ℕ → ℕ → List SealedSeg → Type 0
IsChain fs start lo hi [] = lo ≤ hi
IsChain fs start lo hi (s ∷ ss) =
    (lo ≤ s.idx)
    × (s.boundary ≡ start + length (content fs s.idx))
    × IsChain fs s.boundary (suc s.idx) hi ss

-- There may be so many stray bytes behind a position of the stream: what is written next to the
-- open file overwrites them.
abbrev pub HasRoom : Option ℕ → ℕ → ℕ → ℕ → Type 0
HasRoom none n at end = at + n ≤ end
HasRoom (some b) n at end = (at + n ≤ b) × (b ≤ end)

pub record IsLog (stream removed live stray : Bytes) (w : Writer) : Type 0 where
  pub chain : IsChain w.files (length removed) 0 w.seg_idx w.sealed
  pub whole : stream ≡ removed ++ (sealed_bytes w.files w.sealed ++ (live ++ w.buf))
  pub live_file : content w.files w.seg_idx ≡ live ++ stray
  pub position : w.buf_pos ≡ length removed + length (sealed_bytes w.files w.sealed) + length live
  pub ending : w.logical_end ≡ w.buf_pos + length w.buf
  pub room : HasRoom w.seal_boundary (length stray) w.buf_pos w.logical_end
  pub handle : w.is_open ≡ true → w.offset ≡ length live
  pub fresh : (i : ℕ) → w.seg_idx < i → w.files i ≡ none

-- The log of a stream of which some bytes stood in segments that are removed.
abbrev pub Holds : Bytes → Bytes → Writer → Type 0
Holds stream removed w = (live : Bytes) × (stray : Bytes) × IsLog stream removed live stray w

-- The fields that say what to do next may change, as long as the boundary leaves room and an open file
-- is written behind the live bytes.
module _ (stream removed live stray : Bytes) (w : Writer)
    (l : IsLog stream removed live stray w) where
  module _ (o : Bool) (off : ℕ) (b : Option ℕ) (st : Bool) (os : List FileOutcome) where
    pub IsLog-control :
        HasRoom b (length stray) w.buf_pos w.logical_end
        → (o ≡ true → off ≡ length live)
        → IsLog stream removed live stray
            (record w { is_open = o; offset = off; seal_boundary = b; stopped = st; outcomes = os })
    IsLog-control r h = record {
      chain = l.chain;
      whole = l.whole;
      live_file = l.live_file;
      position = l.position;
      ending = l.ending;
      room = r;
      handle = h;
      fresh = l.fresh;
    }

  pub room_end : w.buf_pos + length stray ≤ w.logical_end
  room_end = of_boundary w.seal_boundary l.room
    where
      of_boundary :
          (b : Option ℕ)
          → HasRoom b (length stray) w.buf_pos w.logical_end
          → w.buf_pos + length stray ≤ w.logical_end
      of_boundary none r = r
      of_boundary (some b) r = omega (arith, r.0, r.1)

module _ (fs : Files) where
  pub content-set_file : (i : ℕ) (bs : Bytes) → content (set_file fs i (some bs)) i ≡ bs
  content-set_file i bs = let here : (i == i) ≡ true = ground arith in rw (content, here) refl

  pub set_file-other : (i j : ℕ) (c : Option Bytes) → j ≢ i → set_file fs i c j ≡ fs j
  set_file-other i j c h = ground arith

  pub content-other :
      (i j : ℕ) (c : Option Bytes) → j ≢ i → content (set_file fs i c) j ≡ content fs j
  content-other i j c h = ap (λ z. elim z [ some bs ↦ bs | none ↦ [] ]) (set_file-other i j c h)

  pub IsChain-bounds : (start lo hi : ℕ) (ss : List SealedSeg) → IsChain fs start lo hi ss → lo ≤ hi
  IsChain-bounds start lo hi [] h = h
  IsChain-bounds start lo hi (s ∷ ss) h =
      omega (arith, h.0, IsChain-bounds s.boundary (suc s.idx) hi ss h.2)

  pub IsChain-lower :
      (start lo' lo hi : ℕ) (ss : List SealedSeg)
      → lo' ≤ lo
      → IsChain fs start lo hi ss
      → IsChain fs start lo' hi ss
  IsChain-lower start lo' lo hi [] e h = omega (arith, e, h)
  IsChain-lower start lo' lo hi (s ∷ ss) e h = (omega (arith, e, h.0), h.1, h.2)

  -- A file outside the range of the chain may be changed.
  module _ (i : ℕ) (c : Option Bytes) where
    pub IsChain-set_file :
        (start lo hi : ℕ) (ss : List SealedSeg)
        → (i < lo) ⊎ (hi ≤ i)
        → IsChain fs start lo hi ss
        → IsChain (set_file fs i c) start lo hi ss
    IsChain-set_file start lo hi [] o h = h
    IsChain-set_file start lo hi (s ∷ ss) o h =
        let below = IsChain-bounds s.boundary (suc s.idx) hi ss h.2 in
        let apart : s.idx ≢ i = ground (arith, h.0) in
        (
          h.0,
          subst (λ z. s.boundary ≡ start + length z) (sym (content-other i s.idx c apart)) h.1,
          IsChain-set_file s.boundary (suc s.idx) hi ss (ground (arith, h.0)) h.2,
        )

    pub sealed_bytes-set_file :
        (start lo hi : ℕ) (ss : List SealedSeg)
        → (i < lo) ⊎ (hi ≤ i)
        → IsChain fs start lo hi ss
        → sealed_bytes (set_file fs i c) ss ≡ sealed_bytes fs ss
    sealed_bytes-set_file start lo hi [] o h = refl
    sealed_bytes-set_file start lo hi (s ∷ ss) o h =
        let below = IsChain-bounds s.boundary (suc s.idx) hi ss h.2 in
        let apart : s.idx ≢ i = ground (arith, h.0) in
        rw
          (
            content-other i s.idx c apart,
            sealed_bytes-set_file s.boundary (suc s.idx) hi ss (ground (arith, h.0)) h.2,
          )
          refl

  -- The segment that follows the chain is sealed.
  pub IsChain-snoc :
      (start lo hi b : ℕ) (ss : List SealedSeg)
      → IsChain fs start lo hi ss
      → b ≡ start + length (sealed_bytes fs ss) + length (content fs hi)
      → IsChain fs start lo (suc hi) (ss ++ record { idx = hi; boundary = b } ∷ [])
  IsChain-snoc start lo hi b [] h e = (h, omega arith, omega arith)
  IsChain-snoc start lo hi b (s ∷ ss) h e = (
    h.0,
    h.1,
    IsChain-snoc s.boundary (suc s.idx) hi b ss h.2
        (omega (arith, h.1, e, length-append (content fs s.idx) (sealed_bytes fs ss))),
  )

  pub sealed_bytes-snoc :
      (s : SealedSeg) (ss : List SealedSeg)
      → sealed_bytes fs (ss ++ s ∷ []) ≡ sealed_bytes fs ss ++ content fs s.idx
  sealed_bytes-snoc s [] = append-nil (content fs s.idx)
  sealed_bytes-snoc s (t ∷ ss) =
      rw (sealed_bytes-snoc s ss)
        (sym (append_assoc (content fs t.idx) (sealed_bytes fs ss) (content fs s.idx)))

-- A write behind the live bytes overwrites the first of the stray ones.
pub write_at-append :
    (live stray bs : Bytes)
    → write_at (length live) bs (live ++ stray) ≡ live ++ (bs ++ drop (length bs) stray)
write_at-append live stray bs =
    let full : length live - length (live ++ stray) ≡ 0 = omega (arith, length-append live stray) in
    rw
      (
        take_of_length (length live) live stray refl,
        full,
        drop-length-append-add live stray (length bs),
      )
      refl
