-- ===== src/Pagestore/Varint.antt =====
-- `WriteVarint` and `ReadVarint` (go/internal/pagestore/pages.go), and reading a slice of a
-- decoded length. A Go int is its 64-bit pattern: from 2 ^ 63 on it stands for a negative number.
use eavt_sql.Prelude.{
  ◌-◌, ℕ, zero, suc, ◌+◌, ◌*◌, ◌/◌, ◌%◌, ◌^◌, ◌≤◌, ◌<◌, ◌≡◌, ap, ◌∙◌, false, [], ◌∷◌, ◌++◌, arith,
  ltb, leb, ◌==◌, if◌then◌else◌, length, take, drop, Bool-cases, inl, inr, length-append,
  take-length-append, drop-length-append,
}
use native.Mathlib.Nat.{pow-suc}
use eavt_sql.Bytes.Order.{Bytes}
use eavt_sql.Pagestore.Outcome.{Error, Outcome, ok, err, panic, truncated_varint, varint_too_long}

-- The bytes appended for `v`; ten groups of seven bits hold every uint64.
unfoldable pub varint_groups : ℕ → ℕ → Bytes
varint_groups zero v = []
varint_groups (suc n) v =
    let rest = varint_groups n (v / 128) in
    if v / 128 == 0 then (v % 128) ∷ [] else (v % 128 + 128) ∷ rest

unfoldable pub write_varint : ℕ → Bytes
unfolding varint_groups
write_varint v = varint_groups 10 (v % 2 ^ 64)

-- A position in the data: the offset, and the bytes from there on.
pub record Reader : Type 0 where
  pub offset : ℕ
  pub rest : Bytes

-- One round of the loop for each group; `weight` is `1 << shift`, and the `|` of disjoint bits is
-- a sum. After ten groups `shift >= 64`.
unfoldable pub read_groups : ℕ → ℕ → ℕ → ℕ → Bytes → Outcome (ℕ × Reader)
read_groups zero weight acc offset data' = err varint_too_long
read_groups (suc n) weight acc offset [] = err truncated_varint
read_groups (suc n) weight acc offset (b ∷ bs) =
    let acc' = acc + b % 128 * weight % 2 ^ 64 in
    let more = read_groups n (weight * 128) acc' (offset + 1) bs in
    if ltb b 128 then ok (acc', record { offset = offset + 1; rest = bs }) else more

unfoldable pub read_varint : Reader → Outcome (ℕ × Reader)
unfolding read_groups
read_varint r = read_groups 10 1 0 r.offset r.rest

-- `extent := offset + n; if extent + tail > len(data) { error }; data[offset:extent]`. A negative
-- `n` passes the test unless the tail takes the sum past the end; the slice expression then panics,
-- as it does for a sum past 2 ^ 63.
unfoldable pub read_slice : ℕ → Error → ℕ → Reader → Outcome (Bytes × Reader)
read_slice n e tail r =
    if leb (2 ^ 63) n
    then if ltb (length r.rest + (2 ^ 64 - n)) tail then err e else panic
    else if leb (2 ^ 63) (r.offset + n + tail)
    then panic
    else if ltb (length r.rest) (n + tail)
    then err e
    else ok (take n r.rest, record { offset = r.offset + n; rest = drop n r.rest })

split_groups : (v w : ℕ) → v % 128 * w + v / 128 * (w * 128) ≡ v * w
split_groups v w =
    let e : v % 128 + v / 128 * 128 ≡ v = omega arith in omega (arith, ap (λ (t : ℕ). t * w) e)

low_group : (v w : ℕ) → v % 128 * w ≤ v * w
low_group v w = omega (arith, split_groups v w)

-- A group's bits in place, read from the byte with or without the continuation bit.
group_value : (b v w : ℕ) → b % 128 ≡ v % 128 → v * w < 2 ^ 63 → b % 128 * w % 2 ^ 64 ≡ v % 128 * w
group_value b v w e h = rw (ap (λ (t : ℕ). t * w % 2 ^ 64) e) (omega (arith, low_group v w))

more_groups : (n v : ℕ) → v < 128 ^ suc n → v / 128 == 0 ≡ false → 0 < n
more_groups zero v h e = absurd (ground arith)
more_groups (suc n) v h e = omega arith

read_groups-varint_groups :
    (n w acc v offset : ℕ) (rest : Bytes)
    → v < 128 ^ n
    → 0 < n
    → acc + v * w < 2 ^ 63
    → read_groups n w acc offset (varint_groups n v ++ rest)
      ≡ ok (acc + v * w, record { offset = offset + length (varint_groups n v); rest = rest })
unfolding read_groups varint_groups
read_groups-varint_groups zero w acc v offset rest h p fits = absurd (omega arith)
read_groups-varint_groups (suc n) w acc v offset rest h p fits = elim (Bool-cases (v / 128 == 0)) [
  | inl e ↦
      let whole : v % 128 ≡ v = ground arith in
      rw (e, group_value (v % 128) v w (omega arith) (omega arith))
        (ground (arith, ap (λ (t : ℕ). t * w) whole))
  | inr e ↦
      let small : v / 128 < 128 ^ n = omega (arith, pow-suc 128 n) in
      rw (e, group_value (v % 128 + 128) v w (omega arith) (omega arith))
        (ground (
          arith,
          split_groups v w,
          read_groups-varint_groups n (w * 128) (acc + v % 128 * w) (v / 128) (offset + 1) rest
              small (more_groups n v h e) (omega (arith, split_groups v w)),
        ))
]

-- A number below 2 ^ 63 that was written as a varint is read back, and the reader stands right
-- after it.
pub read_varint-write_varint :
    (v offset : ℕ) (rest : Bytes)
    → v < 2 ^ 63
    → read_varint (record { offset = offset; rest = write_varint v ++ rest })
      ≡ ok (v, record { offset = offset + length (write_varint v); rest = rest })
unfolding read_varint write_varint
read_varint-write_varint v offset rest h =
    let small : v % 2 ^ 64 ≡ v = omega arith in
    rw small (
      read_groups-varint_groups 10 1 0 v offset rest (omega arith) (omega arith) (omega arith)
      ∙ ground arith)

-- A slice of the expected length is read back.
pub read_slice-append :
    (xs rest : Bytes) (e : Error) (tail offset : ℕ)
    → offset + length xs + tail < 2 ^ 63
    → tail ≤ length rest
    → read_slice (length xs) e tail (record { offset = offset; rest = xs ++ rest })
      ≡ ok (xs, record { offset = offset + length xs; rest = rest })
unfolding read_slice
read_slice-append xs rest e tail offset h k =
    ground (arith, length-append xs rest, take-length-append xs rest, drop-length-append xs rest)
