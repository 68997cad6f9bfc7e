-- ===== src/Msgpack/Decode.antt =====
-- The decoder of go/internal/msgpack/msgpack.go. Its state is what it has not read yet. The fuel
-- bounds the nesting; `out_of_fuel` is no result of the code. The conversion of a float32 pattern
-- to a float64 pattern is the language's own, and a parameter here.
use eavt_sql.Prelude.{
  ℕ, zero, suc, ◌-◌, ◌*◌, ◌%◌, ◌^◌, true, false, ◌&&◌, ◌||◌, [], ◌∷◌, ltb, leb, ◌==◌, if◌then◌else◌,
  length, take, drop,
}
use eavt_sql.Bytes.Order.{Bytes}
use eavt_sql.Bytes.Int.{ℤ, pos, negsuc, be_value}
use eavt_sql.Msgpack.Value.{
  Value, Values, Pairs, nil, bool, int, float, str, bin, array, map, ext, no_values, value,
  no_pairs, pair,
}

pub data DecodeError : Type 0 where
  truncated unknown_format trailing_content : DecodeError

pub data Decoded {ℓ} (A : Type ℓ) : Type ℓ where
  ok : A → Decoded A
  err : DecodeError → Decoded A
  panic : Decoded A
  out_of_fuel : Decoded A

infixl 5 ◌>>=◌
abbrev pub ◌>>=◌ {ℓ κ} : {A : Type ℓ} {B : Type κ} → Decoded A → (A → Decoded B) → Decoded B
ok a >>= f = f a
err e >>= f = err e
panic >>= f = panic
out_of_fuel >>= f = out_of_fuel

-- The next bytes of the buffer, and the position behind them: an index or a slice past the end
-- panics.
unfoldable pub next_bytes : ℕ → Bytes → Decoded (Bytes × Bytes)
next_bytes n bs = if ltb (length bs) n then panic else ok (take n bs, drop n bs)

unfoldable pub take_bytes : ℕ → Bytes → Decoded (Bytes × Bytes)
unfolding next_bytes
take_bytes n bs = if ltb (length bs) n then err truncated else next_bytes n bs

-- `u8`, `u16`, `u32` and `u64`: an unsigned number of so many bytes.
unfoldable pub read_be : ℕ → Bytes → Decoded (ℕ × Bytes)
unfolding next_bytes be_value
read_be n bs =
    if ltb (length bs) n
    then err truncated
    else (do (word, rest) ← next_bytes n bs; ok (be_value (2 ^ 64) 0 word % 256 ^ n, rest))

-- `int64(int8(v))` for `half` 2 ^ 7, and so on.
abbrev pub signed : ℕ → ℕ → ℤ
signed half v = if ltb v half then pos v else negsuc (2 * half - 1 - v)

-- `lenOf`; the decoder calls it on these bytes only.
unfoldable pub len_of : ℕ → Bytes → Decoded (ℕ × Bytes)
unfolding read_be
len_of b bs =
    if b == 0xc4 || b == 0xc7 || b == 0xd9
    then read_be 1 bs
    else if b == 0xc5 || b == 0xc8 || b == 0xda || b == 0xdc || b == 0xde
    then read_be 2 bs
    else if b == 0xc6 || b == 0xc9 || b == 0xdb || b == 0xdd || b == 0xdf
    then read_be 4 bs
    else err unknown_format

abbrev pub Parser : Type 0 → Type 0
Parser A = Bytes → Decoded (A × Bytes)

unfoldable pub decode_str : ℕ → Parser Value
unfolding take_bytes
decode_str n bs = do (s, bs1) ← take_bytes n bs; ok (str s, bs1)

unfoldable pub decode_bin : ℕ → Parser Value
unfolding take_bytes
decode_bin n bs = do (s, bs1) ← take_bytes n bs; ok (bin s, bs1)

unfoldable pub decode_ext_n : ℕ → Parser Value
unfolding read_be take_bytes
decode_ext_n n bs = do
  (ty, bs1) ← read_be 1 bs
  (body, bs2) ← take_bytes n bs1
  ok (ext (pos ty) body, bs2)

unfoldable pub decode_int : ℕ → (ℕ → ℤ) → Parser Value
unfolding read_be
decode_int n convert bs = do (v, bs1) ← read_be n bs; ok (int (convert v), bs1)

unfoldable pub decode_float : ℕ → (ℕ → ℕ) → Parser Value
unfolding read_be
decode_float n convert bs = do (v, bs1) ← read_be n bs; ok (float (convert v), bs1)

-- The loops of `decodeArray` and `decodeMap`, over the decoder of one value.
unfoldable pub decode_values : Parser Value → ℕ → Parser Values
decode_values one zero bs = ok (no_values, bs)
decode_values one (suc n) bs = do
  (v, bs1) ← one bs
  (vs, bs2) ← decode_values one n bs1
  ok (value v vs, bs2)

unfoldable pub decode_pairs : Parser Value → ℕ → Parser Pairs
decode_pairs one zero bs = ok (no_pairs, bs)
decode_pairs one (suc n) bs = do
  (k, bs1) ← one bs
  (v, bs2) ← one bs1
  (ps, bs3) ← decode_pairs one n bs2
  ok (pair k v ps, bs3)

-- `make` of a slice with room for `n` elements of a size, and what follows: it panics for more than the
-- 2 ^ 48 bytes of the address space. Whether the machine has the memory is not modelled.
unfoldable pub make_room {ℓ} : {A : Type ℓ} → ℕ → ℕ → Decoded A → Decoded A
make_room size n next = if ltb (2 ^ 48) (n * size) then panic else next

-- A value is an interface of two words, a pair is two values.
unfoldable pub decode_array : Parser Value → ℕ → Parser Value
unfolding decode_values make_room
decode_array one n bs = make_room 16 n (do (vs, bs1) ← decode_values one n bs; ok (array vs, bs1))

unfoldable pub decode_map : Parser Value → ℕ → Parser Value
unfolding decode_pairs make_room
decode_map one n bs = make_room 32 n (do (ps, bs1) ← decode_pairs one n bs; ok (map ps, bs1))

module _ (float64_of_float32 : ℕ → ℕ) where
  -- The second switch of `DecodeValue`, by the kinds of value.
  unfoldable pub decode_number : ℕ → Parser Value
  unfolding decode_int decode_float
  decode_number b bs =
      if b == 0xca
      then decode_float 4 float64_of_float32 bs
      else if b == 0xcb
      then decode_float 8 (λ v. v) bs
      else if b == 0xcc
      then decode_int 1 pos bs
      else if b == 0xcd
      then decode_int 2 pos bs
      else if b == 0xce
      then decode_int 4 pos bs
      else if b == 0xcf || b == 0xd3
      then decode_int 8 (signed (2 ^ 63)) bs
      else if b == 0xd0
      then decode_int 1 (signed (2 ^ 7)) bs
      else if b == 0xd1
      then decode_int 2 (signed (2 ^ 15)) bs
      else if b == 0xd2
      then decode_int 4 (signed (2 ^ 31)) bs
      else err unknown_format

  unfoldable pub decode_format : Parser Value → ℕ → Parser Value
  unfolding decode_number len_of decode_bin decode_str decode_ext_n decode_array decode_map
  decode_format one b bs =
      if b == 0xc0
      then ok (nil, bs)
      else if b == 0xc2
      then ok (bool false, bs)
      else if b == 0xc3
      then ok (bool true, bs)
      else if b == 0xc4 || b == 0xc5 || b == 0xc6
      then (do (n, bs1) ← len_of b bs; decode_bin n bs1)
      else if b == 0xc7 || b == 0xc8 || b == 0xc9
      then (do (n, bs1) ← len_of b bs; decode_ext_n n bs1)
      else if leb 0xd4 b && leb b 0xd8
      then decode_ext_n (2 ^ (b - 0xd4)) bs
      else if b == 0xd9 || b == 0xda || b == 0xdb
      then (do (n, bs1) ← len_of b bs; decode_str n bs1)
      else if b == 0xdc || b == 0xdd
      then (do (n, bs1) ← len_of b bs; decode_array one n bs1)
      else if b == 0xde || b == 0xdf
      then (do (n, bs1) ← len_of b bs; decode_map one n bs1)
      else decode_number b bs

  -- The first switch.
  unfoldable pub decode_tag : Parser Value → ℕ → Parser Value
  unfolding decode_format decode_array decode_str decode_map
  decode_tag one b bs =
      if leb b 0x7f
      then ok (int (pos b), bs)
      else if leb 0xe0 b
      then ok (int (signed (2 ^ 7) b), bs)
      else if leb 0x90 b && leb b 0x9f
      then decode_array one (b % 16) bs
      else if leb 0xa0 b && leb b 0xbf
      then decode_str (b % 32) bs
      else if leb 0x80 b && leb b 0x8f
      then decode_map one (b % 16) bs
      else decode_format one b bs

  unfoldable pub decode_value : ℕ → Parser Value
  unfolding decode_tag
  decode_value zero bs = out_of_fuel
  decode_value (suc fuel) [] = err truncated
  decode_value (suc fuel) (b ∷ bs) = decode_tag (decode_value fuel) b bs

  unfoldable pub unmarshal : Bytes → Decoded Value
  unfolding decode_value
  unmarshal bs = do
    (v, rest) ← decode_value (suc (length bs)) bs
    if ltb 0 (length rest) then err trailing_content else ok v
