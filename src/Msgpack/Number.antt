-- ===== src/Msgpack/Number.antt =====
-- What the decoder makes of an encoded number (msgpack.go).
use eavt_sql.Prelude.{ℕ, ◌-◌, ◌^◌, ◌<◌, ◌≡◌, refl, ◌∷◌, ◌++◌, leb, arith, Bool-cases, inl, inr}
use eavt_sql.Bytes.Order.{Bytes}
use eavt_sql.Bytes.Int.{ℤ, pos, negsuc, IsInt64, u64, be_bytes}
use eavt_sql.Msgpack.Value.{Value, int, float}
use eavt_sql.Msgpack.Encode.{encode_int}
use eavt_sql.Msgpack.Decode.{
  ok, Parser, decode_tag, decode_format, decode_number, decode_int, decode_float,
}
use eavt_sql.Msgpack.Header.{read_be-be_bytes, read_be-byte, decode_first}

module _ (float64_of_float32 : ℕ → ℕ) (one : Parser Value) (rest : Bytes) where
  pub decode_first-encode_pos :
      (n : ℕ)
      → n < 2 ^ 63
      → decode_first float64_of_float32 one (encode_int (pos n) ++ rest) ≡ ok (int (pos n), rest)
  unfolding encode_int decode_tag decode_format decode_number decode_int
  decode_first-encode_pos n h = elim (Bool-cases (leb n 0x7f)) [
    | inl e ↦ rw e (ground arith)
    | inr e ↦ elim (Bool-cases (leb n 0xff)) [
      | inl f ↦ rw (e, f, read_be-byte n rest (ground arith)) refl
      | inr f ↦ elim (Bool-cases (leb n 0xffff)) [
        | inl g ↦ rw (e, f, g, read_be-be_bytes 2 n rest (ground arith) (omega arith)) refl
        | inr g ↦ elim (Bool-cases (leb n 0xffffffff)) [
          | inl k ↦ rw (e, f, g, k, read_be-be_bytes 4 n rest (ground arith) (omega arith)) refl
          | inr k ↦
              rw (e, f, g, k, read_be-be_bytes 8 n rest (omega arith) (omega arith)) (ground arith)
        ]
      ]
    ]
  ]

  pub decode_first-encode_negsuc :
      (n : ℕ)
      → n < 2 ^ 63
      → decode_first float64_of_float32 one (encode_int (negsuc n) ++ rest)
        ≡ ok (int (negsuc n), rest)
  unfolding encode_int decode_tag decode_format decode_number decode_int
  decode_first-encode_negsuc n h = elim (Bool-cases (leb n 31)) [
    | inl e ↦ rw e (ground arith)
    | inr e ↦ elim (Bool-cases (leb n 127)) [
      | inl f ↦ rw (e, f, read_be-byte (255 - n) rest (omega arith)) (ground arith)
      | inr f ↦ elim (Bool-cases (leb n 32767)) [
        | inl g ↦
            rw (e, f, g, read_be-be_bytes 2 (2 ^ 16 - 1 - n) rest (ground arith) (omega arith))
              (ground arith)
        | inr g ↦ elim (Bool-cases (leb n (2 ^ 31 - 1))) [
          | inl k ↦
              rw (e, f, g, k, read_be-be_bytes 4 (2 ^ 32 - 1 - n) rest (ground arith) (omega arith))
                (ground arith)
          | inr k ↦
              rw (e, f, g, k, read_be-be_bytes 8 (u64 (negsuc n)) rest (omega arith) (omega arith))
                (ground arith)
        ]
      ]
    ]
  ]

  pub decode_first-encode_int :
      (n : ℤ)
      → IsInt64 n
      → decode_first float64_of_float32 one (encode_int n ++ rest) ≡ ok (int n, rest)
  decode_first-encode_int (pos n) h = decode_first-encode_pos n h
  decode_first-encode_int (negsuc n) h = decode_first-encode_negsuc n h

  pub decode_first-float :
      (x : ℕ)
      → x < 2 ^ 64
      → decode_first float64_of_float32 one (0xcb ∷ (be_bytes 8 x ++ rest)) ≡ ok (float x, rest)
  unfolding decode_tag decode_format decode_number decode_float
  decode_first-float x h = rw (read_be-be_bytes 8 x rest (omega arith) (omega arith)) refl
