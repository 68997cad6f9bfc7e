-- ===== src/Eavt/Keys/Suffix.antt =====
-- Numbers and suffixes are decoded as they were encoded, and ordered as they are.
use eavt_sql.Prelude.{
  ℕ, ◌^◌, ◌<◌, ◌≡◌, ◌∙◌, Bool, some, ◌++◌, arith, compare, take_of_length, length-append,
}
use eavt_sql.Bytes.Order.{Bytes, cmp_keys}
use eavt_sql.Bytes.Int.{
  ℤ, pos, negsuc, IsInt64, u64, i64, compare_ℤ, flip_top, be_bytes, length-be_bytes,
  cmp_keys-be_bytes, be_value-be_bytes,
}
use eavt_sql.Eavt.Keys.{
  encode_suffix, decode_suffix, encode_int, decode_int64, be_uint64, order_float, decode_float64,
}

-- A transaction number of 63 bits without a sign, and the retraction flag, come back.
pub decode_suffix-encode_suffix :
    (t : ℕ) (retracted : Bool)
    → t < 2 ^ 63
    → decode_suffix (encode_suffix (pos t) retracted) ≡ (pos t, retracted)
unfolding decode_suffix encode_suffix
decode_suffix-encode_suffix t retracted h = ground arith

flipped_order :
    (a b : ℤ)
    → IsInt64 a
    → IsInt64 b
    → compare (flip_top (u64 a)) (flip_top (u64 b)) ≡ compare_ℤ a b
flipped_order (pos a) (pos b) h k = ground arith
flipped_order (pos a) (negsuc b) h k = ground arith
flipped_order (negsuc a) (pos b) h k = ground arith
flipped_order (negsuc a) (negsuc b) h k = ground arith

-- The bytes of two 64-bit integers compare as the integers do, negative ones included.
pub cmp_keys-encode_int :
    (a b : ℤ) → IsInt64 a → IsInt64 b → cmp_keys (encode_int a) (encode_int b) ≡ compare_ℤ a b
unfolding encode_int
cmp_keys-encode_int a b h k =
    cmp_keys-be_bytes 8 (flip_top (u64 a)) (flip_top (u64 b)) (omega arith) (omega arith)
    ∙ flipped_order a b h k

i64-flipped : (n : ℤ) → IsInt64 n → i64 (flip_top (flip_top (u64 n))) ≡ n
i64-flipped (pos n) h = ground arith
i64-flipped (negsuc n) h = ground arith

pub be_uint64-be_bytes :
    (x : ℕ) (rest : Bytes) → x < 2 ^ 64 → be_uint64 (be_bytes 8 x ++ rest) 0 ≡ some x
unfolding be_uint64
be_uint64-be_bytes x rest h = rw (take_of_length 8 (be_bytes 8 x) rest (length-be_bytes 8 x)) (
    ground (
      arith,
      length-append (be_bytes 8 x) rest,
      length-be_bytes 8 x,
      be_value-be_bytes (2 ^ 64) 8 x h (omega arith),
    ))

-- The eight bytes of an encoded integer are read back, whatever follows them, and give the integer.
pub decode_int64-encode_int :
    (n : ℤ) (rest : Bytes)
    → IsInt64 n
    → (raw : ℕ) × (be_uint64 (encode_int n ++ rest) 0 ≡ some raw) × (decode_int64 raw ≡ n)
unfolding encode_int decode_int64
decode_int64-encode_int n rest h =
    let x = flip_top (u64 n) in (x, be_uint64-be_bytes x rest (omega arith), i64-flipped n h)

-- A float's pattern comes back from its ordered form, whatever the sign.
pub decode_float64-order_float : (x : ℕ) → x < 2 ^ 64 → decode_float64 (order_float x) ≡ x
unfolding decode_float64 order_float
decode_float64-order_float x h = ground arith
