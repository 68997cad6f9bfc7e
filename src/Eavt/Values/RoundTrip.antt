-- ===== src/Eavt/Values/RoundTrip.antt =====
-- A stored value decodes to the value that was encoded (keys.go).
use eavt_sql.Prelude.{
  ℕ, zero, suc, ◌≤◌, ◌^◌, ◌<◌, ◌≡◌, refl, ap, ◌∙◌, Bool, true, false, [], ◌∷◌, some, not, length,
  take, arith, append-nil,
}
use eavt_sql.Bytes.Order.{Bytes}
use eavt_sql.Bytes.Int.{ℤ, pos, u64, flip_top, IsInt64, be_bytes, be_value}
use eavt_sql.Eavt.Keys.{
  encode_int, encode_float, order_float, before_nul, encode_variable_unordered, be_uint32,
  be_uint64, decode_int64, decode_float64,
}
use eavt_sql.Eavt.Keys.Suffix.{
  decode_int64-encode_int, decode_float64-order_float, be_uint64-be_bytes,
}
use eavt_sql.Eavt.Keys.Variable.{decode_variable_str-encode_variable}
use eavt_sql.Eavt.Values.{
  Expr, int, float, bool, str, bytes, keyword, db_type_keyword, db_type_ref, db_type_long,
  db_type_instant, db_type_boolean, db_type_float, db_type_bytes, db_type_blob, db_type_string,
  stored_int, stored_float, stored_bytes, decode_stored_value, encode_fixed, encode_bound_value,
}

-- What a stored expression reads as under a value type: itself, but for a keyword, which is read as a
-- string, and an integer under db.type/float.
pub data ReadsAs : ℕ → Expr → Expr → Type 0 where
  long : (n : ℤ) → IsInt64 n → ReadsAs db_type_long (int n) (int n)
  instant : (n : ℤ) → IsInt64 n → ReadsAs db_type_instant (int n) (int n)
  reference : (n : ℤ) → IsInt64 n → ReadsAs db_type_ref (int n) (int n)
  floating : (x : ℕ) → x < 2 ^ 64 → ReadsAs db_type_float (float x) (float x)
  int_as_float : (n : ℕ) → n < 2 ^ 63 → ReadsAs db_type_float (int (pos n)) (float n)
  string : (s : Bytes) → before_nul s ≡ s → ReadsAs db_type_string (str s) (str s)
  keyword_name : (s : Bytes) → before_nul s ≡ s → ReadsAs db_type_keyword (str s) (str s)
  keyword_value : (s : Bytes) → before_nul s ≡ s → ReadsAs db_type_keyword (keyword s) (str s)
  raw_bytes : (bs : Bytes) → length bs < 2 ^ 32 → ReadsAs db_type_bytes (bytes bs) (bytes bs)
  blob : (bs : Bytes) → length bs < 2 ^ 32 → ReadsAs db_type_blob (bytes bs) (bytes bs)

stored_int-encode_int : (n : ℤ) → IsInt64 n → stored_int (encode_int n) ≡ n
unfolding stored_int
stored_int-encode_int n h =
    let r = decode_int64-encode_int n [] h in ground (arith, append-nil (encode_int n), r.1, r.2)

stored_float-encode_float : (x : ℕ) → x < 2 ^ 64 → stored_float (encode_float x) ≡ x
unfolding stored_float encode_float
stored_float-encode_float x h = ground (
  arith,
  append-nil (be_bytes 8 (order_float x)),
  be_uint64-be_bytes (order_float x) [] (unfold order_float in ground arith),
  decode_float64-order_float x h,
)

be_uint32-length :
    (bs : Bytes)
    → length bs < 2 ^ 32
    → be_uint32 (encode_variable_unordered bs) 0 ≡ some (length bs)
unfolding be_uint32 encode_variable_unordered be_bytes be_value
be_uint32-length bs h = ground arith

take_within : (n : ℕ) (bs : Bytes) → length bs ≤ n → take n bs ≡ bs
take_within zero [] h = refl
take_within zero (b ∷ bs) h = absurd (omega arith)
take_within (suc n) [] h = refl
take_within (suc n) (b ∷ bs) h = ap (◌∷◌ b) (take_within n bs (omega arith))

stored_bytes-unordered :
    (bs : Bytes) → length bs < 2 ^ 32 → stored_bytes (encode_variable_unordered bs) ≡ bs
unfolding stored_bytes
stored_bytes-unordered bs h =
    rw (be_uint32-length bs h, stored_bytes)
      (unfold encode_variable_unordered be_bytes in take_within _ bs (omega arith))

stored_float-encode_int : (n : ℕ) → n < 2 ^ 63 → stored_float (encode_int (pos n)) ≡ n
unfolding stored_float encode_int
stored_float-encode_int n h =
    let raw = flip_top (u64 (pos n)) in
    let decoded : decode_float64 raw ≡ n = unfold decode_float64 in ground (arith, h) in
    ground (arith, append-nil (be_bytes 8 raw), be_uint64-be_bytes raw [] (omega arith), decoded)

-- From the bytes of its bound a 64-bit integer is read back under long, instant and ref, a float
-- under float, fewer than 2 ^ 32 bytes under bytes and blob, a string without NUL under string and
-- keyword, and a keyword without NUL under keyword as the string of its name; a non-negative
-- integer under float is read as the float that has its bits.
pub decode_stored_value-encode_bound_value :
    (vt : ℕ) (e out : Expr) → ReadsAs vt e out → decode_stored_value (encode_bound_value e) vt ≡ out
unfolding decode_stored_value encode_bound_value encode_fixed
decode_stored_value-encode_bound_value _ _ _ (long n h) = ap int (stored_int-encode_int n h)
decode_stored_value-encode_bound_value _ _ _ (instant n h) = ap int (stored_int-encode_int n h)
decode_stored_value-encode_bound_value _ _ _ (reference n h) = ap int (stored_int-encode_int n h)
decode_stored_value-encode_bound_value _ _ _ (floating x h) =
    ap float (stored_float-encode_float x h)
decode_stored_value-encode_bound_value _ _ _ (int_as_float n h) =
    ap float (stored_float-encode_int n h)
decode_stored_value-encode_bound_value _ _ _ (string s h) =
    ap str (decode_variable_str-encode_variable s ∙ h)
decode_stored_value-encode_bound_value _ _ _ (keyword_name s h) =
    ap str (decode_variable_str-encode_variable s ∙ h)
decode_stored_value-encode_bound_value _ _ _ (keyword_value s h) =
    ap str (decode_variable_str-encode_variable s ∙ h)
decode_stored_value-encode_bound_value _ _ _ (raw_bytes bs h) =
    ap bytes (stored_bytes-unordered bs h)
decode_stored_value-encode_bound_value _ _ _ (blob bs h) = ap bytes (stored_bytes-unordered bs h)

-- The bound of a boolean is read back as the other boolean.
pub decode_stored_value-bool :
    (b : Bool) → decode_stored_value (encode_bound_value (bool b)) db_type_boolean ≡ bool (not b)
unfolding decode_stored_value encode_bound_value encode_fixed stored_int be_uint64 be_value
    decode_int64
decode_stored_value-bool true = refl
decode_stored_value-bool false = refl
