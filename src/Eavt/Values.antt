-- ===== src/Eavt/Values.antt =====
-- Values of expressions and their stored bytes: `DecodeStoredValue`, `EncodeFixed` and
-- `EncodeBoundValue` (go/internal/eavt/keys.go), `ValueTypeToEncodeMode` (eavt.go), the value types
-- (resolver.go) and the expressions (sexpr/sexpr.go). A float is its 64-bit pattern.
pub mod RoundTrip
use eavt_sql.Prelude.{
  ℕ, ◌+◌, ◌-◌, ◌*◌, ◌^◌, Bool, true, false, List, [], ◌∷◌, Option, none, some, leb, ◌==◌, not, ◌||◌,
  min, if◌then◌else◌, length, take, drop, replicate,
}
use eavt_sql.Bytes.Order.{Bytes}
use eavt_sql.Bytes.Int.{ℤ, pos, negsuc, be_bytes}
use eavt_sql.Eavt.Keys.{
  EncodeMode, ref, variable, blob, fixed, encode_int, encode_float, encode_variable,
  encode_variable_unordered, be_uint64, be_uint32, decode_int64, decode_float64,
  decode_variable_str,
}

mutual
  pub data Expr : Type 0 where
    int : ℤ → Expr
    float : ℕ → Expr
    str : Bytes → Expr
    bool : Bool → Expr
    void : Expr
    bytes : Bytes → Expr
    symbol : Bytes → Expr
    keyword : Bytes → Expr
    list : Exprs → Expr
    resource : ℤ → Expr

  pub data Exprs : Type 0 where
    nil : Exprs
    cons : Expr → Exprs → Exprs

abbrev pub db_type_string : ℕ
db_type_string = 20

abbrev pub db_type_ref : ℕ
db_type_ref = 21

abbrev pub db_type_long : ℕ
db_type_long = 22

abbrev pub db_type_keyword : ℕ
db_type_keyword = 23

abbrev pub db_type_boolean : ℕ
db_type_boolean = 24

abbrev pub db_type_instant : ℕ
db_type_instant = 25

abbrev pub db_type_bytes : ℕ
db_type_bytes = 26

abbrev pub db_type_float : ℕ
db_type_float = 27

abbrev pub db_type_blob : ℕ
db_type_blob = 28

unfoldable pub value_type_to_encode_mode : ℕ → EncodeMode
value_type_to_encode_mode vt =
    if vt == db_type_ref
    then ref
    else if vt == db_type_string || vt == db_type_keyword
    then variable
    else if vt == db_type_boolean
        || vt == db_type_long
        || vt == db_type_instant
        || vt == db_type_float
    then fixed
    else if vt == db_type_bytes || vt == db_type_blob
    then blob
    else variable

-- The first eight bytes, if there are so many; the source tests the length before it reads.
unfoldable pub stored_int : Bytes → ℤ
unfolding be_uint64 decode_int64
stored_int bs = elim (be_uint64 bs 0) [ none ↦ pos 0 | some raw ↦ decode_int64 raw ]

unfoldable pub stored_float : Bytes → ℕ
unfolding be_uint64 decode_float64
stored_float bs = elim (be_uint64 bs 0) [ none ↦ 0 | some raw ↦ decode_float64 raw ]

unfoldable pub stored_bytes : Bytes → Bytes
unfolding be_uint32
stored_bytes bs = elim (be_uint32 bs 0) [
  | none ↦ []
  | some n ↦ take (min n (length bs - 4)) (drop 4 bs)
]

abbrev pub is_zero : ℤ → Bool
is_zero (pos n) = n == 0
is_zero (negsuc n) = false

unfoldable pub decode_stored_value : Bytes → ℕ → Expr
unfolding stored_int stored_float stored_bytes decode_variable_str
decode_stored_value bs vt =
    if vt == db_type_ref
    then int (stored_int bs)
    else if vt == db_type_boolean
    then bool (not (is_zero (stored_int bs)))
    else if vt == db_type_long || vt == db_type_instant
    then int (stored_int bs)
    else if vt == db_type_float
    then float (stored_float bs)
    else if vt == db_type_bytes || vt == db_type_blob
    then bytes (stored_bytes bs)
    else str (decode_variable_str bs 0)

-- Any other expression is eight zero bytes.
unfoldable pub encode_fixed : Expr → Bytes
unfolding encode_int encode_float
encode_fixed (int n) = encode_int n
encode_fixed (float x) = encode_float x
encode_fixed (bool true) = 0x80 ∷ replicate 7 0
encode_fixed _ = replicate 8 0

unfoldable pub encode_bound_value : Expr → Bytes
unfolding encode_variable encode_variable_unordered encode_fixed
encode_bound_value (str s) = encode_variable s
encode_bound_value (keyword s) = encode_variable s
encode_bound_value (bytes bs) = encode_variable_unordered bs
encode_bound_value e = encode_fixed e
