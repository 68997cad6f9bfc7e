-- ===== src/Msgpack/Value.antt =====
-- The nodes of go/internal/msgpack/msgpack.go, `Equal` and `Member`. A string is its bytes, and a
-- float its 64-bit pattern.
use eavt_sql.Prelude.{
  ℕ, suc, ◌*◌, ◌%◌, ◌^◌, Bool, true, false, not, ◌&&◌, ◌||◌, Option, none, some, ltb, ◌==◌, is_eq,
  if◌then◌else◌,
}
use eavt_sql.Bytes.Order.{Bytes, cmp_keys}
use eavt_sql.Bytes.Int.{ℤ, compare_ℤ}

mutual
  pub data Value : Type 0 where
    nil : Value
    bool : Bool → Value
    int : ℤ → Value
    float : ℕ → Value
    str : Bytes → Value
    bin : Bytes → Value
    array : Values → Value
    map : Pairs → Value
    ext : ℤ → Bytes → Value
    raw : Bytes → Value

  pub data Values : Type 0 where
    no_values : Values
    value : Value → Values → Values

  pub data Pairs : Type 0 where
    no_pairs : Pairs
    pair : Value → Value → Pairs → Pairs

-- `len(x)` of an array and of a map.
unfoldable pub count_values : Values → ℕ
count_values no_values = 0
count_values (value v vs) = suc (count_values vs)

unfoldable pub count_pairs : Pairs → ℕ
count_pairs no_pairs = 0
count_pairs (pair k v ps) = suc (count_pairs ps)

unfoldable pub equal_bytes : Bytes → Bytes → Bool
equal_bytes a b = is_eq (cmp_keys a b)

-- The `==` of two float64: no NaN equals anything, and the two zeros are equal.
unfoldable pub is_nan : ℕ → Bool
is_nan x = ltb (0x7ff * 2 ^ 52) (x % 2 ^ 63)

unfoldable pub equal_float : ℕ → ℕ → Bool
unfolding is_nan
equal_float x y =
    not (is_nan x) && not (is_nan y) && (x == y || (x % 2 ^ 63 == 0 && y % 2 ^ 63 == 0))

-- `Equal`: false on arrays, maps and raw bytes.
unfoldable pub equal : Value → Value → Bool
unfolding equal_bytes equal_float
equal (str a) (str b) = equal_bytes a b
equal (int a) (int b) = is_eq (compare_ℤ a b)
equal (bool true) (bool b) = b
equal (bool false) (bool b) = not b
equal nil nil = true
equal (float a) (float b) = equal_float a b
equal (bin a) (bin b) = equal_bytes a b
equal (ext s a) (ext t b) = is_eq (compare_ℤ s t) && equal_bytes a b
equal _ _ = false

unfoldable pub member : Pairs → Value → Option Value
unfolding equal
member no_pairs key = none
member (pair k v ps) key = let rest = member ps key in if equal k key then some v else rest
