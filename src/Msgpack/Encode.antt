-- ===== src/Msgpack/Encode.antt =====
-- The encoder of go/internal/msgpack/msgpack.go. An `int64` is an integer in its range, a length an
-- `int` below 2 ^ 63, cut to 32 bits in the widest header.
use eavt_sql.Prelude.{
  ℕ, ◌+◌, ◌-◌, ◌%◌, ◌^◌, true, false, [], ◌∷◌, ◌++◌, leb, ◌==◌, if◌then◌else◌, length,
}
use eavt_sql.Bytes.Order.{Bytes}
use eavt_sql.Bytes.Int.{ℤ, pos, negsuc, u64, be_bytes}
use eavt_sql.Msgpack.Value.{
  Value, Values, Pairs, nil, bool, int, float, str, bin, array, map, ext, raw, no_values, value,
  no_pairs, pair, count_values, count_pairs,
}

unfoldable pub encode_int : ℤ → Bytes
unfolding be_bytes
encode_int (pos n) =
    if leb n 0x7f
    then n ∷ []
    else if leb n 0xff
    then 0xcc ∷ n ∷ []
    else if leb n 0xffff
    then 0xcd ∷ be_bytes 2 n
    else if leb n 0xffffffff
    then 0xce ∷ be_bytes 4 n
    else 0xd3 ∷ be_bytes 8 n
encode_int (negsuc n) =
    if leb n 31
    then (255 - n) ∷ []
    else if leb n 127
    then 0xd0 ∷ (255 - n) ∷ []
    else if leb n 32767
    then 0xd1 ∷ be_bytes 2 (2 ^ 16 - 1 - n)
    else if leb n (2 ^ 31 - 1)
    then 0xd2 ∷ be_bytes 4 (2 ^ 32 - 1 - n)
    else 0xd3 ∷ be_bytes 8 (u64 (negsuc n))

-- The headers of `encodeStr` and `encodeBin`.
unfoldable pub str_header : ℕ → Bytes
unfolding be_bytes
str_header n =
    if leb n 31
    then (0xa0 + n) ∷ []
    else if leb n 0xff
    then 0xd9 ∷ n ∷ []
    else if leb n 0xffff
    then 0xda ∷ be_bytes 2 n
    else 0xdb ∷ be_bytes 4 (n % 2 ^ 32)

unfoldable pub bin_header : ℕ → Bytes
unfolding be_bytes
bin_header n =
    if leb n 0xff
    then 0xc4 ∷ n ∷ []
    else if leb n 0xffff
    then 0xc5 ∷ be_bytes 2 n
    else 0xc6 ∷ be_bytes 4 (n % 2 ^ 32)

unfoldable pub encode_str : Bytes → Bytes
unfolding str_header
encode_str s = str_header (length s) ++ s

unfoldable pub encode_bin : Bytes → Bytes
unfolding bin_header
encode_bin b = bin_header (length b) ++ b

unfoldable pub encode_array_header : ℕ → Bytes
unfolding be_bytes
encode_array_header n =
    if leb n 15
    then (0x90 + n) ∷ []
    else if leb n 0xffff
    then 0xdc ∷ be_bytes 2 n
    else 0xdd ∷ be_bytes 4 (n % 2 ^ 32)

unfoldable pub encode_map_header : ℕ → Bytes
unfolding be_bytes
encode_map_header n =
    if leb n 15
    then (0x80 + n) ∷ []
    else if leb n 0xffff
    then 0xde ∷ be_bytes 2 n
    else 0xdf ∷ be_bytes 4 (n % 2 ^ 32)

-- The bytes in front of the type of an extension of `n` bytes.
unfoldable pub ext_header : ℕ → Bytes
unfolding be_bytes
ext_header n =
    if n == 1
    then 0xd4 ∷ []
    else if n == 2
    then 0xd5 ∷ []
    else if n == 4
    then 0xd6 ∷ []
    else if n == 8
    then 0xd7 ∷ []
    else if n == 16
    then 0xd8 ∷ []
    else if leb n 0xff
    then 0xc7 ∷ n ∷ []
    else if leb n 0xffff
    then 0xc8 ∷ be_bytes 2 n
    else 0xc9 ∷ be_bytes 4 (n % 2 ^ 32)

unfoldable pub encode_ext : ℤ → Bytes → Bytes
unfolding ext_header
encode_ext ty bs = ext_header (length bs) ++ (u64 ty % 256) ∷ bs

unfoldable mutual
  unfolding encode_int encode_str encode_bin encode_array_header encode_map_header encode_ext
      count_values count_pairs be_bytes

  pub encode : Value → Bytes
  encode nil = 0xc0 ∷ []
  encode (bool true) = 0xc3 ∷ []
  encode (bool false) = 0xc2 ∷ []
  encode (int n) = encode_int n
  encode (float x) = 0xcb ∷ be_bytes 8 x
  encode (str s) = encode_str s
  encode (bin b) = encode_bin b
  encode (array vs) = encode_array_header (count_values vs) ++ encode_values vs
  encode (map ps) = encode_map_header (count_pairs ps) ++ encode_pairs ps
  encode (ext ty bs) = encode_ext ty bs
  encode (raw bs) = bs

  pub encode_values : Values → Bytes
  encode_values no_values = []
  encode_values (value v vs) = encode v ++ encode_values vs

  pub encode_pairs : Pairs → Bytes
  encode_pairs no_pairs = []
  encode_pairs (pair k v ps) = encode k ++ (encode v ++ encode_pairs ps)

unfoldable pub marshal : Value → Bytes
unfolding encode
marshal v = encode v
