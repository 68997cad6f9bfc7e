-- ===== src/Eavt/Keys.antt =====
-- go/internal/eavt/keys.go: value encodings, the suffix, and the keys of the four indexes. A string
-- is its bytes, and a float its 64-bit pattern.
pub mod Suffix
pub mod Entries
pub mod Variable
use eavt_sql.Prelude.{
  ℕ, zero, suc, ◌+◌, ◌-◌, ◌*◌, ◌/◌, ◌%◌, ◌^◌, ◌≤◌, ◌<◌, Bool, true, false, List, [], ◌∷◌, ◌++◌,
  Option, none, some, ltb, leb, ◌==◌, if◌then◌else◌, length, take, drop, get_or, replicate,
}
use eavt_sql.Bytes.Order.{Bytes}
use eavt_sql.Bytes.Int.{ℤ, pos, negsuc, u64, i64, flip_top, be_bytes, be_value}

pub data EncodeMode : Type 0 where
  ref variable blob fixed : EncodeMode

unfoldable pub encode_suffix : ℤ → Bool → ℕ
encode_suffix t retracted = u64 t * 2 % 2 ^ 64 + (if retracted then 1 else 0)

unfoldable pub decode_suffix : ℕ → ℤ × Bool
decode_suffix encoded = (i64 (encoded / 2), encoded % 2 == 1)

unfoldable pub encode_int : ℤ → Bytes
unfolding be_bytes
encode_int n = be_bytes 8 (flip_top (u64 n))

unfoldable pub encode_eid : ℤ → Bytes
unfolding encode_int
encode_eid eid = encode_int eid

-- A negative float has all its bits flipped, another one the sign bit.
unfoldable pub order_float : ℕ → ℕ
order_float x = if x / 2 ^ 63 == 1 then 2 ^ 64 - 1 - x else flip_top x

unfoldable pub encode_float : ℕ → Bytes
unfolding be_bytes order_float
encode_float x = be_bytes 8 (order_float x)

-- `s[:firstNul(s)]`.
unfoldable pub before_nul : Bytes → Bytes
before_nul [] = []
before_nul (b ∷ bs) = let rest = before_nul bs in if b == 0 then [] else b ∷ rest

-- Blocks of eight bytes and a control byte. The fuel is the length.
unfoldable pub encode_blocks : ℕ → Bytes → Bytes
encode_blocks zero s = []
encode_blocks (suc fuel) [] = []
encode_blocks (suc fuel) (b ∷ bs) =
    let more = encode_blocks fuel (drop 8 (b ∷ bs)) in
    if ltb 8 (length (b ∷ bs))
    then take 8 (b ∷ bs) ++ 0xff ∷ more
    else (b ∷ bs) ++ replicate (8 - length (b ∷ bs)) 0 ++ length (b ∷ bs) ∷ []

unfoldable pub encode_variable : Bytes → Bytes
unfolding before_nul encode_blocks
encode_variable s = encode_blocks (length (before_nul s)) (before_nul s)

unfoldable pub encode_variable_unordered : Bytes → Bytes
unfolding be_bytes
encode_variable_unordered s = be_bytes 4 (length s % 2 ^ 32) ++ s

-- The last pieces of the four key builders.
unfoldable pub suffix_bytes : ℤ → Bool → Bytes
unfolding encode_suffix be_bytes
suffix_bytes t retracted = be_bytes 8 (encode_suffix t retracted)

unfoldable pub build_eavt_key : ℤ → ℕ → Bytes → ℤ → Bool → Bytes
unfolding encode_eid suffix_bytes
build_eavt_key eid attr value t retracted =
    encode_eid eid ++ (be_bytes 4 attr ++ (value ++ suffix_bytes t retracted))

unfoldable pub build_aevt_key : ℕ → ℤ → Bytes → ℤ → Bool → Bytes
unfolding encode_eid suffix_bytes
build_aevt_key attr eid value t retracted =
    be_bytes 4 attr ++ (encode_eid eid ++ (value ++ suffix_bytes t retracted))

unfoldable pub build_avet_key : ℕ → Bytes → ℤ → ℤ → Bool → Bytes
unfolding encode_eid suffix_bytes
build_avet_key attr value eid t retracted =
    be_bytes 4 attr ++ (value ++ (encode_eid eid ++ suffix_bytes t retracted))

unfoldable pub build_vaet_key : Bytes → ℕ → ℤ → ℤ → Bool → Bytes
unfolding encode_eid suffix_bytes
build_vaet_key value attr eid t retracted =
    value ++ (be_bytes 4 attr ++ (encode_eid eid ++ suffix_bytes t retracted))

pub record EavtEntry : Type 0 where
  pub cf : ℕ
  pub key : Bytes

-- `copy(p[off:], bs)`: the bytes that fit are written over those from `off` on.
unfoldable pub copy_at : ℕ → Bytes → Bytes → Bytes
copy_at off bs p = take off p ++ take (length p - off) bs ++ drop (off + length bs) p

abbrev store_be64 : ℕ → ℕ → Bytes → Bytes
store_be64 off v p = copy_at off (be_bytes 8 v) p

abbrev store_be32 : ℕ → ℕ → Bytes → Bytes
store_be32 off v p = copy_at off (be_bytes 4 v) p

-- One buffer for each entry, filled from left to right by the stores of `BuildEavtEntries`.
module _ (ex attr : ℕ) (value : Bytes) (sf : ℕ) where
  unfoldable pub eavt_entry : EavtEntry
  unfolding copy_at
  eavt_entry =
      let vlen = length value in
      let p0 = replicate (8 + 4 + vlen + 8) 0 in
      let p1 = store_be64 0 ex p0 in
      let p2 = store_be32 8 attr p1 in
      let p3 = copy_at 12 value p2 in record { cf = 0; key = store_be64 (12 + vlen) sf p3 }

  unfoldable pub aevt_entry : EavtEntry
  unfolding copy_at
  aevt_entry =
      let vlen = length value in
      let p0 = replicate (8 + 4 + vlen + 8) 0 in
      let p1 = store_be32 0 attr p0 in
      let p2 = store_be64 4 ex p1 in
      let p3 = copy_at 12 value p2 in record { cf = 1; key = store_be64 (12 + vlen) sf p3 }

  unfoldable pub avet_entry : EavtEntry
  unfolding copy_at
  avet_entry =
      let vlen = length value in
      let p0 = replicate (8 + 4 + vlen + 8) 0 in
      let p1 = store_be32 0 attr p0 in
      let p2 = copy_at 4 value p1 in
      let p3 = store_be64 (4 + vlen) ex p2 in record { cf = 2; key = store_be64 (12 + vlen) sf p3 }

  unfoldable pub vaet_entry : EavtEntry
  unfolding copy_at
  vaet_entry =
      let vlen = length value in
      let p0 = replicate (8 + 4 + vlen + 8) 0 in
      let p1 = copy_at 0 value p0 in
      let p2 = store_be32 vlen attr p1 in
      let p3 = store_be64 (vlen + 4) ex p2 in record { cf = 3; key = store_be64 (vlen + 12) sf p3 }

  unfoldable pub index_entries : EncodeMode → Bool → List EavtEntry
  unfolding vaet_entry avet_entry
  index_entries ref true = vaet_entry ∷ avet_entry ∷ []
  index_entries ref false = vaet_entry ∷ []
  index_entries _ true = avet_entry ∷ []
  index_entries _ false = []

unfoldable pub build_eavt_entries : ℤ → ℕ → Bytes → ℤ → Bool → EncodeMode → Bool → List EavtEntry
unfolding eavt_entry aevt_entry index_entries encode_suffix
build_eavt_entries eid attr value t retracted mode indexed =
    let ex = flip_top (u64 eid) in
    let sf = encode_suffix t retracted in
    eavt_entry ex attr value sf
    ∷ aevt_entry ex attr value sf
    ∷ index_entries ex attr value sf mode indexed

unfoldable pub decode_int64 : ℕ → ℤ
decode_int64 raw = i64 (flip_top raw)

unfoldable pub decode_eid : ℕ → ℤ
unfolding decode_int64
decode_eid raw = decode_int64 raw

unfoldable pub decode_float64 : ℕ → ℕ
decode_float64 raw = if raw / 2 ^ 63 == 1 then flip_top raw else 2 ^ 64 - 1 - raw

-- `none` is the panic of an index out of range.
unfoldable pub be_uint64 : Bytes → ℕ → Option ℕ
unfolding be_value
be_uint64 bs start =
    if ltb (length bs) (start + 8)
    then none
    else some (be_value (2 ^ 64) 0 (take 8 (drop start bs)))

unfoldable pub be_uint32 : Bytes → ℕ → Option ℕ
unfolding be_value
be_uint32 bs start =
    if ltb (length bs) (start + 4)
    then none
    else some (be_value (2 ^ 32) 0 (take 4 (drop start bs)))

-- The loop over blocks; the fuel is the length. A control byte below 8 cuts the last block.
unfoldable pub decode_blocks : ℕ → Bytes → Bytes
decode_blocks zero bs = []
decode_blocks (suc fuel) bs =
    let more = decode_blocks fuel (drop 9 bs) in
    let control = get_or bs 8 0 in
    if ltb (length bs) 9
    then []
    else (if control == 0xff
        then take 8 bs ++ more
        else (if ltb control 8 then take control (take 8 bs) else take 8 bs))

unfoldable pub decode_variable_str : Bytes → ℕ → Bytes
unfolding decode_blocks
decode_variable_str bs start = decode_blocks (length bs) (drop start bs)
