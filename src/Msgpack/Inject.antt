-- ===== src/Msgpack/Inject.antt =====
-- `InjectTopPair` (go/internal/msgpack/scan.go): a pair is added to an encoded map.
use eavt_sql.Prelude.{
  ℕ, suc, ◌+◌, ◌-◌, ◌*◌, ◌/◌, ◌%◌, ◌^◌, ◌<◌, ◌≡◌, refl, ap, ◌&&◌, Option, none, some, [], ◌∷◌, ◌++◌,
  ltb, leb, ◌==◌, if◌then◌else◌, length, get_or, drop, arith, append_assoc, append-nil,
}
use eavt_sql.Bytes.Order.{Bytes}
use eavt_sql.Msgpack.Value.{Value, Pairs, str, map, no_pairs, pair, count_pairs}
use eavt_sql.Msgpack.Encode.{encode_map_header, encode_str, encode, encode_pairs, marshal}

-- The number of pairs and the length of the header.
unfoldable pub map_count_and_header_len : Bytes → Option (ℕ × ℕ)
map_count_and_header_len [] = none
map_count_and_header_len (b ∷ bs) =
    if leb 0x80 b && leb b 0x8f
    then some (b % 16, 1)
    else if b == 0xde
    then (if ltb (length bs) 2 then none else some (get_or bs 0 0 * 2 ^ 8 + get_or bs 1 0, 3))
    else if b == 0xdf
    then (if ltb (length bs) 4
        then none
        else some (
          get_or bs 0 0 * 2 ^ 24 + get_or bs 1 0 * 2 ^ 16 + get_or bs 2 0 * 2 ^ 8 + get_or bs 3 0,
          5,
        ))
    else none

-- `encodeStr` of this file.
unfoldable pub scan_encode_str : Bytes → Bytes
scan_encode_str s =
    let n = length s in
    if ltb n 32
    then (0xa0 + n) ∷ s
    else if leb n 0xff
    then 0xd9 ∷ n ∷ s
    else if leb n 0xffff
    then 0xda ∷ (n / 2 ^ 8 % 256) ∷ (n % 256) ∷ s
    else 0xdb ∷ (n / 2 ^ 24 % 256) ∷ (n / 2 ^ 16 % 256) ∷ (n / 2 ^ 8 % 256) ∷ (n % 256) ∷ s

-- The header for one pair more; `none` is the error of a full map32.
unfoldable pub grown_header : ℕ → ℕ → Option Bytes
grown_header count hdr =
    if hdr == 1
    then some (if ltb count 15 then (0x80 + (count + 1)) ∷ [] else 0xde ∷ 0x00 ∷ 0x10 ∷ [])
    else if hdr == 3
    then some (
        if ltb count 0xffff
        then 0xde ∷ ((count + 1) / 2 ^ 8 % 256) ∷ ((count + 1) % 256) ∷ []
        else 0xdf ∷ 0x00 ∷ 0x01 ∷ 0x00 ∷ 0x00 ∷ [])
    else if count == 2 ^ 32 - 1
    then none
    else some (
        0xdf
        ∷ ((count + 1) / 2 ^ 24 % 256)
        ∷ ((count + 1) / 2 ^ 16 % 256)
        ∷ ((count + 1) / 2 ^ 8 % 256)
        ∷ ((count + 1) % 256)
        ∷ [])

unfoldable pub inject_top_pair : Bytes → Bytes → Bytes → Option Bytes
unfolding map_count_and_header_len grown_header scan_encode_str
inject_top_pair raw key val = elim (map_count_and_header_len raw) [
  | none ↦ none
  | some p ↦ elim (grown_header p.0 p.1) [
    | none ↦ none
    | some header ↦ some (header ++ (drop p.1 raw ++ (scan_encode_str key ++ scan_encode_str val)))
  ]
]

-- A pair at the end.
unfoldable pub snoc_pair : Pairs → Value → Value → Pairs
snoc_pair no_pairs k v = pair k v no_pairs
snoc_pair (pair a b ps) k v = pair a b (snoc_pair ps k v)

count_pairs-snoc_pair :
    (ps : Pairs) (k v : Value) → count_pairs (snoc_pair ps k v) ≡ suc (count_pairs ps)
unfolding count_pairs snoc_pair
count_pairs-snoc_pair no_pairs k v = refl
count_pairs-snoc_pair (pair a b ps) k v = ap suc (count_pairs-snoc_pair ps k v)

encode_pairs-snoc_pair :
    (ps : Pairs) (k v : Value)
    → encode_pairs (snoc_pair ps k v) ≡ encode_pairs ps ++ (encode k ++ encode v)
unfolding encode snoc_pair
encode_pairs-snoc_pair no_pairs k v = ap (λ x. encode k ++ x) (append-nil (encode v))
encode_pairs-snoc_pair (pair a b ps) k v =
    rw
      (
        encode_pairs-snoc_pair ps k v,
        append_assoc (encode a) (encode b ++ encode_pairs ps) (encode k ++ encode v),
        append_assoc (encode b) (encode_pairs ps) (encode k ++ encode v),
      )
      refl

scan_encode_str-encode_str : (s : Bytes) → length s < 2 ^ 32 → scan_encode_str s ≡ encode_str s
unfolding scan_encode_str encode_str
scan_encode_str-encode_str s h = ground arith

-- The header that is read off an encoded map, and what is left of it.
module _ (n : ℕ) (body : Bytes) (h : n + 1 < 2 ^ 32) where
  abbrev header_length : ℕ
  header_length = if leb n 15 then 1 else if leb n 0xffff then 3 else 5

  read_header : map_count_and_header_len (encode_map_header n ++ body) ≡ some (n, header_length)
  unfolding map_count_and_header_len encode_map_header
  read_header = ground arith

  drop_header : drop header_length (encode_map_header n ++ body) ≡ body
  unfolding encode_map_header
  drop_header = ground arith

  grown : grown_header n header_length ≡ some (encode_map_header (n + 1))
  unfolding grown_header encode_map_header
  grown = ground arith

-- Adding a pair to an encoded map of fewer than 2 ^ 32 - 1 pairs gives, byte for byte, the encoding
-- of the map with the pair at its end; the key and the value are shorter than 2 ^ 32 bytes.
pub inject_top_pair-marshal :
    (ps : Pairs) (key val : Bytes)
    → count_pairs ps + 1 < 2 ^ 32
    → length key < 2 ^ 32
    → length val < 2 ^ 32
    → inject_top_pair (marshal (map ps)) key val
      ≡ some (marshal (map (snoc_pair ps (str key) (str val))))
unfolding inject_top_pair marshal encode
inject_top_pair-marshal ps key val h kh vh =
    let n = count_pairs ps in
    let counted : count_pairs (snoc_pair ps (str key) (str val)) ≡ n + 1 =
      omega (arith, count_pairs-snoc_pair ps (str key) (str val)) in
    rw
      (
        inject_top_pair,
        marshal,
        encode,
        read_header n (encode_pairs ps) h,
        grown n (encode_pairs ps) h,
        drop_header n (encode_pairs ps) h,
        scan_encode_str-encode_str key kh,
        scan_encode_str-encode_str val vh,
        counted,
        encode_pairs-snoc_pair ps (str key) (str val),
      )
      refl
