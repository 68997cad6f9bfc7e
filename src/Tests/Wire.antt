-- ===== src/Tests/Wire.antt =====
-- go/internal/msgpack at concrete inputs.
use eavt_sql.Prelude.{◌≡◌, ◌≢◌, refl, true, some, [], ◌∷◌, arith}
use eavt_sql.Bytes.Int.{pos, negsuc}
use eavt_sql.Msgpack.Value.{
  Pairs, nil, bool, int, str, array, map, no_values, value, no_pairs, pair, count_values,
  count_pairs,
}
use eavt_sql.Bytes.Order.{Bytes}
use eavt_sql.Msgpack.Encode.{marshal}
use eavt_sql.Msgpack.Decode.{ok, err, truncated, panic, out_of_fuel, unmarshal}
use eavt_sql.Msgpack.RoundTrip.{unmarshal-marshal}
use eavt_sql.Msgpack.Wire.{IsWire}
use eavt_sql.Msgpack.Inject.{inject_top_pair, snoc_pair, inject_top_pair-marshal}
use eavt_sql.Msgpack.Total.{unmarshal-ends}

-- `{1: "hi", nil: [-33, true]}`.
abbrev some_pairs : Pairs
some_pairs =
    pair (int (pos 1)) (str (b'h' ∷ b'i' ∷ []))
      (pair nil (array (value (int (negsuc 32)) (value (bool true) no_values))) no_pairs)

some_bytes :
    marshal (map some_pairs)
    ≡ 0x82 ∷ 0x01 ∷ 0xa2 ∷ b'h' ∷ b'i' ∷ 0xc0 ∷ 0x92 ∷ 0xd0 ∷ 0xdf ∷ 0xc3 ∷ []
unfolding marshal
some_bytes = refl

unmarshal-marshal_example : unmarshal (λ n. n) (marshal (map some_pairs)) ≡ ok (map some_pairs)
unfolding IsWire count_values count_pairs
unmarshal-marshal_example =
    unmarshal-marshal (λ n. n) (map some_pairs)
      (omega arith, (omega arith, omega arith, (tt, (omega arith, (omega arith, (tt, tt))), tt)))

inject_top_pair-marshal_example :
    inject_top_pair (marshal (map some_pairs)) (b'k' ∷ []) (b'v' ∷ [])
    ≡ some (marshal (map (snoc_pair some_pairs (str (b'k' ∷ [])) (str (b'v' ∷ [])))))
unfolding count_pairs
inject_top_pair-marshal_example =
    inject_top_pair-marshal some_pairs (b'k' ∷ []) (b'v' ∷ []) (omega arith) (omega arith)
      (omega arith)

-- An array of two values, whose second is a string that promises more than there is.
abbrev short_string : Bytes
short_string = 0x92 ∷ 1 ∷ 0xd9 ∷ 3 ∷ b'h' ∷ b'i' ∷ []

short_string_is_truncated : unmarshal (λ n. n) short_string ≡ err truncated
unfolding unmarshal
short_string_is_truncated = refl

unmarshal-ends_example :
    (unmarshal (λ n. n) short_string ≢ out_of_fuel) × (unmarshal (λ n. n) short_string ≢ panic)
unmarshal-ends_example = unmarshal-ends (λ n. n) short_string
