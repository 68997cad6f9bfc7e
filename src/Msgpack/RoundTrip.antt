-- ===== src/Msgpack/RoundTrip.antt =====
-- An encoded value is read back (msgpack.go).
use eavt_sql.Prelude.{
  ℕ, suc, ◌≤◌, ◌≡◌, refl, ap, ◌∙◌, sym, [], ◌++◌, length, arith, length-append, append-nil,
}
use eavt_sql.Msgpack.Value.{
  Value, Values, Pairs, nil, bool, int, float, str, bin, array, map, ext, raw, no_values, value,
  no_pairs, pair, count_values, count_pairs,
}
use eavt_sql.Msgpack.Encode.{
  encode_array_header, encode_map_header, encode, encode_values, encode_pairs, marshal,
}
use eavt_sql.Msgpack.Decode.{ok, decode_value, unmarshal}
use eavt_sql.Msgpack.Wire.{IsWire, depth, depth_values, depth_pairs}
use eavt_sql.Msgpack.Whole.{decode_value-encode}

length-array_header : (n : ℕ) → 1 ≤ length (encode_array_header n)
unfolding encode_array_header
length-array_header n = ground arith

length-map_header : (n : ℕ) → 1 ≤ length (encode_map_header n)
unfolding encode_map_header
length-map_header n = ground arith

-- An encoding has a byte for each level of nesting.
mutual
  unfolding depth encode

  depth-le : (v : Value) → depth v ≤ length (encode v)
  depth-le (array vs) = omega (
    arith,
    length-append (encode_array_header (count_values vs)) (encode_values vs),
    length-array_header (count_values vs),
    depth_values-le vs,
  )
  depth-le (map ps) = omega (
    arith,
    length-append (encode_map_header (count_pairs ps)) (encode_pairs ps),
    length-map_header (count_pairs ps),
    depth_pairs-le ps,
  )
  depth-le nil = omega arith
  depth-le (bool b) = omega arith
  depth-le (int n) = omega arith
  depth-le (float x) = omega arith
  depth-le (str s) = omega arith
  depth-le (bin b) = omega arith
  depth-le (ext ty bs) = omega arith
  depth-le (raw bs) = omega arith

  depth_values-le : (vs : Values) → depth_values vs ≤ length (encode_values vs)
  depth_values-le no_values = omega arith
  depth_values-le (value v vs) =
      omega (arith, length-append (encode v) (encode_values vs), depth-le v, depth_values-le vs)

  depth_pairs-le : (ps : Pairs) → depth_pairs ps ≤ length (encode_pairs ps)
  depth_pairs-le no_pairs = omega arith
  depth_pairs-le (pair k v ps) = omega (
    arith,
    length-append (encode k) (encode v ++ encode_pairs ps),
    length-append (encode v) (encode_pairs ps),
    depth-le k,
    depth-le v,
    depth_pairs-le ps,
  )

-- A value that the format can hold is read back from its encoding, and nothing is left over.
pub unmarshal-marshal :
    (float64_of_float32 : ℕ → ℕ) (v : Value)
    → IsWire v
    → unmarshal float64_of_float32 (marshal v) ≡ ok v
unfolding unmarshal marshal
unmarshal-marshal widen v w =
    let read : decode_value widen (suc (length (encode v))) (encode v) ≡ ok (v, []) =
      ap (decode_value widen (suc (length (encode v)))) (sym (append-nil (encode v)))
      ∙ decode_value-encode widen v (suc (length (encode v))) [] w (omega (arith, depth-le v)) in
    rw read refl
