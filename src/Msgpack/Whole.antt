-- ===== src/Msgpack/Whole.antt =====
-- Decoding one value behind its header, for each kind of value (msgpack.go).
use eavt_sql.Prelude.{
  ◌*◌, ℕ, zero, suc, ◌%◌, ◌^◌, ◌<◌, ◌≡◌, refl, ◌∙◌, true, false, ltb, [], ◌∷◌, ◌++◌, length, arith,
  append_assoc,
}
use eavt_sql.Bytes.Order.{Bytes}
use eavt_sql.Bytes.Int.{ℤ, pos, negsuc, IsInt64, u64, be_bytes}
use eavt_sql.Msgpack.Value.{
  Value, Values, Pairs, nil, bool, int, float, str, bin, array, map, ext, raw, no_values, value,
  no_pairs, pair, count_values, count_pairs,
}
use eavt_sql.Msgpack.Encode.{
  encode_int, encode_str, encode_bin, encode_ext, str_header, bin_header, ext_header,
  encode_array_header, encode_map_header, encode, encode_values, encode_pairs,
}
use eavt_sql.Msgpack.Decode.{
  ok, Parser, decode_value, decode_values, decode_pairs, decode_array, decode_map, make_room,
  decode_str, decode_bin, decode_ext_n,
}
use eavt_sql.Msgpack.Header.{
  decode_first, read_be-byte, take_bytes-append, decode_first-array_header, decode_first-map_header,
  decode_first-str_header, decode_first-bin_header, decode_first-ext_header,
}
use eavt_sql.Msgpack.Number.{decode_first-encode_int, decode_first-float}
use eavt_sql.Msgpack.Wire.{IsWire, AreWire, ArePairs, depth, depth_values, depth_pairs}

module _ (float64_of_float32 : ℕ → ℕ) where
  -- A nonempty input is decoded by its first byte.
  pub decode_value-first :
      (fuel : ℕ) (bs : Bytes)
      → decode_value float64_of_float32 (suc fuel) bs
        ≡ decode_first float64_of_float32 (decode_value float64_of_float32 fuel) bs
  unfolding decode_value
  decode_value-first fuel [] = refl
  decode_value-first fuel (b ∷ bs) = refl

  module _ (fuel : ℕ) (rest : Bytes) where
    -- What the decoder of the parts is.
    abbrev pub one : Parser Value
    one = decode_value float64_of_float32 fuel

    abbrev pub whole : Parser Value
    whole = decode_value float64_of_float32 (suc fuel)

    pub whole-nil : whole (0xc0 ∷ rest) ≡ ok (nil, rest)
    unfolding decode_value
    whole-nil = refl

    pub whole-true : whole (0xc3 ∷ rest) ≡ ok (bool true, rest)
    unfolding decode_value
    whole-true = refl

    pub whole-false : whole (0xc2 ∷ rest) ≡ ok (bool false, rest)
    unfolding decode_value
    whole-false = refl

    pub whole-int : (n : ℤ) → IsInt64 n → whole (encode_int n ++ rest) ≡ ok (int n, rest)
    whole-int n w =
        decode_value-first fuel (encode_int n ++ rest)
        ∙ decode_first-encode_int float64_of_float32 one rest n w

    pub whole-float :
        (x : ℕ) → x < 2 ^ 64 → whole (0xcb ∷ (be_bytes 8 x ++ rest)) ≡ ok (float x, rest)
    whole-float x w =
        decode_value-first fuel (0xcb ∷ (be_bytes 8 x ++ rest))
        ∙ decode_first-float float64_of_float32 one rest x w

    pub whole-str :
        (s : Bytes) → length s < 2 ^ 32 → whole (encode_str s ++ rest) ≡ ok (str s, rest)
    unfolding encode_str decode_str
    whole-str s w =
        decode_value-first fuel _
        ∙ rw
            (
              append_assoc (str_header (length s)) s rest,
              decode_first-str_header float64_of_float32 one (length s) (s ++ rest) w,
              take_bytes-append s rest,
            )
            refl

    pub whole-bin :
        (b : Bytes) → length b < 2 ^ 32 → whole (encode_bin b ++ rest) ≡ ok (bin b, rest)
    unfolding encode_bin decode_bin
    whole-bin b w =
        decode_value-first fuel _
        ∙ rw
            (
              append_assoc (bin_header (length b)) b rest,
              decode_first-bin_header float64_of_float32 one (length b) (b ++ rest) w,
              take_bytes-append b rest,
            )
            refl

    pub whole-ext :
        (ty : ℕ) (b : Bytes)
        → ty < 256
        → length b < 2 ^ 32
        → whole (encode_ext (pos ty) b ++ rest) ≡ ok (ext (pos ty) b, rest)
    unfolding encode_ext decode_ext_n
    whole-ext ty b t w =
        let same : u64 (pos ty) % 256 ≡ ty = omega arith in
        decode_value-first fuel _
        ∙ rw
            (
              same,
              append_assoc (ext_header (length b)) (ty ∷ b) rest,
              decode_first-ext_header float64_of_float32 one (length b) (ty ∷ (b ++ rest)) w,
              read_be-byte ty (b ++ rest) t,
              take_bytes-append b rest,
            )
            refl

    pub whole-array :
        (vs : Values)
        → count_values vs < 2 ^ 32
        → decode_values one (count_values vs) (encode_values vs ++ rest) ≡ ok (vs, rest)
        → whole ((encode_array_header (count_values vs) ++ encode_values vs) ++ rest)
          ≡ ok (array vs, rest)
    unfolding decode_array make_room
    whole-array vs w e =
        let fits : ltb (2 ^ 48) (count_values vs * 16) ≡ false = ground (arith, w) in
        decode_value-first fuel _
        ∙ rw
            (
              append_assoc (encode_array_header (count_values vs)) (encode_values vs) rest,
              decode_first-array_header float64_of_float32 one (count_values vs)
                  (encode_values vs ++ rest) w,
              fits,
              e,
            )
            refl

    pub whole-map :
        (ps : Pairs)
        → count_pairs ps < 2 ^ 32
        → decode_pairs one (count_pairs ps) (encode_pairs ps ++ rest) ≡ ok (ps, rest)
        → whole ((encode_map_header (count_pairs ps) ++ encode_pairs ps) ++ rest)
          ≡ ok (map ps, rest)
    unfolding decode_map make_room
    whole-map ps w e =
        let fits : ltb (2 ^ 48) (count_pairs ps * 32) ≡ false = ground (arith, w) in
        decode_value-first fuel _
        ∙ rw
            (
              append_assoc (encode_map_header (count_pairs ps)) (encode_pairs ps) rest,
              decode_first-map_header float64_of_float32 one (count_pairs ps)
                  (encode_pairs ps ++ rest) w,
              fits,
              e,
            )
            refl

  mutual
    unfolding encode IsWire depth decode_values decode_pairs

    pub decode_value-encode :
        (v : Value) (fuel : ℕ) (rest : Bytes)
        → IsWire v
        → depth v < fuel
        → decode_value float64_of_float32 fuel (encode v ++ rest) ≡ ok (v, rest)
    decode_value-encode v zero rest w h = absurd (omega arith)
    decode_value-encode nil (suc fuel) rest w h = whole-nil fuel rest
    decode_value-encode (bool true) (suc fuel) rest w h = whole-true fuel rest
    decode_value-encode (bool false) (suc fuel) rest w h = whole-false fuel rest
    decode_value-encode (int n) (suc fuel) rest w h = whole-int fuel rest n w
    decode_value-encode (float x) (suc fuel) rest w h = whole-float fuel rest x w
    decode_value-encode (str s) (suc fuel) rest w h = whole-str fuel rest s w
    decode_value-encode (bin b) (suc fuel) rest w h = whole-bin fuel rest b w
    decode_value-encode (array vs) (suc fuel) rest w h =
        whole-array fuel rest vs w.0 (decode_values-encode vs fuel rest w.1 (omega arith))
    decode_value-encode (map ps) (suc fuel) rest w h =
        whole-map fuel rest ps w.0 (decode_pairs-encode ps fuel rest w.1 (omega arith))
    decode_value-encode (ext (pos ty) bs) (suc fuel) rest w h = whole-ext fuel rest ty bs w.0 w.1
    decode_value-encode (ext (negsuc ty) bs) (suc fuel) rest w h = absurd w
    decode_value-encode (raw bs) (suc fuel) rest w h = absurd w

    pub decode_values-encode :
        (vs : Values) (fuel : ℕ) (rest : Bytes)
        → AreWire vs
        → depth_values vs < fuel
        → decode_values
            (decode_value float64_of_float32 fuel)
            (count_values vs)
            (encode_values vs ++ rest)
          ≡ ok (vs, rest)
    decode_values-encode no_values fuel rest w h = refl
    decode_values-encode (value v vs) fuel rest w h =
        rw
          (
            append_assoc (encode v) (encode_values vs) rest,
            decode_value-encode v fuel (encode_values vs ++ rest) w.0 (omega arith),
            decode_values-encode vs fuel rest w.1 (omega arith),
          )
          refl

    pub decode_pairs-encode :
        (ps : Pairs) (fuel : ℕ) (rest : Bytes)
        → ArePairs ps
        → depth_pairs ps < fuel
        → decode_pairs
            (decode_value float64_of_float32 fuel)
            (count_pairs ps)
            (encode_pairs ps ++ rest)
          ≡ ok (ps, rest)
    decode_pairs-encode no_pairs fuel rest w h = refl
    decode_pairs-encode (pair k v ps) fuel rest w h =
        rw
          (
            append_assoc (encode k) (encode v ++ encode_pairs ps) rest,
            append_assoc (encode v) (encode_pairs ps) rest,
            decode_value-encode k fuel (encode v ++ (encode_pairs ps ++ rest)) w.0 (omega arith),
            decode_value-encode v fuel (encode_pairs ps ++ rest) w.1 (omega arith),
            decode_pairs-encode ps fuel rest w.2 (omega arith),
          )
          refl
