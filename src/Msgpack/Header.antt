-- ===== src/Msgpack/Header.antt =====
-- What the decoder makes of each header that the encoder writes (msgpack.go).
use eavt_sql.Prelude.{
  ◌+◌, true, ℕ, ◌%◌, ◌^◌, ◌<◌, ◌≤◌, ◌≡◌, refl, [], ◌∷◌, ◌++◌, ltb, leb, false, ◌==◌, if◌then◌else◌,
  length, arith, Bool-cases, inl, inr, take_of_length, drop_of_length, length-append, subst,
}
use native.Mathlib.Nat.{mod-eq_of_lt}
use eavt_sql.Bytes.Order.{Bytes}
use eavt_sql.Bytes.Int.{be_bytes, be_value, length-be_bytes, be_value-be_bytes}
use eavt_sql.Msgpack.Value.{Value}
use eavt_sql.Msgpack.Encode.{
  str_header, bin_header, encode_array_header, encode_map_header, ext_header,
}
use eavt_sql.Msgpack.Decode.{
  ok, err, truncated, Parser, read_be, take_bytes, len_of, decode_str, decode_bin, decode_ext_n,
  decode_array, decode_map, decode_tag, decode_format,
}

pub read_be-be_bytes :
    (n x : ℕ) (rest : Bytes)
    → x < 256 ^ n
    → 256 ^ n ≤ 2 ^ 64
    → read_be n (be_bytes n x ++ rest) ≡ ok (x, rest)
unfolding read_be
read_be-be_bytes n x rest h k =
    let enough : ltb (length (be_bytes n x ++ rest)) n ≡ false =
      ground (arith, length-append (be_bytes n x) rest, length-be_bytes n x) in
    rw
      (
        enough,
        take_of_length n (be_bytes n x) rest (length-be_bytes n x),
        drop_of_length n (be_bytes n x) rest (length-be_bytes n x),
        be_value-be_bytes (2 ^ 64) n x h k,
        mod-eq_of_lt {n = x} {m = 256 ^ n} h,
      )
      refl

pub read_be-byte : (x : ℕ) (rest : Bytes) → x < 256 → read_be 1 (x ∷ rest) ≡ ok (x, rest)
unfolding read_be be_value
read_be-byte x rest h = ground arith

pub take_bytes-append : (s rest : Bytes) → take_bytes (length s) (s ++ rest) ≡ ok (s, rest)
unfolding take_bytes
take_bytes-append s rest =
    rw (take_of_length (length s) s rest refl, drop_of_length (length s) s rest refl)
      (ground (arith, length-append s rest))

module _ (float64_of_float32 : ℕ → ℕ) (one : Parser Value) where
  -- The decoder on a nonempty input.
  abbrev pub decode_first : Parser Value
  decode_first [] = err truncated
  decode_first (b ∷ bs) = decode_tag float64_of_float32 one b bs

  -- The headers of one byte.
  short_map :
      (n : ℕ) (rest : Bytes)
      → n ≤ 15
      → decode_tag float64_of_float32 one (128 + n) rest ≡ decode_map one n rest
  unfolding decode_tag
  short_map n rest h =
      let positive : leb (128 + n) 0x7f ≡ false = ground (arith, h) in
      let negative : leb 0xe0 (128 + n) ≡ false = ground (arith, h) in
      let array : leb 0x90 (128 + n) ≡ false = ground (arith, h) in
      let string : leb 0xa0 (128 + n) ≡ false = ground (arith, h) in
      let low : leb 0x80 (128 + n) ≡ true = ground arith in
      let high : leb (128 + n) 0x8f ≡ true = ground (arith, h) in
      let count : (128 + n) % 16 ≡ n = omega (arith, h) in
      rw (positive, negative, array, string, low, high, count) refl

  short_str :
      (n : ℕ) (rest : Bytes)
      → n ≤ 31
      → decode_tag float64_of_float32 one (160 + n) rest ≡ decode_str n rest
  unfolding decode_tag
  short_str n rest h =
      let positive : leb (160 + n) 0x7f ≡ false = ground (arith, h) in
      let negative : leb 0xe0 (160 + n) ≡ false = ground (arith, h) in
      let array : leb (160 + n) 0x9f ≡ false = ground (arith, h) in
      let array' : leb 0x90 (160 + n) ≡ true = ground arith in
      let low : leb 0xa0 (160 + n) ≡ true = ground arith in
      let high : leb (160 + n) 0xbf ≡ true = ground (arith, h) in
      let count : (160 + n) % 32 ≡ n = omega (arith, h) in
      rw (positive, negative, array, array', low, high, count) refl

  pub decode_first-array_header :
      (n : ℕ) (rest : Bytes)
      → n < 2 ^ 32
      → decode_first (encode_array_header n ++ rest) ≡ decode_array one n rest
  unfolding encode_array_header decode_tag decode_format len_of
  decode_first-array_header n rest h = elim (Bool-cases (leb n 15)) [
    | inl e ↦ rw e (ground arith)
    | inr e ↦ elim (Bool-cases (leb n 0xffff)) [
      | inl f ↦ rw (e, f, read_be-be_bytes 2 n rest (ground arith) (omega arith)) refl
      | inr f ↦
          let same : n % 2 ^ 32 ≡ n = omega arith in
          rw (e, f, same, read_be-be_bytes 4 n rest (omega arith) (omega arith)) refl
    ]
  ]

  pub decode_first-map_header :
      (n : ℕ) (rest : Bytes)
      → n < 2 ^ 32
      → decode_first (encode_map_header n ++ rest) ≡ decode_map one n rest
  unfolding encode_map_header decode_tag decode_format len_of
  decode_first-map_header n rest h = elim (Bool-cases (leb n 15)) [
    | inl e ↦ rw e (short_map n rest (ground (arith, e)))
    | inr e ↦ elim (Bool-cases (leb n 0xffff)) [
      | inl f ↦ rw (e, f, read_be-be_bytes 2 n rest (ground arith) (omega arith)) refl
      | inr f ↦
          let same : n % 2 ^ 32 ≡ n = omega arith in
          rw (e, f, same, read_be-be_bytes 4 n rest (omega arith) (omega arith)) refl
    ]
  ]

  pub decode_first-str_header :
      (n : ℕ) (rest : Bytes) → n < 2 ^ 32 → decode_first (str_header n ++ rest) ≡ decode_str n rest
  unfolding str_header decode_tag decode_format len_of
  decode_first-str_header n rest h = elim (Bool-cases (leb n 31)) [
    | inl e ↦ rw e (short_str n rest (ground (arith, e)))
    | inr e ↦ elim (Bool-cases (leb n 0xff)) [
      | inl f ↦ rw (e, f, read_be-byte n rest (ground arith)) refl
      | inr f ↦ elim (Bool-cases (leb n 0xffff)) [
        | inl g ↦ rw (e, f, g, read_be-be_bytes 2 n rest (ground arith) (omega arith)) refl
        | inr g ↦
            let same : n % 2 ^ 32 ≡ n = omega arith in
            rw (e, f, g, same, read_be-be_bytes 4 n rest (omega arith) (omega arith)) refl
      ]
    ]
  ]

  pub decode_first-bin_header :
      (n : ℕ) (rest : Bytes) → n < 2 ^ 32 → decode_first (bin_header n ++ rest) ≡ decode_bin n rest
  unfolding bin_header decode_tag decode_format len_of
  decode_first-bin_header n rest h = elim (Bool-cases (leb n 0xff)) [
    | inl f ↦ rw (f, read_be-byte n rest (ground arith)) refl
    | inr f ↦ elim (Bool-cases (leb n 0xffff)) [
      | inl g ↦ rw (f, g, read_be-be_bytes 2 n rest (ground arith) (omega arith)) refl
      | inr g ↦
          let same : n % 2 ^ 32 ≡ n = omega arith in
          rw (f, g, same, read_be-be_bytes 4 n rest (omega arith) (omega arith)) refl
    ]
  ]

  ReadsExt : ℕ → Type 0
  ReadsExt n = (rest : Bytes) → decode_first (ext_header n ++ rest) ≡ decode_ext_n n rest

  exact : (k n : ℕ) → k ≡ n → ReadsExt k → ReadsExt n
  exact k n e h = subst ReadsExt e h

  -- Lengths that have no header byte of their own.
  long_ext :
      (n : ℕ) (rest : Bytes)
      → n < 2 ^ 32
      → decode_first (
          (if leb n 0xff
            then 0xc7 ∷ n ∷ []
            else if leb n 0xffff
            then 0xc8 ∷ be_bytes 2 n
            else 0xc9 ∷ be_bytes 4 (n % 2 ^ 32))
          ++ rest)
        ≡ decode_ext_n n rest
  unfolding decode_tag decode_format len_of
  long_ext n rest h = elim (Bool-cases (leb n 0xff)) [
    | inl f ↦ rw (f, read_be-byte n rest (ground arith)) refl
    | inr f ↦ elim (Bool-cases (leb n 0xffff)) [
      | inl g ↦ rw (f, g, read_be-be_bytes 2 n rest (ground arith) (omega arith)) refl
      | inr g ↦
          let same : n % 2 ^ 32 ≡ n = omega arith in
          rw (f, g, same, read_be-be_bytes 4 n rest (omega arith) (omega arith)) refl
    ]
  ]

  pub decode_first-ext_header :
      (n : ℕ) (rest : Bytes)
      → n < 2 ^ 32
      → decode_first (ext_header n ++ rest) ≡ decode_ext_n n rest
  unfolding ext_header decode_tag decode_format len_of ReadsExt
  decode_first-ext_header n rest h = elim (Bool-cases (n == 1)) [
    | inl e ↦ exact 1 n (ground arith) (λ r. refl) rest
    | inr a ↦ elim (Bool-cases (n == 2)) [
      | inl e ↦ exact 2 n (ground arith) (λ r. refl) rest
      | inr b ↦ elim (Bool-cases (n == 4)) [
        | inl e ↦ exact 4 n (ground arith) (λ r. refl) rest
        | inr c ↦ elim (Bool-cases (n == 8)) [
          | inl e ↦ exact 8 n (ground arith) (λ r. refl) rest
          | inr d ↦ elim (Bool-cases (n == 16)) [
            | inl e ↦ exact 16 n (ground arith) (λ r. refl) rest
            | inr e ↦ rw (a, b, c, d, e) (long_ext n rest h)
          ]
        ]
      ]
    ]
  ]
