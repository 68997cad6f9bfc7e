-- ===== src/Msgpack/Total.antt =====
-- The fuel of the decoder of go/internal/msgpack/msgpack.go, and its indices and slices, on any bytes.
use eavt_sql.Prelude.{
  ◌≡◌, ◌*◌, ℕ, zero, suc, ◌-◌, ◌%◌, ◌^◌, ◌≤◌, ◌<◌, ◌≢◌, subst, true, false, ◌&&◌, ◌||◌, [], ◌∷◌,
  ltb, leb, ◌==◌, if◌then◌else◌, length, arith,
}
use eavt_sql.Bytes.Order.{Bytes}
use eavt_sql.Bytes.Int.{ℤ, pos}
use eavt_sql.Msgpack.Value.{Value, nil, bool, int}
use eavt_sql.Msgpack.Decode.{
  Decoded, ok, err, panic, out_of_fuel, trailing_content, ◌>>=◌, Parser, signed, read_be,
  take_bytes, len_of, decode_str, decode_bin, decode_ext_n, decode_int, decode_float, decode_values,
  decode_pairs, decode_array, decode_map, make_room, decode_number, decode_format, decode_tag,
  decode_value, unmarshal,
}
use eavt_sql.Msgpack.Ends.{
  Ends, Ends-bind, IsSmall-len_of, Ends-sized, Ends-ok, Ends-err, Ends-weaken, Ends-if,
  Ends-take_bytes, Ends-read_be,
}

abbrev IsFinal {ℓ} : {A : Type ℓ} → Decoded A → Type 0
IsFinal (ok a) = Unit
IsFinal (err e) = Unit
IsFinal panic = ⊥
IsFinal out_of_fuel = ⊥

module _ (n : ℕ) where
  Ends-len_of : (b : ℕ) (bs : Bytes) → length bs ≤ n → Ends n (len_of b bs)
  unfolding len_of
  Ends-len_of b bs h = Ends-if n (b == 0xc4 || b == 0xc7 || b == 0xd9) _ _ (Ends-read_be n 1 bs h) (
      Ends-if n (b == 0xc5 || b == 0xc8 || b == 0xda || b == 0xdc || b == 0xde) _ _
        (Ends-read_be n 2 bs h)
        (Ends-if n (b == 0xc6 || b == 0xc9 || b == 0xdb || b == 0xdd || b == 0xdf) _ _
          (Ends-read_be n 4 bs h) (Ends-err _ n _)))

  Ends-decode_str : (k : ℕ) (bs : Bytes) → length bs ≤ n → Ends n (decode_str k bs)
  unfolding decode_str
  Ends-decode_str k bs h =
      Ends-bind n (take_bytes k bs) _ (Ends-take_bytes n k bs h) (λ r le. Ends-ok _ n _ le)

  Ends-decode_bin : (k : ℕ) (bs : Bytes) → length bs ≤ n → Ends n (decode_bin k bs)
  unfolding decode_bin
  Ends-decode_bin k bs h =
      Ends-bind n (take_bytes k bs) _ (Ends-take_bytes n k bs h) (λ r le. Ends-ok _ n _ le)

  Ends-decode_ext_n : (k : ℕ) (bs : Bytes) → length bs ≤ n → Ends n (decode_ext_n k bs)
  unfolding decode_ext_n
  Ends-decode_ext_n k bs h = Ends-bind n (read_be 1 bs) _ (Ends-read_be n 1 bs h) (λ r le.
      Ends-bind n (take_bytes k r.1) _ (Ends-take_bytes n k r.1 le) (λ r' le'. Ends-ok _ n _ le'))

  Ends-decode_int : (k : ℕ) (f : ℕ → ℤ) (bs : Bytes) → length bs ≤ n → Ends n (decode_int k f bs)
  unfolding decode_int
  Ends-decode_int k f bs h =
      Ends-bind n (read_be k bs) _ (Ends-read_be n k bs h) (λ r le. Ends-ok _ n _ le)

  Ends-decode_float :
      (k : ℕ) (f : ℕ → ℕ) (bs : Bytes) → length bs ≤ n → Ends n (decode_float k f bs)
  unfolding decode_float
  Ends-decode_float k f bs h =
      Ends-bind n (read_be k bs) _ (Ends-read_be n k bs h) (λ r le. Ends-ok _ n _ le)

  -- The decoder of one value, for values that start within so many bytes.
  module _ (one : Parser Value) (t : (bs : Bytes) → length bs ≤ n → Ends n (one bs)) where
    Ends-decode_values : (k : ℕ) (bs : Bytes) → length bs ≤ n → Ends n (decode_values one k bs)
    unfolding decode_values
    Ends-decode_values zero bs h = Ends-ok _ n _ h
    Ends-decode_values (suc k) bs h = Ends-bind n (one bs) _ (t bs h) (λ r le.
        Ends-bind n (decode_values one k r.1) _ (Ends-decode_values k r.1 le)
          (λ r' le'. Ends-ok _ n _ le'))

    Ends-decode_pairs : (k : ℕ) (bs : Bytes) → length bs ≤ n → Ends n (decode_pairs one k bs)
    unfolding decode_pairs
    Ends-decode_pairs zero bs h = Ends-ok _ n _ h
    Ends-decode_pairs (suc k) bs h = Ends-bind n (one bs) _ (t bs h) (λ r le.
        Ends-bind n (one r.1) _ (t r.1 le) (λ r' le'.
          Ends-bind n (decode_pairs one k r'.1) _ (Ends-decode_pairs k r'.1 le')
            (λ r'' le''. Ends-ok _ n _ le'')))

    -- The room for the elements of a header is less than the address space.
    Ends-decode_array :
        (k : ℕ) (bs : Bytes) → k < 2 ^ 32 → length bs ≤ n → Ends n (decode_array one k bs)
    unfolding decode_array make_room
    Ends-decode_array k bs small h =
        let fits : ltb (2 ^ 48) (k * 16) ≡ false = ground (arith, small) in
        rw fits (
          Ends-bind n (decode_values one k bs) _ (Ends-decode_values k bs h)
            (λ r le. Ends-ok _ n _ le))

    -- The room for the elements of a header is less than the address space.
    Ends-decode_map :
        (k : ℕ) (bs : Bytes) → k < 2 ^ 32 → length bs ≤ n → Ends n (decode_map one k bs)
    unfolding decode_map make_room
    Ends-decode_map k bs small h =
        let fits : ltb (2 ^ 48) (k * 32) ≡ false = ground (arith, small) in
        rw fits (
          Ends-bind n (decode_pairs one k bs) _ (Ends-decode_pairs k bs h)
            (λ r le. Ends-ok _ n _ le))

module _ (float64_of_float32 : ℕ → ℕ) where
  Ends-decode_number :
      (n b : ℕ) (bs : Bytes) → length bs ≤ n → Ends n (decode_number float64_of_float32 b bs)
  unfolding decode_number
  Ends-decode_number n b bs h =
      let int = λ (k : ℕ) (f : ℕ → ℤ). Ends-decode_int n k f bs h in
      Ends-if n (b == 0xca) _ _ (Ends-decode_float n 4 float64_of_float32 bs h) (
        Ends-if n (b == 0xcb) _ _ (Ends-decode_float n 8 (λ v. v) bs h) (
          Ends-if n (b == 0xcc) _ _ (int 1 pos) (
            Ends-if n (b == 0xcd) _ _ (int 2 pos) (
              Ends-if n (b == 0xce) _ _ (int 4 pos) (
                Ends-if n (b == 0xcf || b == 0xd3) _ _ (int 8 (signed (2 ^ 63))) (
                  Ends-if n (b == 0xd0) _ _ (int 1 (signed (2 ^ 7))) (
                    Ends-if n (b == 0xd1) _ _ (int 2 (signed (2 ^ 15)))
                      (Ends-if n (b == 0xd2) _ _ (int 4 (signed (2 ^ 31))) (Ends-err _ n _)))))))))

  module _ (n : ℕ) (one : Parser Value) (t : (bs : Bytes) → length bs ≤ n → Ends n (one bs)) where
    Ends-decode_format :
        (b : ℕ) (bs : Bytes) → length bs ≤ n → Ends n (decode_format float64_of_float32 one b bs)
    unfolding decode_format
    Ends-decode_format b bs h =
        let sized =
          λ (f : ℕ → Parser Value) (ends : (k : ℕ) (bs : Bytes) → length bs ≤ n → Ends n (f k bs)).
            Ends-bind n (len_of b bs) (λ r. f r.0 r.1) (Ends-len_of n b bs h)
              (λ r le. ends r.0 r.1 le) in
        Ends-if n (b == 0xc0) _ _ (Ends-ok _ n (nil, bs) h) (
          Ends-if n (b == 0xc2) _ _ (Ends-ok _ n (bool false, bs) h) (
            Ends-if n (b == 0xc3) _ _ (Ends-ok _ n (bool true, bs) h) (
              Ends-if n (b == 0xc4 || b == 0xc5 || b == 0xc6) _ _
                (sized decode_bin (Ends-decode_bin n))
                (Ends-if n (b == 0xc7 || b == 0xc8 || b == 0xc9) _ _
                  (sized decode_ext_n (Ends-decode_ext_n n))
                  (Ends-if n (leb 0xd4 b && leb b 0xd8) _ _
                    (Ends-decode_ext_n n (2 ^ (b - 0xd4)) bs h)
                    (Ends-if n (b == 0xd9 || b == 0xda || b == 0xdb) _ _
                      (sized decode_str (Ends-decode_str n))
                      (Ends-if n (b == 0xdc || b == 0xdd) _ _
                        (Ends-sized n (len_of b bs) (λ r. decode_array one r.0 r.1)
                          (Ends-len_of n b bs h) (IsSmall-len_of b bs)
                          (λ r small le. Ends-decode_array n one t r.0 r.1 small le))
                        (Ends-if n (b == 0xde || b == 0xdf) _ _
                          (Ends-sized n (len_of b bs) (λ r. decode_map one r.0 r.1)
                            (Ends-len_of n b bs h) (IsSmall-len_of b bs)
                            (λ r small le. Ends-decode_map n one t r.0 r.1 small le))
                          (Ends-decode_number n b bs h)))))))))

    Ends-decode_tag :
        (b : ℕ) (bs : Bytes) → length bs ≤ n → Ends n (decode_tag float64_of_float32 one b bs)
    unfolding decode_tag
    Ends-decode_tag b bs h = Ends-if n (leb b 0x7f) _ _ (Ends-ok _ n (int (pos b), bs) h) (
        Ends-if n (leb 0xe0 b) _ _ (Ends-ok _ n (int (signed (2 ^ 7) b), bs) h) (
          Ends-if n (leb 0x90 b && leb b 0x9f) _ _
            (Ends-decode_array n one t (b % 16) bs (omega arith) h)
            (Ends-if n (leb 0xa0 b && leb b 0xbf) _ _ (Ends-decode_str n (b % 32) bs h) (
              Ends-if n (leb 0x80 b && leb b 0x8f) _ _
                (Ends-decode_map n one t (b % 16) bs (omega arith) h)
                (Ends-decode_format b bs h)))))

  Ends-decode_value :
      (fuel n : ℕ) (bs : Bytes)
      → length bs ≤ n
      → n < fuel
      → Ends n (decode_value float64_of_float32 fuel bs)
  unfolding decode_value
  Ends-decode_value zero n bs h k = ground (arith, k)
  Ends-decode_value (suc fuel) n [] h k = Ends-err _ n _
  Ends-decode_value (suc fuel) n (b ∷ bs) h k =
      let one = λ (xs : Bytes) (le : length xs ≤ n - 1).
        Ends-decode_value fuel (n - 1) xs le (omega (arith, h, k)) in
      Ends-weaken (n - 1) n _ (omega arith)
        (Ends-decode_tag (n - 1) (decode_value float64_of_float32 fuel) one b bs (omega (arith, h)))

  unmarshal-IsFinal : (bs : Bytes) → IsFinal (unmarshal float64_of_float32 bs)
  unfolding unmarshal Ends
  unmarshal-IsFinal bs =
      of_value (decode_value float64_of_float32 (suc (length bs)) bs)
        (Ends-decode_value (suc (length bs)) (length bs) bs (omega arith) (omega arith))
    where
      of_value :
          (d : Decoded (Value × Bytes))
          → Ends (length bs) d
          → IsFinal (d >>= (λ r. if ltb 0 (length r.1) then err trailing_content else ok r.0))
      of_value (ok r) h =
          elim (ltb 0 (length r.1)) as (λ z. IsFinal (if z then err trailing_content else ok r.0)) [
            | true ↦ tt
            | false ↦ tt
          ]
      of_value (err e) h = tt
      of_value panic h = elim h [ ]
      of_value out_of_fuel h = elim h [ ]

  -- On any bytes the fuel of the decoder, one more level than there are bytes, does not run out,
  -- and there is no panic: no index or slice expression is out of range, and no make asks for more
  -- than the 2 ^ 48 bytes of the address space. With the memory that the headers ask for, the
  -- result is a value or an error.
  pub unmarshal-ends :
      (bs : Bytes)
      → (unmarshal float64_of_float32 bs ≢ out_of_fuel) × (unmarshal float64_of_float32 bs ≢ panic)
  unmarshal-ends bs =
      ((λ e. subst IsFinal e (unmarshal-IsFinal bs)), (λ e. subst IsFinal e (unmarshal-IsFinal bs)))
