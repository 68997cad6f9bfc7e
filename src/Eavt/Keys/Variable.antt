-- ===== src/Eavt/Keys/Variable.antt =====
-- Strings in blocks of eight bytes are decoded up to their first NUL.
use eavt_sql.Prelude.{
  ℕ, zero, suc, ◌-◌, ◌≤◌, ◌<◌, ◌≡◌, refl, sym, ap, ◌∙◌, [], ◌∷◌, ◌++◌, arith, ltb, ltb→lt,
  append-nil, ◌==◌, if◌then◌else◌, length, take, drop, get_or, replicate, length-append,
  length-take, length-drop, take_of_length, drop_of_length, take-append-drop, Bool-cases, inl, inr,
  append_assoc, length-replicate,
}
use eavt_sql.Bytes.Order.{Bytes}
use eavt_sql.Eavt.Keys.{
  before_nul, encode_blocks, encode_variable, decode_blocks, decode_variable_str,
}

get_or_at : (xs rest : Bytes) (n d : ℕ) → length xs ≡ n → get_or (xs ++ rest) n d ≡ get_or rest 0 d
get_or_at [] rest zero d h = refl
get_or_at [] rest (suc n) d h = absurd (omega arith)
get_or_at (x ∷ xs) rest zero d h = absurd (omega arith)
get_or_at (x ∷ xs) rest (suc n) d h = get_or_at xs rest n d (omega arith)

-- One round of the decoder, on a block and its control byte.
decode_block :
    (fuel : ℕ) (block : Bytes) (control : ℕ) (rest : Bytes)
    → length block ≡ 8
    → decode_blocks (suc fuel) (block ++ control ∷ rest) ≡ (
        if control == 0xff
        then block ++ decode_blocks fuel rest
        else (if ltb control 8 then take control block else block))
unfolding decode_blocks
decode_block fuel block control rest h =
    let all : drop 9 (block ++ control ∷ rest) ≡ rest = nine block control rest h in
    rw (take_of_length 8 block (control ∷ rest) h, get_or_at block (control ∷ rest) 8 0 h, all)
      (ground (arith, length-append block (control ∷ rest)))
  where
    nine : (xs : Bytes) (c : ℕ) (r : Bytes) → length xs ≡ 8 → drop 9 (xs ++ c ∷ r) ≡ r
    nine xs c r h =
        ap (drop 9) (sym (append_assoc xs (c ∷ []) r))
        ∙ drop_of_length 9 (xs ++ c ∷ []) r (omega (arith, length-append xs (c ∷ [])))

decode_blocks-encode_blocks :
    (n fuel : ℕ) (s : Bytes) → length s ≤ n → n ≤ fuel → decode_blocks fuel (encode_blocks n s) ≡ s
unfolding encode_blocks
decode_blocks-encode_blocks zero zero [] h k = unfold decode_blocks in refl
decode_blocks-encode_blocks zero (suc fuel) [] h k = unfold decode_blocks in refl
decode_blocks-encode_blocks zero fuel (b ∷ bs) h k = absurd (omega arith)
decode_blocks-encode_blocks (suc n) zero s h k = absurd (omega arith)
decode_blocks-encode_blocks (suc n) (suc fuel) [] h k = unfold decode_blocks in refl
decode_blocks-encode_blocks (suc n) (suc fuel) (b ∷ bs) h k =
    elim (Bool-cases (ltb 8 (length (b ∷ bs)))) [
      | inl e ↦
          let s : Bytes = b ∷ bs in
          rw e (
            decode_block fuel (take 8 s) 0xff (encode_blocks n (drop 8 s))
              (let long : 8 < length s = ltb→lt _ _ e in omega (arith, length-take 8 s))
            ∙ ap (λ l. take 8 s ++ l)
                (decode_blocks-encode_blocks n fuel (drop 8 s) (omega (arith, length-drop 8 s))
                  (omega arith))
            ∙ take-append-drop 8 s)
      | inr e ↦
          let s : Bytes = b ∷ bs in
          let short : length s ≤ 8 = ground arith in
          let zeros : Bytes = replicate (8 - length s) 0 in
          let whole : length s ≡ 8 → s ++ zeros ≡ s = λ q. rw q (append-nil s) in
          rw e (
            decode_block fuel (s ++ zeros) (length s) []
              (omega (arith, length-append s zeros, length-replicate {A = ℕ} (8 - length s) 0))
            ∙ ground (arith, take_of_length (length s) s zeros refl, whole))
    ]

length-encode_blocks : (n : ℕ) (s : Bytes) → length s ≤ n → length s ≤ length (encode_blocks n s)
unfolding encode_blocks
length-encode_blocks zero s h = omega arith
length-encode_blocks (suc n) [] h = omega arith
length-encode_blocks (suc n) (b ∷ bs) h = elim (Bool-cases (ltb 8 (length (b ∷ bs)))) [
  | inl e ↦
      let s : Bytes = b ∷ bs in
      rw e (
        omega (
          arith,
          length-append (take 8 s) (0xff ∷ encode_blocks n (drop 8 s)),
          length-take 8 s,
          length-drop 8 s,
          length-encode_blocks n (drop 8 s) (omega (arith, length-drop 8 s)),
        ))
  | inr e ↦
      let s : Bytes = b ∷ bs in
      let zeros : Bytes = replicate (8 - length s) 0 in
      rw e (omega (arith, length-append (s ++ zeros) (length s ∷ []), length-append s zeros))
]

-- A stored string is decoded as its part before the first NUL byte.
pub decode_variable_str-encode_variable :
    (s : Bytes) → decode_variable_str (encode_variable s) 0 ≡ before_nul s
unfolding decode_variable_str encode_variable
decode_variable_str-encode_variable s =
    let t = before_nul s in
    decode_blocks-encode_blocks (length t) (length (encode_blocks (length t) t)) t (omega arith)
      (length-encode_blocks (length t) t (omega arith))
