-- ===== src/Tests/Keys.antt =====
-- go/internal/eavt/keys.go at concrete inputs.
use eavt_sql.Prelude.{◌≡◌, refl, true, false, [], ◌∷◌, arith}
use eavt_sql.Bytes.Order.{cmp_keys}
use eavt_sql.Bytes.Int.{pos, negsuc, compare_ℤ}
use eavt_sql.Eavt.Keys.{
  ref, encode_int, before_nul, encode_variable, decode_variable_str, build_eavt_key, build_aevt_key,
  build_eavt_entries,
}
use eavt_sql.Eavt.Keys.Suffix.{cmp_keys-encode_int}
use eavt_sql.Eavt.Keys.Entries.{entry, expected_index, build_eavt_entries-keys}
use eavt_sql.Eavt.Keys.Variable.{decode_variable_str-encode_variable}
use eavt_sql.Eavt.Values.{
  int, bool, db_type_long, db_type_boolean, decode_stored_value, encode_bound_value,
}
use eavt_sql.Eavt.Values.RoundTrip.{
  long, decode_stored_value-encode_bound_value, decode_stored_value-bool,
}

minus_one : encode_int (negsuc 0) ≡ 0x7f ∷ 0xff ∷ 0xff ∷ 0xff ∷ 0xff ∷ 0xff ∷ 0xff ∷ 0xff ∷ []
unfolding encode_int
minus_one = refl

hi : encode_variable (b'h' ∷ b'i' ∷ []) ≡ b'h' ∷ b'i' ∷ 0 ∷ 0 ∷ 0 ∷ 0 ∷ 0 ∷ 0 ∷ 2 ∷ []
unfolding encode_variable
hi = refl

cmp_keys-encode_int_example :
    cmp_keys (encode_int (negsuc 4)) (encode_int (pos 3)) ≡ compare_ℤ (negsuc 4) (pos 3)
cmp_keys-encode_int_example = cmp_keys-encode_int (negsuc 4) (pos 3) (omega arith) (omega arith)

decode_variable_str-encode_variable_example :
    decode_variable_str (encode_variable (b'h' ∷ b'i' ∷ 0 ∷ 1 ∷ [])) 0
    ≡ before_nul (b'h' ∷ b'i' ∷ 0 ∷ 1 ∷ [])
decode_variable_str-encode_variable_example =
    decode_variable_str-encode_variable (b'h' ∷ b'i' ∷ 0 ∷ 1 ∷ [])

build_eavt_entries-keys_example :
    build_eavt_entries (pos 7) 21 (1 ∷ 2 ∷ []) (pos 3) false ref true
    ≡ entry 0 (build_eavt_key (pos 7) 21 (1 ∷ 2 ∷ []) (pos 3) false)
      ∷ entry 1 (build_aevt_key 21 (pos 7) (1 ∷ 2 ∷ []) (pos 3) false)
      ∷ expected_index (pos 7) 21 (1 ∷ 2 ∷ []) (pos 3) false ref true
build_eavt_entries-keys_example =
    build_eavt_entries-keys (pos 7) 21 (1 ∷ 2 ∷ []) (pos 3) false ref true

decode_stored_value-encode_bound_value_example :
    decode_stored_value (encode_bound_value (int (negsuc 4))) db_type_long ≡ int (negsuc 4)
decode_stored_value-encode_bound_value_example =
    decode_stored_value-encode_bound_value db_type_long (int (negsuc 4)) (int (negsuc 4))
      (long (negsuc 4) (omega arith))

decode_stored_value-bool_example :
    decode_stored_value (encode_bound_value (bool true)) db_type_boolean ≡ bool false
decode_stored_value-bool_example = decode_stored_value-bool true
