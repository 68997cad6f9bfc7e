-- ===== src/Pagestore/Page/RoundTrip.antt =====
-- What a page was written from is read back.
use eavt_sql.Prelude.{
  ℕ, ◌+◌, ◌*◌, ◌/◌, ◌%◌, ◌^◌, ◌≤◌, ◌<◌, ◌≡◌, refl, List, [], ◌∷◌, ◌++◌, arith, min, length, take,
  drop, length-append, length-drop, take-append-drop, append_assoc, All,
}
use eavt_sql.Bytes.Order.{Bytes}
use eavt_sql.Pagestore.Outcome.{Error, ok, truncated_key}
use eavt_sql.Pagestore.Varint.{write_varint, read_varint-write_varint, read_slice-append}
use eavt_sql.Pagestore.Page.{
  common_prefix_len, write_count, write_key, write_keys, serialize_page, read_key, read_keys,
  deserialize_page,
}

common_prefix_len-le_left : (a b : Bytes) → common_prefix_len a b ≤ length a
unfolding common_prefix_len
common_prefix_len-le_left [] b = omega arith
common_prefix_len-le_left (x ∷ a) [] = omega arith
common_prefix_len-le_left (x ∷ a) (y ∷ b) = ground (arith, common_prefix_len-le_left a b)

common_prefix_len-le_right : (a b : Bytes) → common_prefix_len a b ≤ length b
unfolding common_prefix_len
common_prefix_len-le_right [] b = omega arith
common_prefix_len-le_right (x ∷ a) [] = omega arith
common_prefix_len-le_right (x ∷ a) (y ∷ b) = ground (arith, common_prefix_len-le_right a b)

take_common_prefix : (a b : Bytes) → take (common_prefix_len a b) a ≡ take (common_prefix_len a b) b
unfolding common_prefix_len
take_common_prefix [] b = refl
take_common_prefix (x ∷ a) [] = refl
take_common_prefix (x ∷ a) (y ∷ b) = ground (arith, take_common_prefix a b)

module _ (prev key rest : Bytes) where
  -- The shared prefix and the suffix make the key again.
  prefix-suffix :
      take (min (common_prefix_len prev key) (length prev)) prev
        ++ drop (common_prefix_len prev key) key
      ≡ key
  prefix-suffix =
      let e : min (common_prefix_len prev key) (length prev) ≡ common_prefix_len prev key =
        omega (arith, common_prefix_len-le_left prev key) in
      rw (e, take_common_prefix prev key) (take-append-drop (common_prefix_len prev key) key)

  pub read_key-write_key :
      (e : Error) (tail offset : ℕ)
      → offset + length (write_key prev key) + tail < 2 ^ 63
      → length key < 2 ^ 63
      → tail ≤ length rest
      → read_key e tail prev (record { offset = offset; rest = write_key prev key ++ rest })
        ≡ ok (key, record { offset = offset + length (write_key prev key); rest = rest })
  unfolding read_key write_key
  read_key-write_key e tail offset h small k =
      let p = common_prefix_len prev key in
      let s = drop p key in
      let vp = write_varint p in
      let vs = write_varint (length s) in
      let fits : p < 2 ^ 63 = omega (arith, common_prefix_len-le_right prev key) in
      let sfits : length s < 2 ^ 63 = omega (arith, length-drop p key) in
      let written : length (vp ++ (vs ++ s)) ≡ length vp + (length vs + length s) =
        omega (arith, length-append vp (vs ++ s), length-append vs s) in
      rw
        (
          append_assoc vp (vs ++ s) rest,
          append_assoc vs s rest,
          read_varint-write_varint p offset (vs ++ (s ++ rest)) fits,
          read_varint-write_varint (length s) (offset + length vp) (s ++ rest) sfits,
          read_slice-append s rest e tail (offset + length vp + length vs) (omega arith) k,
        )
        (ground (arith, prefix-suffix))

read_keys-write_keys :
    (prev : Bytes) (keys : List Bytes) (offset : ℕ)
    → offset + length (write_keys prev keys) < 2 ^ 63
    → All (λ k. length k < 2 ^ 63) keys
    → read_keys (length keys) prev (record { offset = offset; rest = write_keys prev keys })
      ≡ ok keys
unfolding read_keys write_keys
read_keys-write_keys prev [] offset h a = refl
read_keys-write_keys prev (key ∷ keys) offset h a =
    let len : length (write_key prev key ++ write_keys key keys)
        ≡ length (write_key prev key) + length (write_keys key keys) =
      length-append (write_key prev key) (write_keys key keys) in
    rw (
      read_key-write_key prev key (write_keys key keys) truncated_key 0 offset (omega arith) a.0
          (omega arith),
      read_keys-write_keys key keys (offset + length (write_key prev key)) (omega arith) a.1,
    )

pub count_bytes : (n : ℕ) → n < 2 ^ 16 → n % 2 ^ 16 / 256 * 256 + n % 256 ≡ n
count_bytes n h = omega arith

-- A leaf page of fewer than 65536 keys, shorter than 2 ^ 63 bytes, is read back.
pub deserialize_page-serialize_page :
    (keys : List Bytes)
    → length keys < 2 ^ 16
    → All (λ k. length k < 2 ^ 63) keys
    → length (serialize_page keys) < 2 ^ 63
    → deserialize_page (serialize_page keys) ≡ ok keys
unfolding serialize_page deserialize_page write_count
deserialize_page-serialize_page keys few small h =
    rw (count_bytes (length keys) few) (read_keys-write_keys [] keys 2 (omega arith) small)

-- A full count of 65536 is written as 0, and a page of that many keys is read back empty.
pub deserialize_page_full :
    (keys : List Bytes) → length keys ≡ 2 ^ 16 → deserialize_page (serialize_page keys) ≡ ok []
unfolding serialize_page deserialize_page write_count read_keys
deserialize_page_full keys full = rw full
