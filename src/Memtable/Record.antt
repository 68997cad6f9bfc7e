-- ===== src/Memtable/Record.antt =====
-- Records of the ladder (memtable.go): one flag byte, the big-endian key length, the key, and for
-- a key-value family the big-endian value length and the value. A `|` of shifted bytes is a sum.
-- An index past the end reads 0: the readers see only what `make_rec` wrote.
use eavt_sql.Prelude.{
  ℕ, ◌+◌, ◌*◌, ◌/◌, ◌%◌, ◌^◌, ◌<◌, ◌≡◌, refl, ap, Bool, true, [], ◌∷◌, ◌++◌, arith, ◌==◌,
  if◌then◌else◌, length, get_or, take, drop, take-length-append, drop-length-append,
}
use eavt_sql.Bytes.Order.{Bytes, cmp_keys}
use Prim.Native.Nat.{Ordering}

unfoldable pub rec_klen : Bytes → ℕ
rec_klen p = get_or p 1 0 * 2 ^ 24 + get_or p 2 0 * 2 ^ 16 + get_or p 3 0 * 2 ^ 8 + get_or p 4 0

unfoldable pub rec_deleted : Bytes → Bool
rec_deleted p = get_or p 0 0 % 2 == 1

unfoldable pub rec_key : Bytes → Bytes
rec_key p = take (rec_klen p) (drop 5 p)

unfoldable pub rec_vlen : Bytes → ℕ
rec_vlen p =
    let o = drop (rec_klen p) (drop 5 p) in
    get_or o 0 0 * 2 ^ 24 + get_or o 1 0 * 2 ^ 16 + get_or o 2 0 * 2 ^ 8 + get_or o 3 0

unfoldable pub rec_value : Bytes → Bytes
rec_value p = take (rec_vlen p) (drop 4 (drop (rec_klen p) (drop 5 p)))

unfoldable pub cmp_rec : Bytes → Bytes → Ordering
cmp_rec a b = cmp_keys (rec_key a) (rec_key b)

-- `byte(n >> 24), byte(n >> 16), byte(n >> 8), byte(n)` in front of the rest.
abbrev be_len : ℕ → Bytes → Bytes
be_len n rest = (n / 2 ^ 24 % 256) ∷ (n / 2 ^ 16 % 256) ∷ (n / 2 ^ 8 % 256) ∷ (n % 256) ∷ rest

-- The record that `appendRecLocked` builds; `kv` is its test `cf >= 10`.
unfoldable pub make_rec : Bool → Bool → Bytes → Bytes → Bytes
make_rec kv deleted key value =
    ((if deleted then 1 else 0) + (if kv then 2 else 0))
    ∷ be_len (length key) (key ++ (if kv then be_len (length value) value else []))

be_len-sum :
    (n : ℕ)
    → n < 2 ^ 32
    → n / 2 ^ 24 % 256 * 2 ^ 24 + n / 2 ^ 16 % 256 * 2 ^ 16 + n / 2 ^ 8 % 256 * 2 ^ 8 + n % 256 ≡ n
be_len-sum n h = omega arith

take_all : (xs : Bytes) → take (length xs) xs ≡ xs
take_all [] = refl
take_all (x ∷ xs) = ap (◌∷◌ x) (take_all xs)

module _ (kv deleted : Bool) (key value : Bytes) (fits : length key < 2 ^ 32) where
  pub rec_klen-make_rec : rec_klen (make_rec kv deleted key value) ≡ length key
  unfolding rec_klen make_rec
  rec_klen-make_rec = be_len-sum (length key) fits

  pub rec_deleted-make_rec : rec_deleted (make_rec kv deleted key value) ≡ deleted
  unfolding rec_deleted make_rec
  rec_deleted-make_rec = ground arith

  -- The key is read back.
  pub rec_key-make_rec : rec_key (make_rec kv deleted key value) ≡ key
  unfolding rec_key make_rec
  rec_key-make_rec = rw (rec_klen-make_rec) (take-length-append key _)

module _ (deleted : Bool) (key value : Bytes) (fits : length key < 2 ^ 32)
    (vfits : length value < 2 ^ 32) where
  value_part :
      drop (rec_klen (make_rec true deleted key value)) (drop 5 (make_rec true deleted key value))
      ≡ be_len (length value) value
  unfolding make_rec
  value_part = rw (rec_klen-make_rec true deleted key value fits) (drop-length-append key _)

  rec_vlen-make_rec : rec_vlen (make_rec true deleted key value) ≡ length value
  unfolding rec_vlen
  rec_vlen-make_rec = rw value_part (be_len-sum (length value) vfits)

  -- The value is read back.
  pub rec_value-make_rec : rec_value (make_rec true deleted key value) ≡ value
  unfolding rec_value
  rec_value-make_rec = rw (value_part, rec_vlen-make_rec) (take_all value)
