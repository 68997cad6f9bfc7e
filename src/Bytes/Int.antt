-- ===== src/Bytes/Int.antt =====
-- 64-bit integers: an `int64` is an integer, with its two's complement pattern; `uint64` values are
-- below 2 ^ 64. Big-endian bytes as `encoding/binary` writes them.
use Prim.Native.Nat.{Ordering}
use eavt_sql.Prelude.{
  ℕ, zero, suc, ◌+◌, ◌-◌, ◌*◌, ◌/◌, ◌%◌, ◌^◌, ◌≤◌, ◌<◌, ◌≡◌, refl, sym, ◌∙◌, [], ◌∷◌, ◌++◌, arith,
  ltb, compare, if◌then◌else◌, length, length-append,
}
use native.Mathlib.Nat.{pow-suc, mod-eq_of_lt}
use eavt_sql.Bytes.Order.{Bytes, cmp_keys}

-- `negsuc n` is -(n + 1).
pub data ℤ : Type 0 where
  pos negsuc : ℕ → ℤ

abbrev pub IsInt64 : ℤ → Type 0
IsInt64 (pos n) = n < 2 ^ 63
IsInt64 (negsuc n) = n < 2 ^ 63

-- `uint64(n)`.
abbrev pub u64 : ℤ → ℕ
u64 (pos n) = n % 2 ^ 64
u64 (negsuc n) = 2 ^ 64 - 1 - n % 2 ^ 64

-- `int64(x)`.
abbrev pub i64 : ℕ → ℤ
i64 x = if ltb x (2 ^ 63) then pos x else negsuc (2 ^ 64 - 1 - x)

abbrev pub compare_ℤ : ℤ → ℤ → Ordering
compare_ℤ (pos a) (pos b) = compare a b
compare_ℤ (pos a) (negsuc b) = Ordering.gt
compare_ℤ (negsuc a) (pos b) = Ordering.lt
compare_ℤ (negsuc a) (negsuc b) = compare b a

-- `x ^ (1 << 63)`: the top bit flips.
abbrev pub flip_top : ℕ → ℕ
flip_top x = (x + 2 ^ 63) % 2 ^ 64

-- The `n` low bytes of `x`, the most significant first.
unfoldable pub be_bytes : ℕ → ℕ → Bytes
be_bytes zero x = []
be_bytes (suc n) x = be_bytes n (x / 256) ++ (x % 256) ∷ []

-- `for ... { v = (v << 8) | uint64(b) }`; the `|` is of disjoint bits.
unfoldable pub be_value : ℕ → ℕ → Bytes → ℕ
be_value modulus v [] = v
be_value modulus v (b ∷ bs) = be_value modulus (v * 256 % modulus + b) bs

pub length-be_bytes : (n x : ℕ) → length (be_bytes n x) ≡ n
unfolding be_bytes
length-be_bytes zero x = refl
length-be_bytes (suc n) x =
    omega
      (arith, length-append (be_bytes n (x / 256)) ((x % 256) ∷ []), length-be_bytes n (x / 256))

abbrev then_by : Ordering → Ordering → Ordering
then_by Ordering.lt o = Ordering.lt
then_by Ordering.eq o = o
then_by Ordering.gt o = Ordering.gt

-- Of byte strings of one length the fronts decide first.
pub cmp_keys-append :
    (a b c d : Bytes)
    → length a ≡ length b
    → cmp_keys (a ++ c) (b ++ d) ≡ then_by (cmp_keys a b) (cmp_keys c d)
unfolding cmp_keys
cmp_keys-append [] [] c d h = refl
cmp_keys-append [] (y ∷ b) c d h = absurd (omega arith)
cmp_keys-append (x ∷ a) [] c d h = absurd (omega arith)
cmp_keys-append (x ∷ a) (y ∷ b) c d h = ground (arith, cmp_keys-append a b c d)

cmp_one : (x y : ℕ) → cmp_keys (x ∷ []) (y ∷ []) ≡ compare x y
unfolding cmp_keys
cmp_one x y = ground arith

compare_digits :
    (x y : ℕ) → then_by (compare (x / 256) (y / 256)) (compare (x % 256) (y % 256)) ≡ compare x y
compare_digits x y = ground arith

-- Big-endian bytes are ordered as the numbers are.
pub cmp_keys-be_bytes :
    (n x y : ℕ) → x < 256 ^ n → y < 256 ^ n → cmp_keys (be_bytes n x) (be_bytes n y) ≡ compare x y
unfolding be_bytes
cmp_keys-be_bytes zero x y h k = unfold cmp_keys in ground arith
cmp_keys-be_bytes (suc n) x y h k =
    let hx : x / 256 < 256 ^ n = omega (arith, pow-suc 256 n) in
    let hy : y / 256 < 256 ^ n = omega (arith, pow-suc 256 n) in
    rw
      (
        cmp_keys-append (be_bytes n (x / 256)) (be_bytes n (y / 256)) ((x % 256) ∷ [])
            ((y % 256) ∷ []) (length-be_bytes n (x / 256) ∙ sym (length-be_bytes n (y / 256))),
        cmp_keys-be_bytes n (x / 256) (y / 256) hx hy,
        cmp_one,
      )
      (compare_digits x y)

be_value-snoc :
    (m v : ℕ) (xs : Bytes) (b : ℕ) → be_value m v (xs ++ b ∷ []) ≡ be_value m v xs * 256 % m + b
unfolding be_value
be_value-snoc m v [] b = refl
be_value-snoc m v (x ∷ xs) b = be_value-snoc m (v * 256 % m + x) xs b

-- Reading back what was written.
pub be_value-be_bytes : (m n x : ℕ) → x < 256 ^ n → 256 ^ n ≤ m → be_value m 0 (be_bytes n x) ≡ x
unfolding be_bytes
be_value-be_bytes m zero x h k = unfold be_value in omega arith
be_value-be_bytes m (suc n) x h k =
    let low : x / 256 < 256 ^ n = omega (arith, pow-suc 256 n) in
    rw
      (
        be_value-snoc m 0 (be_bytes n (x / 256)) (x % 256),
        be_value-be_bytes m n (x / 256) low (omega (arith, pow-suc 256 n)),
        mod-eq_of_lt {n = x / 256 * 256} {m = m} (omega arith),
      )
      (omega arith)
