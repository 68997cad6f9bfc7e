-- ===== src/Msgpack/Ends.antt =====
-- Where the reads of the msgpack decoder end (go/internal/msgpack/msgpack.go).
use eavt_sql.Prelude.{
  ℕ, ◌%◌, ◌^◌, ◌≤◌, ◌<◌, Bool, true, false, ◌||◌, ltb, ◌==◌, if◌then◌else◌, length, arith,
  length-drop, Bool-cases, inl, inr,
}
use eavt_sql.Bytes.Order.{Bytes}
use eavt_sql.Msgpack.Decode.{
  DecodeError, Decoded, ok, err, panic, out_of_fuel, truncated, next_bytes, ◌>>=◌, read_be,
  take_bytes, len_of,
}

-- The result is there, and no more than so many bytes are left.
unfoldable pub Ends {ℓ} : {A : Type ℓ} → ℕ → Decoded (A × Bytes) → Type 0
Ends n (ok r) = length r.1 ≤ n
Ends n (err e) = Unit
Ends n panic = ⊥
Ends n out_of_fuel = ⊥

module _ {ℓ κ} {A : Type ℓ} {B : Type κ} (n : ℕ) where
  pub Ends-bind :
      (d : Decoded (A × Bytes)) (f : A × Bytes → Decoded (B × Bytes))
      → Ends n d
      → ((r : A × Bytes) → length r.1 ≤ n → Ends n (f r))
      → Ends n (d >>= f)
  unfolding Ends
  Ends-bind (ok r) f h k = k r h
  Ends-bind (err e) f h k = tt
  Ends-bind panic f h k = h
  Ends-bind out_of_fuel f h k = h

-- A length that was read is that of a header.
unfoldable pub IsSmall : Decoded (ℕ × Bytes) → Type 0
IsSmall (ok r) = r.0 < 2 ^ 32
IsSmall (err e) = Unit
IsSmall panic = Unit
IsSmall out_of_fuel = Unit

pub IsSmall-if :
    (b : Bool) (p q : Decoded (ℕ × Bytes)) → IsSmall p → IsSmall q → IsSmall (if b then p else q)
IsSmall-if true p q h k = h
IsSmall-if false p q h k = k

pub IsSmall-read_be :
    (k : ℕ) (bs : Bytes) → ((x : ℕ) → x % 256 ^ k < 2 ^ 32) → IsSmall (read_be k bs)
unfolding read_be next_bytes IsSmall
IsSmall-read_be k bs small = elim (Bool-cases (ltb (length bs) k)) [
  | inl e ↦ rw e tt
  | inr e ↦ rw e (small _)
]

pub IsSmall-len_of : (b : ℕ) (bs : Bytes) → IsSmall (len_of b bs)
unfolding len_of IsSmall
IsSmall-len_of b bs =
    IsSmall-if (b == 0xc4 || b == 0xc7 || b == 0xd9) _ _ (IsSmall-read_be 1 bs (λ x. omega arith)) (
      IsSmall-if (b == 0xc5 || b == 0xc8 || b == 0xda || b == 0xdc || b == 0xde) _ _
        (IsSmall-read_be 2 bs (λ x. omega arith))
        (IsSmall-if (b == 0xc6 || b == 0xc9 || b == 0xdb || b == 0xdd || b == 0xdf) _ _
          (IsSmall-read_be 4 bs (λ x. omega arith)) tt))

-- The part that follows a length.
pub Ends-sized {κ} :
    {B : Type κ} (n : ℕ) (d : Decoded (ℕ × Bytes)) (f : ℕ × Bytes → Decoded (B × Bytes))
    → Ends n d
    → IsSmall d
    → ((r : ℕ × Bytes) → r.0 < 2 ^ 32 → length r.1 ≤ n → Ends n (f r))
    → Ends n (d >>= f)
unfolding Ends IsSmall
Ends-sized n (ok r) f h small k = k r small h
Ends-sized n (err e) f h small k = tt
Ends-sized n panic f h small k = h
Ends-sized n out_of_fuel f h small k = h

module _ {ℓ} (A : Type ℓ) (n : ℕ) where
  pub Ends-ok : (r : A × Bytes) → length r.1 ≤ n → Ends n (ok r)
  unfolding Ends
  Ends-ok r h = h

  pub Ends-err : (e : DecodeError) → Ends {A = A} n (err e)
  unfolding Ends
  Ends-err e = tt

module _ {ℓ} {A : Type ℓ} (m n : ℕ) where
  pub Ends-weaken : (d : Decoded (A × Bytes)) → m ≤ n → Ends m d → Ends n d
  unfolding Ends
  Ends-weaken (ok r) le h = omega (arith, le, h)
  Ends-weaken (err e) le h = tt
  Ends-weaken panic le h = h
  Ends-weaken out_of_fuel le h = h

pub Ends-if {ℓ} :
    {A : Type ℓ} (n : ℕ) (b : Bool) (p q : Decoded (A × Bytes))
    → Ends n p
    → Ends n q
    → Ends n (if b then p else q)
Ends-if n true p q h k = h
Ends-if n false p q h k = k

-- Behind the guard that there are so many bytes, the indices and slices are in range.
pub Ends-take_bytes : (n k : ℕ) (bs : Bytes) → length bs ≤ n → Ends n (take_bytes k bs)
unfolding take_bytes next_bytes
Ends-take_bytes n k bs h = elim (Bool-cases (ltb (length bs) k)) [
  | inl e ↦ rw e (Ends-err _ n truncated)
  | inr e ↦ rw e (Ends-ok _ n _ (omega (arith, h, length-drop k bs)))
]

pub Ends-read_be : (n k : ℕ) (bs : Bytes) → length bs ≤ n → Ends n (read_be k bs)
unfolding read_be next_bytes
Ends-read_be n k bs h = elim (Bool-cases (ltb (length bs) k)) [
  | inl e ↦ rw e (Ends-err _ n truncated)
  | inr e ↦ rw e (Ends-ok _ n _ (omega (arith, h, length-drop k bs)))
]
