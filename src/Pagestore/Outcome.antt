-- ===== src/Pagestore/Outcome.antt =====
-- What a decoder of the page store ends with: a result, an error value, or a Go run-time panic
-- (a slice expression out of bounds).
use eavt_sql.Prelude.{◌≡◌, refl}

pub data Error : Type 0 where
  truncated_varint varint_too_long page_too_short truncated_key truncated_value : Error
  truncated_index_entry invalid_root_magic unsupported_root_version truncated_root : Error
  blob_failed leaf_not_found page_unreadable read_only root_not_written root_unreadable : Error

pub data Outcome {ℓ} (A : Type ℓ) : Type ℓ where
  ok : A → Outcome A
  err : Error → Outcome A
  panic : Outcome A

infixl 5 ◌>>=◌
abbrev pub ◌>>=◌ {ℓ κ} : {A : Type ℓ} {B : Type κ} → Outcome A → (A → Outcome B) → Outcome B
ok a >>= f = f a
err e >>= f = err e
panic >>= f = panic

abbrev pub map_outcome {ℓ κ} : {A : Type ℓ} {B : Type κ} → (A → B) → Outcome A → Outcome B
map_outcome f (ok a) = ok (f a)
map_outcome f (err e) = err e
map_outcome f panic = panic

pub >>=_assoc {ℓ κ ν} :
    {A : Type ℓ} {B : Type κ} {C : Type ν} (m : Outcome A) (f : A → Outcome B) (g : B → Outcome C)
    → (m >>= f >>= g) ≡ (m >>= λ a. f a >>= g)
>>=_assoc (ok a) f g = refl
>>=_assoc (err e) f g = refl
>>=_assoc panic f g = refl

-- Two continuations that agree up to a map agree after the same first step.
pub >>=-map_outcome {ℓ κ ν} :
    {A : Type ℓ} {B : Type κ} {C : Type ν} (g : C → B) (m : Outcome A) (f : A → Outcome B)
    (h : A → Outcome C)
    → ((a : A) → f a ≡ map_outcome g (h a))
    → (m >>= f) ≡ map_outcome g (m >>= h)
>>=-map_outcome g (ok a) f h e = e a
>>=-map_outcome g (err x) f h e = refl
>>=-map_outcome g panic f h e = refl

pub map_outcome-pure {ℓ κ ν} :
    {A : Type ℓ} {B : Type κ} {C : Type ν} (g : C → B) (k : A → C) (m : Outcome A)
    → map_outcome (λ a. g (k a)) m ≡ map_outcome g (m >>= λ a. ok (k a))
map_outcome-pure g k (ok a) = refl
map_outcome-pure g k (err x) = refl
map_outcome-pure g k panic = refl
