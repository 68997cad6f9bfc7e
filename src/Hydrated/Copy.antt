-- ===== src/Hydrated/Copy.antt =====
-- Copies within a buffer that is given in pieces (hydrated.go).
use eavt_sql.Prelude.{
  drop-length-append-add, take_of_short, ℕ, ◌+◌, ◌-◌, ◌≡◌, ap, sym, subst, ◌∙◌, inl, inr, Bool, [],
  ◌++◌, ltb, if◌then◌else◌, length, take, drop, arith, Bool-cases, length-append, drop_of_length,
  drop_of_short, append_assoc, append-nil, take-append-drop, take-length-append,
}
use eavt_sql.Bytes.Order.{Bytes}
use eavt_sql.Eavt.Keys.{copy_at}
use eavt_sql.Hydrated.{move}

-- A copy behind a part of the buffer.
pub copy_at-append :
    (front src rest : Bytes)
    → copy_at (length front) src (front ++ rest)
      ≡ front ++ (take (length rest) src ++ drop (length src) rest)
unfolding copy_at
copy_at-append front src rest =
    let room : length (front ++ rest) - length front ≡ length rest =
      omega (arith, length-append front rest) in
    rw
      (copy_at, take-length-append front rest, room, drop-length-append-add front rest (length src))
      (append_assoc front (take (length rest) src) (drop (length src) rest))

-- A copy over a part of the same length.
pub copy_at-part :
    (front src part rest : Bytes)
    → length part ≡ length src
    → copy_at (length front) src (front ++ (part ++ rest)) ≡ front ++ (src ++ rest)
copy_at-part front src part rest e =
    let whole = length-append part rest in
    copy_at-append front src (part ++ rest)
    ∙ ap (λ z. front ++ (z ++ drop (length src) (part ++ rest)))
        (take_of_short (length (part ++ rest)) src (omega (arith, e, whole)))
    ∙ ap (λ z. front ++ (src ++ z)) (drop_of_length (length src) part rest e)

copy_at-nothing : (n : ℕ) (bs : Bytes) → copy_at n [] bs ≡ bs
unfolding copy_at
copy_at-nothing n bs =
    let none_taken : take {A = ℕ} (length bs - n) [] ≡ [] =
      take_of_short (length bs - n) [] (omega arith) in
    let same : n + 0 ≡ n = omega arith in
    rw (copy_at, none_taken, same, append-nil (take n bs)) (take-append-drop n bs)

-- A move of all that stands behind a part, guarded or not.
pub move-tail :
    (n to : ℕ) (front rest : Bytes) (more : Bytes)
    → length front ≡ n
    → move to n (length rest) (front ++ (rest ++ more)) ≡ copy_at to rest (front ++ (rest ++ more))
unfolding move
move-tail n to front rest more e =
    let bs = front ++ (rest ++ more) in
    let source : take (length rest) (drop n bs) ≡ rest =
      ap (λ z. take (length rest) z) (drop_of_length n front (rest ++ more) e)
      ∙ take-length-append rest more in
    let goal = λ (z : Bool).
      (if z then copy_at to (take (length rest) (drop n bs)) bs else bs) ≡ copy_at to rest bs in
    elim (Bool-cases (ltb 0 (length rest))) [
      | inl t ↦ subst goal (sym t) (ap (λ z. copy_at to z bs) source)
      | inr f ↦ subst goal (sym f) (
          sym (
            ap (λ z. copy_at to z bs) (drop_of_short 0 rest (ground (arith, f)))
            ∙ copy_at-nothing to bs))
    ]
