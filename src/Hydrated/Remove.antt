-- ===== src/Hydrated/Remove.antt =====
-- Removing a key in the arena is removing it in the list (hydrated.go, `removeKeyAt`).
use eavt_sql.Prelude.{
  some, take_of_short, ℕ, suc, ◌+◌, ◌-◌, ◌^◌, ◌<◌, ◌≡◌, refl, ap, ap₂, sym, ◌∙◌, List, [], ◌∷◌,
  ◌++◌, map, length, take, drop, arith, length-append, length-drop, take_of_length, drop_of_length,
  append_assoc, append-nil, take-length-append,
}
use eavt_sql.Bytes.Order.{Bytes}
use eavt_sql.Eavt.Keys.{copy_at}
use eavt_sql.Hydrated.{Entry, sub32, move, remove_span, remove_key_at}
use eavt_sql.Hydrated.Copy.{copy_at-append, move-tail}
use eavt_sql.Hydrated.Pack.{
  concat_keys, offsets, pack, concat_keys-append, length-offsets, map_sub32, offs-parts, whole,
  on_bounds-pack, buf-parts,
}

-- What a removal makes of the buffer and of the offsets.
abbrev pub removed_buf : ℕ → ℕ → Bytes → Bytes
removed_buf start next bs =
    let moved = move start next (length bs - next) bs in take (length moved - (next - start)) moved

abbrev removed_offs : ℕ → ℕ → List ℕ → List ℕ
removed_offs pos old offs =
    let offs1 = copy_at pos (drop (pos + 1) offs) offs in
    let offs2 = take (length offs1 - 1) offs1 in take pos offs2 ++ map (sub32 old) (drop pos offs2)

pub removed_buf-parts :
    (front key rest : Bytes)
    → removed_buf (length front) (length front + length key) (front ++ (key ++ rest))
      ≡ front ++ rest
removed_buf-parts front key rest =
    let bs = front ++ (key ++ rest) in
    let start = length front in
    let next = start + length key in
    let tail : length bs - next ≡ length rest =
      omega (arith, length-append front (key ++ rest), length-append key rest) in
    let split : bs ≡ (front ++ key) ++ (rest ++ []) =
      sym (append_assoc front key rest) ∙ ap (λ z. (front ++ key) ++ z) (sym (append-nil rest)) in
    let moved : move start next (length bs - next) bs
        ≡ front ++ (rest ++ drop (length rest) (key ++ rest)) =
      ap (λ n. move start next n bs) tail
      ∙ ap (λ z. move start next (length rest) z) split
      ∙ move-tail next start (front ++ key) rest [] (length-append front key)
      ∙ ap (λ z. copy_at start rest z) (sym split)
      ∙ copy_at-append front rest (key ++ rest)
      ∙ ap (λ z. front ++ (z ++ drop (length rest) (key ++ rest)))
          (take_of_short (length (key ++ rest)) rest (omega (arith, length-append key rest))) in
    let stray = drop (length rest) (key ++ rest) in
    let cut : length (front ++ (rest ++ stray)) - (next - start) ≡ length (front ++ rest) = omega (
      arith,
      length-append front (rest ++ stray),
      length-append rest stray,
      length-append front rest,
      length-drop (length rest) (key ++ rest),
      length-append key rest,
    ) in
    rw (moved, cut)
      (ap (λ z. take (length (front ++ rest)) z) (sym (append_assoc front rest stray))
        ∙ take-length-append (front ++ rest) stray)

removed_offs-parts :
    (pos old : ℕ) (front rest : List ℕ) (s : ℕ)
    → length front ≡ pos
    → removed_offs pos old (front ++ s ∷ rest) ≡ front ++ map (sub32 old) rest
removed_offs-parts pos old front rest s e =
    let offs = front ++ s ∷ rest in
    let stray = drop (length rest) (s ∷ rest) in
    let behind : drop (pos + 1) offs ≡ rest =
      ap (λ z. drop (pos + 1) z) (sym (append_assoc front (s ∷ []) rest))
      ∙ drop_of_length (pos + 1) (front ++ s ∷ []) rest
          (omega (arith, e, length-append front (s ∷ []))) in
    let copied : copy_at pos (drop (pos + 1) offs) offs ≡ (front ++ rest) ++ stray =
      ap (λ z. copy_at pos z offs) behind
      ∙ ap (λ n. copy_at n rest offs) (sym e)
      ∙ copy_at-append front rest (s ∷ rest)
      ∙ ap (λ z. front ++ (z ++ stray)) (take_of_short (suc (length rest)) rest (omega arith))
      ∙ sym (append_assoc front rest stray) in
    let cut : length ((front ++ rest) ++ stray) - 1 ≡ length (front ++ rest) =
      omega (arith, length-append (front ++ rest) stray, length-drop (length rest) (s ∷ rest)) in
    rw
      (
        copied,
        cut,
        take-length-append (front ++ rest) stray,
        take_of_length pos front rest e,
        drop_of_length pos front rest e,
      )
      refl

abbrev removed : ℕ → ℕ → ℕ → Bytes → List ℕ → ℕ × Entry
removed pos start next buf offs = (
  next - start,
  record { buf = removed_buf start next buf; offs = removed_offs pos (next - start) offs },
)

-- Removing the key at a position, for keys of fewer than 2 ^ 31 bytes in all: the arena is that of the
-- list without the key, and the result its length.
pub remove_key_at-pack :
    (front : List Bytes) (key : Bytes) (back : List Bytes)
    → length (concat_keys (front ++ key ∷ back)) < 2 ^ 31
    → remove_key_at (length front) (pack (front ++ key ∷ back))
      ≡ some (length key, pack (front ++ back))
unfolding remove_key_at remove_span
remove_key_at-pack front key back small =
    let pos = length front in
    let at = length (concat_keys front) in
    let buf = concat_keys front ++ (key ++ concat_keys back) in
    let offs = offsets 0 front ++ at ∷ offsets (at + length key) back in
    let bounds : at + length key + length (concat_keys back) < 2 ^ 31 = omega (
      arith,
      small,
      ap length (buf-parts front key back),
      length-append (concat_keys front) (key ++ concat_keys back),
      length-append key (concat_keys back),
    ) in
    let old : at + length key - at ≡ length key = omega arith in
    let shifted : removed_offs pos (length key) offs ≡ offsets 0 (front ++ back) =
      removed_offs-parts pos (length key) (offsets 0 front) (offsets (at + length key) back) at
        (length-offsets 0 front)
      ∙ ap (λ z. offsets 0 front ++ z) (map_sub32 (length key) at back (omega (arith, bounds)))
      ∙ sym (offs-parts front back) in
    let left : removed_buf at (at + length key) buf ≡ concat_keys (front ++ back) =
      removed_buf-parts (concat_keys front) key (concat_keys back)
      ∙ sym (concat_keys-append front back) in
    let e = whole front key back in
    on_bounds-pack front key back (λ start next. removed pos start next e.buf e.offs)
      (omega (arith, bounds))
    ∙ ap₂ (λ x y. some (removed pos at (at + length key) x y)) (buf-parts front key back)
        (offs-parts front (key ∷ back))
    ∙ ap
        (λ n. some (
          n,
          record { buf = removed_buf at (at + length key) buf; offs = removed_offs pos n offs },
        ))
        old
    ∙ ap₂ (λ x y. some (length key, record { buf = x; offs = y })) left shifted
