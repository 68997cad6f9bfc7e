-- ===== src/Hydrated/Replace.antt =====
-- Replacing a key in the arena is replacing it in the list (hydrated.go, `replaceKeyAt`).
use eavt_sql.Prelude.{
  some, ℕ, ◌+◌, ◌-◌, ◌^◌, ◌≤◌, ◌<◌, ◌≡◌, ap, ap₂, sym, ◌∙◌, inl, inr, List, [], ◌∷◌, ◌++◌, map, ltb,
  length, take, drop, replicate, arith, Bool-cases, length-append, length-drop, length-take,
  take_of_length, drop_of_length, append_assoc, take-append-drop,
}
use eavt_sql.Bytes.Order.{Bytes}
use eavt_sql.Eavt.Keys.{copy_at}
use eavt_sql.Hydrated.{Entry, add32, sub32, move, replace_span, replace_key_at}
use eavt_sql.Hydrated.Copy.{copy_at-part}
use eavt_sql.Hydrated.Pack.{
  concat_keys, offsets, pack, length-offsets, map_add32, map_sub32, before, offs-parts, whole,
  on_bounds-pack, buf-parts,
}
use eavt_sql.Hydrated.Insert.{move-gap}
use eavt_sql.Hydrated.Remove.{removed_buf, removed_buf-parts}

abbrev replaced_offs : ℕ → (ℕ → ℕ) → List ℕ → List ℕ
replaced_offs pos shift offs = take (pos + 1) offs ++ map shift (drop (pos + 1) offs)

replaced_offs-parts :
    (pos : ℕ) (shift : ℕ → ℕ) (front rest : List ℕ) (s : ℕ)
    → length front ≡ pos
    → replaced_offs pos shift (front ++ s ∷ rest) ≡ front ++ s ∷ map shift rest
replaced_offs-parts pos shift front rest s e =
    let width : length (front ++ s ∷ []) ≡ pos + 1 =
      omega (arith, length-append front (s ∷ []), e) in
    ap (replaced_offs pos shift) (sym (append_assoc front (s ∷ []) rest))
    ∙ ap₂ (λ x y. x ++ map shift y) (take_of_length (pos + 1) (front ++ s ∷ []) rest width)
        (drop_of_length (pos + 1) (front ++ s ∷ []) rest width)
    ∙ append_assoc front (s ∷ []) (map shift rest)

-- The buffer of each case.
module _ (front old rest key : Bytes) where
  abbrev buf0 : Bytes
  buf0 = front ++ (old ++ rest)

  abbrev old_end : ℕ
  old_end = length front + length old

  tail : length buf0 - old_end ≡ length rest
  tail = omega (arith, length-append front (old ++ rest), length-append old rest)

  grown-parts :
      length old ≤ length key
      → copy_at (length front) key (
          move
            (old_end + (length key - length old))
            old_end
            (length buf0 - old_end)
            (buf0 ++ replicate (length key - length old) 0))
        ≡ front ++ (key ++ rest)
  grown-parts h =
      let d = length key - length old in
      let (gap, count, moved) = move-gap d (front ++ old) rest in
      let at : length (front ++ old) ≡ old_end = length-append front old in
      let split : buf0 ++ replicate d 0 ≡ (front ++ old) ++ (rest ++ replicate d 0) =
        ap (λ z. z ++ replicate d 0) (sym (append_assoc front old rest))
        ∙ append_assoc (front ++ old) rest (replicate d 0) in
      ap₂ (λ n z. copy_at (length front) key (move (old_end + d) old_end n z)) tail split
      ∙ ap
          (λ n.
            copy_at (length front) key
              (move (n + d) n (length rest) ((front ++ old) ++ (rest ++ replicate d 0))))
          (sym at)
      ∙ ap (λ z. copy_at (length front) key z)
          (moved
            ∙ append_assoc front old (gap ++ rest)
            ∙ ap (λ z. front ++ z) (sym (append_assoc old gap rest)))
      ∙ copy_at-part front key (old ++ gap) rest (omega (arith, length-append old gap, count, h))

  shrunk-parts :
      length key ≤ length old
      → copy_at (length front) key (
          let moved =
            move (old_end - (length old - length key)) old_end (length buf0 - old_end) buf0 in
          take (length moved - (length old - length key)) moved)
        ≡ front ++ (key ++ rest)
  shrunk-parts h =
      let d = length old - length key in
      let kept = take (length key) old in
      let gone = drop (length key) old in
      let kept_count : length kept ≡ length key = omega (arith, length-take (length key) old, h) in
      let gone_count : length gone ≡ d = length-drop (length key) old in
      let at : length (front ++ kept) ≡ old_end - d =
        omega (arith, length-append front kept, kept_count, h) in
      let to : length (front ++ kept) + length gone ≡ old_end = omega (arith, at, gone_count, h) in
      let less : old_end - (old_end - d) ≡ d = omega (arith, h) in
      let split : buf0 ≡ (front ++ kept) ++ (gone ++ rest) =
        ap (λ z. front ++ (z ++ rest)) (sym (take-append-drop (length key) old))
        ∙ ap (λ z. front ++ z) (append_assoc kept gone rest)
        ∙ sym (append_assoc front kept (gone ++ rest)) in
      let cut : removed_buf (old_end - d) old_end buf0 ≡ (front ++ kept) ++ rest =
        ap₂ (λ x y. removed_buf x y buf0) (sym at) (sym to)
        ∙ ap (λ z. removed_buf (length (front ++ kept)) (length (front ++ kept) + length gone) z)
            split
        ∙ removed_buf-parts (front ++ kept) gone rest in
      let moved = move (old_end - d) old_end (length buf0 - old_end) buf0 in
      ap (λ n. copy_at (length front) key (take (length moved - n) moved)) (sym less)
      ∙ ap (λ z. copy_at (length front) key z) (cut ∙ append_assoc front kept rest)
      ∙ copy_at-part front key kept rest kept_count

abbrev arena : Bytes → List ℕ → Entry
arena buf offs = record { buf = buf; offs = offs }

spans :
    (front : List Bytes) (old key : Bytes) (back : List Bytes)
    → before front + length old + length (concat_keys back) < 2 ^ 32
    → before front + length key + length (concat_keys back) < 2 ^ 32
    → replace_span (length front) key (before front) (before front + length old) (length old) (
        arena
          (concat_keys front ++ (old ++ concat_keys back))
          (offsets 0 front ++ offsets (before front) (old ∷ back)))
      ≡ arena
          (concat_keys front ++ (key ++ concat_keys back))
          (offsets 0 front ++ offsets (before front) (key ∷ back))
unfolding replace_span
spans front old key back bound bound' =
    let at = before front in
    let ends = offsets (at + length old) back in
    let count = length-offsets 0 front in
    let grow = λ (h : length old ≤ length key).
      let far : at + length old + (length key - length old) ≡ at + length key = omega (arith, h) in
      replaced_offs-parts (length front) (add32 (length key - length old)) (offsets 0 front) ends at
        count
      ∙ ap (λ z. offsets 0 front ++ at ∷ z)
          (map_add32 (length key - length old) (at + length old) back (omega (arith, h, bound'))
            ∙ ap (λ n. offsets n back) far) in
    let shrink = λ (h : length key ≤ length old).
      let far : at + length old ≡ at + length key + (length old - length key) = omega (arith, h) in
      replaced_offs-parts (length front) (sub32 (length old - length key)) (offsets 0 front) ends at
        count
      ∙ ap (λ z. offsets 0 front ++ at ∷ z)
          (ap (λ n. map (sub32 (length old - length key)) (offsets n back)) far
            ∙ map_sub32 (length old - length key) (at + length key) back
                (omega (arith, h, bound))) in
    let same = λ (h : length old ≡ length key).
      copy_at-part (concat_keys front) key old (concat_keys back) h in
    elim (Bool-cases (ltb (length old) (length key))) [
      | inl t ↦
          let h : length old ≤ length key = ground (arith, t) in
          rw (replace_span, t)
            (ap₂ arena (grown-parts (concat_keys front) old (concat_keys back) key h) (grow h))
      | inr f ↦ elim (Bool-cases (ltb (length key) (length old))) [
        | inl t ↦
            let h : length key ≤ length old = ground (arith, t) in
            rw (replace_span, f, t)
              (ap₂ arena (shrunk-parts (concat_keys front) old (concat_keys back) key h) (shrink h))
        | inr f' ↦
            let h : length old ≡ length key = ground (arith, f, f') in
            rw (replace_span, f, f')
              (ap₂ arena (same h) (ap (λ n. offsets 0 front ++ at ∷ offsets (at + n) back) h))
      ]
    ]

-- Replacing the key at a position, for keys of fewer than 2 ^ 31 bytes in all, before and after: the
-- arena is that of the list with the new key in the place of the old one.
pub replace_key_at-pack :
    (front : List Bytes) (old key : Bytes) (back : List Bytes)
    → length (concat_keys (front ++ old ∷ back)) < 2 ^ 31
    → length (concat_keys (front ++ key ∷ back)) < 2 ^ 31
    → replace_key_at (length front) key (pack (front ++ old ∷ back))
      ≡ some (pack (front ++ key ∷ back))
unfolding replace_key_at
replace_key_at-pack front old key back small small' =
    let pos = length front in
    let at = before front in
    let rest = concat_keys back in
    let size = length-append (concat_keys front) (old ++ rest) in
    let size' = length-append (concat_keys front) (key ++ rest) in
    let bound : at + length old + length rest < 2 ^ 31 =
      omega (arith, small, ap length (buf-parts front old back), size, length-append old rest) in
    let bound' : at + length key + length rest < 2 ^ 31 =
      omega (arith, small', ap length (buf-parts front key back), size', length-append key rest) in
    let kept : at + length old - at ≡ length old = omega arith in
    let e = whole front old back in
    on_bounds-pack front old back (λ start next. replace_span pos key start next (next - start) e)
      (omega (arith, bound))
    ∙ ap (λ n. some (replace_span pos key at (at + length old) n e)) kept
    ∙ ap₂ (λ x y. some (replace_span pos key at (at + length old) (length old) (arena x y)))
        (buf-parts front old back) (offs-parts front (old ∷ back))
    ∙ ap some (spans front old key back (omega (arith, bound)) (omega (arith, bound')))
    ∙ ap₂ (λ x y. some (arena x y)) (sym (buf-parts front key back))
        (sym (offs-parts front (key ∷ back)))
