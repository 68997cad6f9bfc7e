-- ===== src/Hydrated/Insert.antt =====
-- Inserting a key in the arena is inserting it in the list (hydrated.go, `insertKeyAt`).
use eavt_sql.Prelude.{
  none, some, ℕ, ◌+◌, ◌-◌, ◌%◌, ◌^◌, ◌<◌, ◌≡◌, refl, ap, ap₂, sym, ◌∙◌, true, false, List, [], ◌∷◌,
  ◌++◌, map, ltb, if◌then◌else◌, length, take, drop, replicate, arith, length-append, length-drop,
  length-take, length-replicate, take_of_length, drop_of_length, drop_of_short, append_assoc,
  append-nil, take-append-drop, take-length-append,
}
use eavt_sql.Bytes.Order.{Bytes}
use eavt_sql.Eavt.Keys.{copy_at}
use eavt_sql.Hydrated.{Entry, key_start, add32, move, insert_span, insert_key_at}
use eavt_sql.Hydrated.Copy.{copy_at-append, copy_at-part, move-tail}
use eavt_sql.Hydrated.Pack.{
  concat_keys, offsets, pack, concat_keys-append, length-offsets, map_add32, before, offs-parts,
  start-pack, buf-parts,
}

abbrev inserted_buf : ℕ → Bytes → Bytes → Bytes
inserted_buf ins key bs =
    let klen = length key in
    let buf1 = bs ++ replicate klen 0 in
    copy_at ins key (move (ins + klen) ins (length buf1 - ins - klen) buf1)

abbrev inserted_offs : ℕ → ℕ → ℕ → List ℕ → List ℕ
inserted_offs idx ins klen offs =
    let offs1 = offs ++ 0 ∷ [] in
    let offs2 = copy_at idx ((ins % 2 ^ 32) ∷ []) (copy_at (idx + 1) (drop idx offs1) offs1) in
    take (idx + 1) offs2 ++ map (add32 klen) (drop (idx + 1) offs2)

-- The end of the buffer is moved, and leaves a gap.
pub move-gap :
    (d : ℕ) (front rest : Bytes)
    → (gap : Bytes) × (length gap ≡ d)
      × (move (length front + d) (length front) (length rest) (front ++ (rest ++ replicate d 0))
          ≡ front ++ (gap ++ rest))
move-gap d front rest =
    let zeros = replicate d 0 in
    let ins = length front in
    let gap = take d (rest ++ zeros) in
    let old = drop d (rest ++ zeros) in
    let size = length-append rest zeros in
    let zero_count : length zeros ≡ d = length-replicate d 0 in
    let gap_count : length gap ≡ d =
      omega (arith, length-take d (rest ++ zeros), size, zero_count) in
    let split : front ++ (rest ++ zeros) ≡ (front ++ gap) ++ (old ++ []) =
      ap (λ z. front ++ z)
        (sym (take-append-drop d (rest ++ zeros)) ∙ ap (λ z. gap ++ z) (sym (append-nil old)))
      ∙ sym (append_assoc front gap (old ++ [])) in
    let at : length (front ++ gap) ≡ ins + d = omega (arith, length-append front gap, gap_count) in
    let moved =
      move-tail ins (ins + d) front rest zeros refl
      ∙ ap (λ z. copy_at (ins + d) rest z) split
      ∙ ap (λ n. copy_at n rest ((front ++ gap) ++ (old ++ []))) (sym at)
      ∙ copy_at-part (front ++ gap) rest old []
          (omega (arith, length-drop d (rest ++ zeros), size, zero_count))
      ∙ ap (λ z. (front ++ gap) ++ z) (append-nil rest)
      ∙ append_assoc front gap rest in
    (gap, gap_count, moved)

inserted_buf-parts :
    (front key rest : Bytes)
    → inserted_buf (length front) key (front ++ rest) ≡ front ++ (key ++ rest)
inserted_buf-parts front key rest =
    let klen = length key in
    let ins = length front in
    let zeros = replicate klen 0 in
    let zero_count : length zeros ≡ klen = length-replicate klen 0 in
    let (gap, gap_count, moved) = move-gap klen front rest in
    let buf1 : (front ++ rest) ++ zeros ≡ front ++ (rest ++ zeros) =
      append_assoc front rest zeros in
    let tail : length (front ++ (rest ++ zeros)) - ins - klen ≡ length rest =
      omega (arith, length-append front (rest ++ zeros), length-append rest zeros, zero_count) in
    ap (λ z. copy_at ins key (move (ins + klen) ins (length z - ins - klen) z)) buf1
    ∙ ap (λ n. copy_at ins key (move (ins + klen) ins n (front ++ (rest ++ zeros)))) tail
    ∙ ap (λ z. copy_at ins key z) moved
    ∙ copy_at-part front key gap rest gap_count

inserted_offs-parts :
    (idx ins klen : ℕ) (front rest : List ℕ)
    → length front ≡ idx
    → ins < 2 ^ 32
    → inserted_offs idx ins klen (front ++ rest) ≡ front ++ ins ∷ map (add32 klen) rest
inserted_offs-parts idx ins klen front rest e small =
    let longer = rest ++ 0 ∷ [] in
    let size = length-append rest (0 ∷ []) in
    let one = take 1 longer in
    let others = drop 1 longer in
    let start : ins % 2 ^ 32 ≡ ins = omega (arith, small) in
    let offs1 : (front ++ rest) ++ 0 ∷ [] ≡ front ++ longer = append_assoc front rest (0 ∷ []) in
    let split : front ++ longer ≡ (front ++ one) ++ others =
      ap (λ z. front ++ z) (sym (take-append-drop 1 longer))
      ∙ sym (append_assoc front one others) in
    let at : length (front ++ one) ≡ idx + 1 =
      omega (arith, length-append front one, length-take 1 longer, size, e) in
    let count : length others ≡ length rest = omega (arith, length-drop 1 longer, size) in
    let copied : copy_at (idx + 1) (drop idx (front ++ longer)) (front ++ longer)
        ≡ front ++ (one ++ rest) =
      ap (λ z. copy_at (idx + 1) z (front ++ longer)) (drop_of_length idx front longer e)
      ∙ ap₂ (λ n z. copy_at n longer z) (sym at) split
      ∙ copy_at-append (front ++ one) longer others
      ∙ ap (λ n. (front ++ one) ++ (take n longer ++ drop (length longer) others)) count
      ∙ ap₂ (λ x y. (front ++ one) ++ (x ++ y)) (take-length-append rest (0 ∷ []))
          (drop_of_short (length longer) others (omega (arith, count, size)))
      ∙ ap (λ z. (front ++ one) ++ z) (append-nil rest)
      ∙ append_assoc front one rest in
    let set : copy_at idx (ins ∷ []) (front ++ (one ++ rest)) ≡ (front ++ ins ∷ []) ++ rest =
      ap (λ n. copy_at n (ins ∷ []) (front ++ (one ++ rest))) (sym e)
      ∙ copy_at-part front (ins ∷ []) one rest (omega (arith, length-take 1 longer, size))
      ∙ sym (append_assoc front (ins ∷ []) rest) in
    let width : length (front ++ ins ∷ []) ≡ idx + 1 =
      omega (arith, length-append front (ins ∷ []), e) in
    rw
      (
        start,
        offs1,
        copied,
        set,
        take_of_length (idx + 1) (front ++ ins ∷ []) rest width,
        drop_of_length (idx + 1) (front ++ ins ∷ []) rest width,
      )
      (append_assoc front (ins ∷ []) (map (add32 klen) rest))

ins-pack :
    (front back : List Bytes)
    → before front < 2 ^ 31
    → (if ltb (length front) (length (pack (front ++ back)).offs)
        then key_start (length front) (pack (front ++ back))
        else some (length (pack (front ++ back)).buf))
      ≡ some (before front)
ins-pack front [] small =
    let e = pack (front ++ []) in
    let last : ltb (length front) (length e.offs) ≡ false =
      ground (arith, length-offsets 0 (front ++ []), length-append front []) in
    ap (λ z. if z then key_start (length front) e else some (length e.buf)) last
    ∙ ap (λ z. some (length (concat_keys z))) (append-nil front)
ins-pack front (k ∷ back) small =
    let e = pack (front ++ k ∷ back) in
    let inside : ltb (length front) (length e.offs) ≡ true =
      ground (arith, length-offsets 0 (front ++ k ∷ back), length-append front (k ∷ back)) in
    ap (λ z. if z then key_start (length front) e else some (length e.buf)) inside
    ∙ start-pack front k back small

abbrev arena : Bytes → List ℕ → Entry
arena buf offs = record { buf = buf; offs = offs }

-- Inserting a key at a position, for keys of fewer than 2 ^ 31 bytes in all with the new one: the arena
-- is that of the list with the key at that position.
pub insert_key_at-pack :
    (front : List Bytes) (key : Bytes) (back : List Bytes)
    → length (concat_keys (front ++ key ∷ back)) < 2 ^ 31
    → insert_key_at (length front) key (pack (front ++ back)) ≡ some (pack (front ++ key ∷ back))
unfolding insert_key_at insert_span
insert_key_at-pack front key back small =
    let at = before front in
    let rest = concat_keys back in
    let bounds : at + length key + length rest < 2 ^ 31 = omega (
      arith,
      small,
      ap length (buf-parts front key back),
      length-append (concat_keys front) (key ++ rest),
      length-append key rest,
    ) in
    let offs = offsets 0 front ++ offsets at back in
    let shifted : inserted_offs (length front) at (length key) offs
        ≡ offsets 0 (front ++ key ∷ back) =
      inserted_offs-parts (length front) at (length key) (offsets 0 front) (offsets at back)
        (length-offsets 0 front) (omega (arith, bounds))
      ∙ ap (λ z. offsets 0 front ++ at ∷ z) (map_add32 (length key) at back (omega (arith, bounds)))
      ∙ sym (offs-parts front (key ∷ back)) in
    let filled : inserted_buf at key (concat_keys front ++ rest)
        ≡ concat_keys (front ++ key ∷ back) =
      inserted_buf-parts (concat_keys front) key rest ∙ sym (buf-parts front key back) in
    let result = λ (ins : ℕ) (buf : Bytes) (offs : List ℕ).
      arena (inserted_buf ins key buf) (inserted_offs (length front) ins (length key) offs) in
    ap
      (λ o. elim o [
        | none ↦ none
        | some n ↦ some (result n (concat_keys (front ++ back)) (offsets 0 (front ++ back)))
      ])
      (ins-pack front back (omega (arith, bounds)))
    ∙ ap₂ (λ x y. some (result at x y)) (concat_keys-append front back) (offs-parts front back)
    ∙ ap₂ (λ x y. some (arena x y)) filled shifted
