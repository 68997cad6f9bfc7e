-- ===== src/Hydrated/Pack.antt =====
-- The arena of a list of keys, and where each key stands in it (hydrated.go).
use eavt_sql.Prelude.{
  ℕ, suc, ◌+◌, ◌-◌, ◌%◌, ◌^◌, ◌<◌, ◌≡◌, refl, ap, ap₂, sym, ◌∙◌, true, false, List, [], ◌∷◌, ◌++◌,
  map, ltb, if◌then◌else◌, length, get_elem?, none, some, arith, length-append, append_assoc,
}
use eavt_sql.Bytes.Order.{Bytes}
use eavt_sql.Hydrated.{Entry, key_start, key_end, on_bounds, add32, sub32}

abbrev pub concat_keys : List Bytes → Bytes
concat_keys [] = []
concat_keys (k ∷ ks) = k ++ concat_keys ks

abbrev pub offsets : ℕ → List Bytes → List ℕ
offsets s [] = []
offsets s (k ∷ ks) = s ∷ offsets (s + length k) ks

-- The arena of a list of keys.
abbrev pub pack : List Bytes → Entry
pack ks = record { buf = concat_keys ks; offs = offsets 0 ks }

pub concat_keys-append :
    (ks more : List Bytes) → concat_keys (ks ++ more) ≡ concat_keys ks ++ concat_keys more
concat_keys-append [] more = refl
concat_keys-append (k ∷ ks) more =
    ap (λ z. k ++ z) (concat_keys-append ks more)
    ∙ sym (append_assoc k (concat_keys ks) (concat_keys more))

pub offsets-append :
    (s : ℕ) (ks more : List Bytes)
    → offsets s (ks ++ more) ≡ offsets s ks ++ offsets (s + length (concat_keys ks)) more
offsets-append s [] more = ap (λ z. offsets z more) (omega arith)
offsets-append s (k ∷ ks) more =
    let far : s + length k + length (concat_keys ks) ≡ s + length (k ++ concat_keys ks) =
      omega (arith, length-append k (concat_keys ks)) in
    ap (λ z. s ∷ z)
      (offsets-append (s + length k) ks more
        ∙ ap (λ z. offsets (s + length k) ks ++ offsets z more) far)

pub length-offsets : (s : ℕ) (ks : List Bytes) → length (offsets s ks) ≡ length ks
length-offsets s [] = refl
length-offsets s (k ∷ ks) = ap suc (length-offsets (s + length k) ks)

-- Adding to all offsets moves the keys, as long as they stay below 2 ^ 32.
pub map_add32 :
    (d s : ℕ) (ks : List Bytes)
    → s + d + length (concat_keys ks) < 2 ^ 32
    → map (add32 d) (offsets s ks) ≡ offsets (s + d) ks
map_add32 d s [] h = refl
map_add32 d s (k ∷ ks) h =
    let here = length-append k (concat_keys ks) in
    let first : (s + d) % 2 ^ 32 ≡ s + d = omega (arith, h, here) in
    let next : s + length k + d ≡ s + d + length k = omega arith in
    ap₂ (λ x y. x ∷ y) first
      (map_add32 d (s + length k) ks (omega (arith, h, here)) ∙ ap (λ z. offsets z ks) next)

pub map_sub32 :
    (d s : ℕ) (ks : List Bytes)
    → s + d + length (concat_keys ks) < 2 ^ 32
    → map (sub32 d) (offsets (s + d) ks) ≡ offsets s ks
map_sub32 d s [] h = refl
map_sub32 d s (k ∷ ks) h =
    let here = length-append k (concat_keys ks) in
    let first : (s + d + (2 ^ 32 - d)) % 2 ^ 32 ≡ s = omega (arith, h, here) in
    let next : s + d + length k ≡ s + length k + d = omega arith in
    ap₂ (λ x y. x ∷ y) first
      (ap (λ z. map (sub32 d) (offsets z ks)) next
        ∙ map_sub32 d (s + length k) ks (omega (arith, h, here)))

pub get_elem?-past :
    (xs : List ℕ) (y : ℕ) (ys : List ℕ) → get_elem? (xs ++ y ∷ ys) (length xs) ≡ some y
get_elem?-past [] y ys = refl
get_elem?-past (x ∷ xs) y ys = get_elem?-past xs y ys

-- A start below 2 ^ 31 is not negative.
key_start-small :
    (i : ℕ) (e : Entry) (o : ℕ) → get_elem? e.offs i ≡ some o → o < 2 ^ 31 → key_start i e ≡ some o
unfolding key_start
key_start-small i e o h small = ground (arith, h, small)

module _ (front : List Bytes) where
  abbrev pub before : ℕ
  before = length (concat_keys front)

  pub offs-parts :
      (more : List Bytes) → offsets 0 (front ++ more) ≡ offsets 0 front ++ offsets before more
  offs-parts more =
      offsets-append 0 front more ∙ ap (λ n. offsets 0 front ++ offsets n more) (omega arith)

  module _ (key : Bytes) (back : List Bytes) where
    abbrev pub whole : Entry
    whole = pack (front ++ key ∷ back)

    pub start-pack : before < 2 ^ 31 → key_start (length front) whole ≡ some before
    start-pack = key_start-small (length front) whole before (
        ap (λ z. get_elem? z (length front)) (offs-parts (key ∷ back))
        ∙ ap (λ n. get_elem? (offsets 0 front ++ before ∷ offsets (before + length key) back) n)
            (sym (length-offsets 0 front))
        ∙ get_elem?-past (offsets 0 front) before (offsets (before + length key) back))

    pub buf-parts :
        concat_keys (front ++ key ∷ back) ≡ concat_keys front ++ (key ++ concat_keys back)
    buf-parts = concat_keys-append front (key ∷ back)

  pub end-pack :
      (key : Bytes) (back : List Bytes)
      → before + length key < 2 ^ 31
      → key_end (length front) (whole key back) ≡ some (before + length key)
  unfolding key_end
  end-pack key [] small =
      let last : ltb (length front + 1) (length (offsets 0 (front ++ key ∷ []))) ≡ false =
        ground (arith, length-offsets 0 (front ++ key ∷ []), length-append front (key ∷ [])) in
      rw (key_end, last)
        (ap some (
          omega (
            arith,
            ap length (buf-parts key []),
            length-append (concat_keys front) (key ++ []),
            length-append key [],
          )))
  end-pack key (k ∷ back) small =
      let not_last : ltb (length front + 1) (length (offsets 0 (front ++ key ∷ k ∷ back))) ≡ true =
        ground (
          arith,
          length-offsets 0 (front ++ key ∷ k ∷ back),
          length-append front (key ∷ k ∷ back),
        ) in
      let long : length front + 1 ≡ length (offsets 0 front ++ before ∷ []) =
        omega (arith, length-append (offsets 0 front) (before ∷ []), length-offsets 0 front) in
      let later = before + length key in
      let parts : offsets 0 (front ++ key ∷ k ∷ back)
          ≡ (offsets 0 front ++ before ∷ []) ++ later ∷ offsets (later + length k) back =
        offs-parts (key ∷ k ∷ back)
        ∙ sym (
            append_assoc (offsets 0 front) (before ∷ [])
              (later ∷ offsets (later + length k) back)) in
      let next : get_elem? (offsets 0 (front ++ key ∷ k ∷ back)) (length front + 1) ≡ some later =
        ap (λ z. get_elem? z (length front + 1)) parts
        ∙ ap
            (λ n.
              get_elem?
                ((offsets 0 front ++ before ∷ []) ++ later ∷ offsets (later + length k) back) n)
            long
        ∙ get_elem?-past (offsets 0 front ++ before ∷ []) later (offsets (later + length k) back) in
      ap
        (λ z.
          if z
          then key_start (length front + 1) (whole key (k ∷ back))
          else some (length (concat_keys (front ++ key ∷ k ∷ back))))
        not_last
      ∙ key_start-small (length front + 1) (whole key (k ∷ back)) later next small

  -- The bounds of a key are those of its place in the list.
  pub on_bounds-pack {ℓ} :
      {A : Type ℓ} (key : Bytes) (back : List Bytes) (f : ℕ → ℕ → A)
      → before + length key < 2 ^ 31
      → on_bounds (length front) (whole key back) f ≡ some (f before (before + length key))
  unfolding on_bounds key_start
  on_bounds-pack key back f small =
      ap
        (λ o. elim o [
          | none ↦ none
          | some start ↦ elim (key_end (length front) (whole key back)) [
            | none ↦ none
            | some next ↦ some (f start next)
          ]
        ])
        (start-pack key back (omega (arith, small)))
      ∙ ap (λ o. elim o [ none ↦ none | some next ↦ some (f before next) ])
          (end-pack key back small)
