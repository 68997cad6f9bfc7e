-- ===== src/Pagestore/Flat.antt =====
-- go/internal/pagestore/flat.go: leaves as one arena and offsets. An offset is stored as an
-- `int32`, its 32-bit pattern here.
pub mod Pairs
use eavt_sql.Prelude.{
  ℕ, zero, suc, ◌+◌, ◌-◌, ◌*◌, ◌%◌, ◌^◌, ◌<◌, ◌≡◌, refl, ap, ◌∙◌, List, [], ◌∷◌, ◌++◌, arith, min,
  leb, Option, none, some, if◌then◌else◌, length, take, drop, get_elem?, length-append,
  drop-length-append, take-length-append, append-nil, append_assoc, Bool-cases, inl, inr,
}
use eavt_sql.Bytes.Order.{Bytes}
use eavt_sql.Pagestore.Outcome.{
  Outcome, ok, err, panic, ◌>>=◌, map_outcome, >>=_assoc, >>=-map_outcome, map_outcome-pure,
  page_too_short, truncated_key,
}
use eavt_sql.Pagestore.Varint.{Reader, read_varint, read_slice}
use eavt_sql.Pagestore.Page.Build.{concat}
use eavt_sql.Pagestore.Page.{read_key, read_keys, deserialize_page}

pub record FlatLeaf : Type 0 where
  pub buf : Bytes
  pub offs : List ℕ

abbrev pub int32 : ℕ → ℕ
int32 n = n % 2 ^ 32

-- `Count`.
unfoldable pub count : FlatLeaf → ℕ
count f = length f.offs - 1

-- `Key`: the panics of its two indices and of its slice expression are `none`; so is a negative
-- offset.
unfoldable pub key : FlatLeaf → ℕ → Option Bytes
key f i = elim (get_elem? f.offs i) [
  | none ↦ none
  | some a ↦ elim (get_elem? f.offs (suc i)) [
    | none ↦ none
    | some b ↦
        if leb (2 ^ 31) a
        then none
        else if leb (2 ^ 31) b
        then none
        else if leb a b
        then (if leb b (length f.buf) then some (take (b - a) (drop a f.buf)) else none)
        else none
  ]
]

-- `Bytes`: the accounted size.
unfoldable pub byte_size : FlatLeaf → ℕ
byte_size f = length f.buf + length f.offs * 4 + 48

-- One round of `ToFlat`.
unfoldable pub push_key : FlatLeaf → Bytes → FlatLeaf
push_key f k = record { buf = f.buf ++ k; offs = f.offs ++ int32 (length f.buf + length k) ∷ [] }

unfoldable pub push_keys : FlatLeaf → List Bytes → FlatLeaf
unfolding push_key
push_keys f [] = f
push_keys f (k ∷ ks) = push_keys (push_key f k) ks

abbrev pub empty_leaf : FlatLeaf
empty_leaf = record { buf = []; offs = 0 ∷ [] }

unfoldable pub to_flat : List Bytes → FlatLeaf
unfolding push_keys
to_flat ks = push_keys empty_leaf ks

-- The loop of `DecodePageFlat`: the previous key is `buf[prev_start:prev_end]`.
unfoldable pub flat_keys : ℕ → Reader → ℕ → ℕ → FlatLeaf → Outcome FlatLeaf
unfolding push_key
flat_keys zero r prev_start prev_end f = ok f
flat_keys (suc n) r prev_start prev_end f = do
  (plen, r1) ← read_varint r
  (slen, r2) ← read_varint r1
  (suffix, r3) ← read_slice slen truncated_key 0 r2
  let f' = push_key f (take (min plen (prev_end - prev_start)) (drop prev_start f.buf) ++ suffix)
  if leb (2 ^ 63) plen then panic else flat_keys n r3 (length f.buf) (length f'.buf) f'

unfoldable pub decode_page_flat : Bytes → Outcome FlatLeaf
unfolding flat_keys read_varint read_slice
decode_page_flat [] = err page_too_short
decode_page_flat (a ∷ []) = err page_too_short
decode_page_flat (a ∷ b ∷ rest) =
    flat_keys (a * 256 + b) (record { offset = 2; rest = rest }) 0 0 empty_leaf

flat_keys-read_keys :
    (n : ℕ) (r : Reader) (prev : Bytes) (start : ℕ) (f : FlatLeaf)
    → drop start f.buf ≡ prev
    → length f.buf - start ≡ length prev
    → flat_keys n r start (length f.buf) f ≡ map_outcome (push_keys f) (read_keys n prev r)
unfolding flat_keys read_keys read_key push_keys
flat_keys-read_keys zero r prev start f e l = refl
flat_keys-read_keys (suc n) r prev start f e l =
    rw (e, l, >>=_assoc)
      (>>=-map_outcome (push_keys f) (read_varint r) _ _ λ (plen, r1). rw >>=_assoc (
        >>=-map_outcome (push_keys f) (read_varint r1) _ _ λ (slen, r2). rw >>=_assoc (
          >>=-map_outcome (push_keys f) (read_slice slen truncated_key 0 r2) _ _ λ (suffix, r3).
            elim (Bool-cases (leb (2 ^ 63) plen)) [
              | inl t ↦ rw t
              | inr t ↦
                  let k = take (min plen (length prev)) prev ++ suffix in
                  let fits : length (f.buf ++ k) - length f.buf ≡ length k =
                    omega (arith, length-append f.buf k) in
                  rw t (
                    flat_keys-read_keys n r3 k (length f.buf) (push_key f k)
                      (drop-length-append f.buf k) fits
                    ∙ map_outcome-pure (push_keys f) (◌∷◌ k) (read_keys n k r3))
            ])))

-- The arena decoder gives the same result as the plain one, packed: the same leaf, the same error,
-- or a panic where the other panics.
pub decode_page_flat-deserialize_page :
    (page : Bytes) → decode_page_flat page ≡ map_outcome to_flat (deserialize_page page)
unfolding decode_page_flat deserialize_page to_flat
decode_page_flat-deserialize_page [] = refl
decode_page_flat-deserialize_page (a ∷ []) = refl
decode_page_flat-deserialize_page (a ∷ b ∷ rest) =
    flat_keys-read_keys (a * 256 + b) (record { offset = 2; rest = rest }) [] 0 empty_leaf refl refl

-- The offsets that follow `n` when the keys are pushed.
running : ℕ → List Bytes → List ℕ
running n [] = []
running n (k ∷ ks) = int32 (n + length k) ∷ running (n + length k) ks

push_keys-parts :
    (f : FlatLeaf) (ks : List Bytes)
    → push_keys f ks
      ≡ record { buf = f.buf ++ concat ks; offs = f.offs ++ running (length f.buf) ks }
unfolding push_keys concat running
push_keys-parts f [] = rw (append-nil f.buf, append-nil f.offs)
push_keys-parts f (k ∷ ks) =
    push_keys-parts (push_key f k) ks
    ∙ ground (
      arith,
      append_assoc f.buf k (concat ks),
      length-append f.buf k,
      append_assoc f.offs (int32 (length f.buf + length k) ∷ [])
          (running (length f.buf + length k) ks),
    )

key-in :
    (pre : Bytes) (ks : List Bytes) (i : ℕ)
    → length (pre ++ concat ks) < 2 ^ 31
    → key (record { buf = pre ++ concat ks; offs = length pre ∷ running (length pre) ks }) i
      ≡ get_elem? ks i
unfolding key concat running
key-in pre [] zero h = refl
key-in pre [] (suc i) h = refl
key-in pre (k ∷ ks) zero h =
    let fits : int32 (length pre + length k) ≡ length pre + length k =
      omega (arith, length-append pre (k ++ concat ks), length-append k (concat ks)) in
    rw (fits, drop-length-append pre (k ++ concat ks))
      (ground (
        arith,
        length-append pre (k ++ concat ks),
        length-append k (concat ks),
        take-length-append k (concat ks),
      ))
key-in pre (k ∷ ks) (suc i) h =
    let fits : int32 (length pre + length k) ≡ length pre + length k =
      omega (arith, length-append pre (k ++ concat ks), length-append k (concat ks)) in
    let ih = key-in (pre ++ k) ks i (rw (append_assoc pre k (concat ks)) h) in
    let rest = running (length pre + length k) ks in
    ap (λ (a : ℕ). key (record { buf = pre ++ (k ++ concat ks); offs = a ∷ rest }) i) fits
    ∙ rw (append_assoc pre k (concat ks), length-append pre k) at ih

-- Below 2 ^ 31 bytes of keys, the arena holds each key at its index, and no other.
pub key-to_flat :
    (ks : List Bytes) (i : ℕ) → length (concat ks) < 2 ^ 31 → key (to_flat ks) i ≡ get_elem? ks i
unfolding to_flat
key-to_flat ks i h = rw (push_keys-parts empty_leaf ks) (key-in [] ks i h)
