-- ===== src/Pagestore/Flat/Pairs.antt =====
-- go/internal/pagestore/flat.go: key-value leaves, one arena for the keys and one for the values.
use eavt_sql.Prelude.{
  ℕ, zero, suc, ◌+◌, ◌-◌, ◌*◌, ◌^◌, ◌<◌, ◌≡◌, refl, ap, ◌∙◌, List, [], ◌∷◌, ◌++◌, arith, min, leb,
  Option, none, some, if◌then◌else◌, length, take, drop, get_elem?, length-append,
  drop-length-append,
}
use eavt_sql.Bytes.Order.{Bytes}
use eavt_sql.Pagestore.Outcome.{
  Outcome, ok, err, panic, ◌>>=◌, map_outcome, >>=-map_outcome, map_outcome-pure, page_too_short,
  truncated_key,
}
use eavt_sql.Pagestore.Varint.{Reader, read_varint, read_slice}
use eavt_sql.Pagestore.Page.Build.{concat}
use eavt_sql.Pagestore.Page.{Pair, read_key, read_value, read_pairs, deserialize_page_kv}
use eavt_sql.Pagestore.Flat.{FlatLeaf, key, push_key, push_keys, to_flat, empty_leaf, key-to_flat}

pub record FlatLeafKv : Type 0 where
  pub keys : FlatLeaf
  pub values : FlatLeaf

-- `Key` and `Value`: `none` is a panic.
unfoldable pub key_at : FlatLeafKv → ℕ → Option Bytes
unfolding key
key_at f i = key f.keys i

unfoldable pub value_at : FlatLeafKv → ℕ → Option Bytes
unfolding key
value_at f i = key f.values i

-- `Pair` on an index that is not negative. The outer `none` is a panic.
unfoldable pub pair_at : FlatLeafKv → ℕ → Option (Option Pair)
unfolding key_at value_at
pair_at f i = if leb (length f.keys.offs) (suc i) then some none else elim (key_at f i) [
  | none ↦ none
  | some k ↦ elim (value_at f i) [ none ↦ none | some v ↦ some (some (k, v)) ]
]

-- `Count` and `Bytes`.
unfoldable pub pair_count : FlatLeafKv → ℕ
pair_count f = length f.keys.offs - 1

unfoldable pub kv_byte_size : FlatLeafKv → ℕ
kv_byte_size f =
    length f.keys.buf + length f.values.buf + (length f.keys.offs + length f.values.offs) * 4 + 64

unfoldable pub push_pair : FlatLeafKv → Bytes → Bytes → FlatLeafKv
unfolding push_key
push_pair f k v = record { keys = push_key f.keys k; values = push_key f.values v }

-- The key that a round of the loop reads; the previous key is `kbuf[prev_start:prev_end]`.
unfoldable pub flat_key : ℕ → ℕ → Bytes → Reader → Outcome (Bytes × Reader)
flat_key prev_start prev_end kbuf r = do
  (plen, r1) ← read_varint r
  (slen, r2) ← read_varint r1
  (suffix, r3) ← read_slice slen truncated_key 0 r2
  if leb (2 ^ 63) plen
      then panic
      else ok (take (min plen (prev_end - prev_start)) (drop prev_start kbuf) ++ suffix, r3)

unfoldable pub flat_pairs : ℕ → Reader → ℕ → ℕ → FlatLeafKv → Outcome FlatLeafKv
unfolding push_pair flat_key read_value
flat_pairs zero r prev_start prev_end f = ok f
flat_pairs (suc n) r prev_start prev_end f = do
  (k, r1) ← flat_key prev_start prev_end f.keys.buf r
  (v, r2) ← read_value r1
  flat_pairs n r2 (length f.keys.buf) (length (f.keys.buf ++ k)) (push_pair f k v)

abbrev pub empty_pairs : FlatLeafKv
empty_pairs = record { keys = empty_leaf; values = empty_leaf }

unfoldable pub decode_page_kv_flat : Bytes → Outcome FlatLeafKv
unfolding flat_pairs flat_key read_value read_varint read_slice
decode_page_kv_flat [] = err page_too_short
decode_page_kv_flat (a ∷ []) = err page_too_short
decode_page_kv_flat (a ∷ b ∷ rest) =
    flat_pairs (a * 256 + b) (record { offset = 2; rest = rest }) 0 0 empty_pairs

abbrev pub keys_of : List Pair → List Bytes
keys_of [] = []
keys_of (p ∷ ps) = p.0 ∷ keys_of ps

abbrev pub values_of : List Pair → List Bytes
values_of [] = []
values_of (p ∷ ps) = p.1 ∷ values_of ps

-- The keys in one leaf of `ToFlat`, and the values in another.
unfoldable pub pack_pairs : List Pair → FlatLeafKv
unfolding to_flat
pack_pairs ps = record { keys = to_flat (keys_of ps); values = to_flat (values_of ps) }

-- The pairs behind those of a leaf.
push_pairs : FlatLeafKv → List Pair → FlatLeafKv
push_pairs f ps = record {
  keys = push_keys f.keys (keys_of ps);
  values = push_keys f.values (values_of ps);
}

flat_key-eq-read_key :
    (start : ℕ) (prev buf : Bytes) (r : Reader)
    → drop start buf ≡ prev
    → length buf - start ≡ length prev
    → flat_key start (length buf) buf r ≡ read_key truncated_key 0 prev r
unfolding flat_key read_key
flat_key-eq-read_key start prev buf r e l = rw (e, l) refl

flat_pairs-read_pairs :
    (n : ℕ) (r : Reader) (prev : Bytes) (start : ℕ) (f : FlatLeafKv)
    → drop start f.keys.buf ≡ prev
    → length f.keys.buf - start ≡ length prev
    → flat_pairs n r start (length f.keys.buf) f ≡ map_outcome (push_pairs f) (read_pairs n prev r)
unfolding flat_pairs read_pairs push_pairs push_pair push_keys
flat_pairs-read_pairs zero r prev start f e l = refl
flat_pairs-read_pairs (suc n) r prev start f e l =
    rw (flat_key-eq-read_key start prev f.keys.buf r e l) (
      >>=-map_outcome (push_pairs f) (read_key truncated_key 0 prev r) _ _ λ (k, r1).
        >>=-map_outcome (push_pairs f) (read_value r1) _ _ λ (v, r2).
          let fits : length (f.keys.buf ++ k) - length f.keys.buf ≡ length k =
            omega (arith, length-append f.keys.buf k) in
          flat_pairs-read_pairs n r2 k (length f.keys.buf) (push_pair f k v)
            (drop-length-append f.keys.buf k) fits
          ∙ map_outcome-pure (push_pairs f) (◌∷◌ (k, v)) (read_pairs n k r2))

-- On any bytes the arena decoder of key-value pages gives the result of the plain decoder, its keys
-- and its values each packed by ToFlat: the same leaf, the same error, or a panic where the other
-- panics.
pub decode_page_kv_flat-deserialize_page_kv :
    (page : Bytes) → decode_page_kv_flat page ≡ map_outcome pack_pairs (deserialize_page_kv page)
unfolding decode_page_kv_flat deserialize_page_kv pack_pairs push_pairs to_flat
decode_page_kv_flat-deserialize_page_kv [] = refl
decode_page_kv_flat-deserialize_page_kv (a ∷ []) = refl
decode_page_kv_flat-deserialize_page_kv (a ∷ b ∷ rest) =
    flat_pairs-read_pairs (a * 256 + b) (record { offset = 2; rest = rest }) [] 0 empty_pairs refl
      refl

length-push_keys :
    (f : FlatLeaf) (ks : List Bytes) → length (push_keys f ks).offs ≡ length f.offs + length ks
unfolding push_keys push_key
length-push_keys f [] = omega arith
length-push_keys f (k ∷ ks) =
    omega (arith, length-push_keys (push_key f k) ks, length-append f.offs (_ ∷ []))

length-keys_of : (ps : List Pair) → length (keys_of ps) ≡ length ps
length-keys_of [] = refl
length-keys_of (p ∷ ps) = ap suc (length-keys_of ps)

-- What `Pair` makes of the two lookups.
both : Option Bytes → Option Bytes → Option (Option Pair)
both none v = none
both (some k) none = none
both (some k) (some v) = some (some (k, v))

both-in :
    (ps : List Pair) (i : ℕ)
    → (if leb (1 + length ps) (suc i)
        then some none
        else both (get_elem? (keys_of ps) i) (get_elem? (values_of ps) i))
      ≡ some (get_elem? ps i)
unfolding both
both-in [] i = ground arith
both-in (p ∷ ps) zero = ground arith
both-in (p ∷ ps) (suc i) = ground (arith, both-in ps i)

pair_at-both :
    (f : FlatLeafKv) (i : ℕ)
    → pair_at f i ≡ (
        if leb (length f.keys.offs) (suc i)
        then some none
        else both (key f.keys i) (key f.values i))
unfolding pair_at both key_at value_at
pair_at-both f i = ground arith

-- Below 2 ^ 31 bytes of keys and of values, the packed leaf holds each pair at its index, and says
-- that there is no pair at any other index.
pub pair_at-pack_pairs :
    (ps : List Pair) (i : ℕ)
    → length (concat (keys_of ps)) < 2 ^ 31
    → length (concat (values_of ps)) < 2 ^ 31
    → pair_at (pack_pairs ps) i ≡ some (get_elem? ps i)
unfolding pack_pairs to_flat
pair_at-pack_pairs ps i h k =
    pair_at-both (pack_pairs ps) i
    ∙ rw
        (
          length-push_keys empty_leaf (keys_of ps),
          length-keys_of ps,
          key-to_flat (keys_of ps) i h,
          key-to_flat (values_of ps) i k,
        )
        (both-in ps i)
