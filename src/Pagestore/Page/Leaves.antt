-- ===== src/Pagestore/Page/Leaves.antt =====
-- The leaves that `BuildPages` makes are read back one after another.
use eavt_sql.Prelude.{
  ℕ, zero, suc, ◌+◌, ◌*◌, ◌/◌, ◌%◌, ◌^◌, ◌≤◌, ◌<◌, ◌≡◌, refl, ap, ◌∙◌, Bool, List, [], ◌∷◌, ◌++◌,
  arith, leb, length, drop, length-append, length-drop, All, All-map, inl, inr, leb→le,
}
use eavt_sql.Bytes.Order.{Bytes}
use eavt_sql.Pagestore.Outcome.{Outcome, ok, ◌>>=◌}
use eavt_sql.Pagestore.Varint.{varint_groups, write_varint}
use eavt_sql.Pagestore.Page.{
  Pair, common_prefix_len, write_count, write_key, write_keys, serialize_page, deserialize_page,
}
use eavt_sql.Pagestore.Page.RoundTrip.{deserialize_page-serialize_page}
use eavt_sql.Pagestore.Page.Build.{
  max_raw_size, split_list, total_bytes, leaf_page, map_list, build_pages, concat,
  concat-split_list, IsPart, split_list-IsPart,
}

length-varint_groups : (n v : ℕ) → length (varint_groups n v) ≤ n
unfolding varint_groups
length-varint_groups zero v = omega arith
length-varint_groups (suc zero) v = ground arith
length-varint_groups (suc (suc n)) v = ground (arith, length-varint_groups (suc n) (v / 128))

pub length-write_key : (prev key : Bytes) → length (write_key prev key) ≤ 20 + length key
unfolding write_key write_varint
length-write_key prev key =
    let p = common_prefix_len prev key in
    let s = drop p key in
    omega (
      arith,
      length-varint_groups 10 (p % 2 ^ 64),
      length-varint_groups 10 (length s % 2 ^ 64),
      length-append (write_varint p) (write_varint (length s) ++ s),
      length-append (write_varint (length s)) s,
      length-drop p key,
    )

length-write_keys :
    (prev : Bytes) (keys : List Bytes)
    → length (write_keys prev keys) ≤ 20 * length keys + total_bytes keys
unfolding write_keys total_bytes
length-write_keys prev [] = omega arith
length-write_keys prev (key ∷ keys) = omega (
  arith,
  length-append (write_key prev key) (write_keys key keys),
  length-write_key prev key,
  length-write_keys key keys,
)

-- Nine bytes at least: then 65536 keys are more than a page takes.
abbrev pub IsLeafKey : Bytes → Type 0
IsLeafKey k = (9 ≤ length k) × (length k < 2 ^ 62)

total_bytes-le : (keys : List Bytes) → All IsLeafKey keys → 9 * length keys ≤ total_bytes keys
unfolding total_bytes
total_bytes-le [] a = omega arith
total_bytes-le (k ∷ ks) a = omega (arith, total_bytes-le ks a.1, a.0.0)

abbrev pub fits_leaf : List Bytes → Bool
fits_leaf ks = leb (total_bytes ks) max_raw_size

total_bytes_one :
    (keys : List Bytes) → length keys ≡ 1 → All IsLeafKey keys → total_bytes keys < 2 ^ 62
unfolding total_bytes
total_bytes_one [] h a = omega arith
total_bytes_one (k ∷ []) h a = omega (arith, a.0.1)
total_bytes_one (k ∷ j ∷ ks) h a = absurd (omega arith)

pub part-read :
    (keys : List Bytes)
    → IsPart fits_leaf IsLeafKey keys
    → deserialize_page (serialize_page keys) ≡ ok keys
part-read keys (inl e, a) =
    let small : total_bytes keys ≤ 512 * 1024 = leb→le _ _ e in
    deserialize_page-serialize_page keys (omega (arith, total_bytes-le keys a))
      (All-map IsLeafKey (λ k. length k < 2 ^ 63) (λ k h. omega (arith, h.1)) keys a)
      (unfold serialize_page write_count in
        omega (arith, length-write_keys [] keys, total_bytes-le keys a))
part-read keys (inr e, a) =
    deserialize_page-serialize_page keys (omega arith)
      (All-map IsLeafKey (λ k. length k < 2 ^ 63) (λ k h. omega (arith, h.1)) keys a)
      (unfold serialize_page write_count in
        omega (arith, length-write_keys [] keys, total_bytes_one keys e a))

-- Every page of a level, read in order.
unfoldable pub read_leaves : List Pair → Outcome (List Bytes)
read_leaves [] = ok []
read_leaves (p ∷ ps) = do keys ← deserialize_page p.1; more ← read_leaves ps; ok (keys ++ more)

pub leaf_page-bytes : (keys : List Bytes) → (leaf_page keys).1 ≡ serialize_page keys
unfolding leaf_page
leaf_page-bytes [] = refl
leaf_page-bytes (k ∷ ks) = refl

read_parts :
    (parts : List (List Bytes))
    → All (IsPart fits_leaf IsLeafKey) parts
    → read_leaves (map_list leaf_page parts) ≡ ok (concat parts)
unfolding read_leaves map_list concat
read_parts [] a = refl
read_parts (p ∷ ps) a = rw (leaf_page-bytes p, part-read p a.0, read_parts ps a.1)

-- The pages built from keys of nine bytes and more hold all of them, in order.
pub read_leaves-build_pages :
    (keys : List Bytes) → All IsLeafKey keys → read_leaves (build_pages keys) ≡ ok keys
unfolding build_pages
read_leaves-build_pages keys a =
    read_parts (split_list fits_leaf (length keys) keys)
      (split_list-IsPart fits_leaf IsLeafKey (length keys) keys a)
    ∙ ap ok (concat-split_list fits_leaf (length keys) keys (omega arith))
