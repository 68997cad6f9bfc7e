-- ===== src/Pagestore/Root/RoundTrip.antt =====
-- A root blob is read back.
use eavt_sql.Prelude.{
  ℕ, ◌+◌, ◌*◌, ◌/◌, ◌%◌, ◌^◌, ◌<◌, ◌≡◌, refl, ap₂, List, [], ◌∷◌, ◌++◌, arith, length,
  length-append, All, take_of_length, drop_of_length, append_assoc,
}
use eavt_sql.Bytes.Order.{Bytes}
use eavt_sql.Pagestore.Outcome.{ok}
use eavt_sql.Pagestore.Root.{
  CfTree, write_tree, write_trees, serialize_root, read_tree, read_trees, deserialize_root,
}

abbrev pub IsTree : CfTree → Type 0
IsTree t = (length t.root_uuid ≡ 16) × (t.num_leaves < 2 ^ 32)

length-write_tree : (t : CfTree) → IsTree t → length (write_tree t) ≡ 21
unfolding write_tree
length-write_tree t h = omega (arith, length-append t.root_uuid _, h.0)

-- The front of the data is read, and the tree's bytes are passed over.
read_tree-write_tree : (t : CfTree) (rest : Bytes) → IsTree t → read_tree (write_tree t ++ rest) ≡ t
unfolding read_tree write_tree
read_tree-write_tree t rest h =
    rw
      (
        append_assoc t.root_uuid _ rest,
        take_of_length 16 t.root_uuid _ h.0,
        drop_of_length 16 t.root_uuid _ h.0,
      )
      (λ i. record { root_uuid = t.root_uuid; height = t.height; num_leaves = leaves i })
  where
    leaves :
        t.num_leaves / 2 ^ 24 % 256 * 2 ^ 24
          + t.num_leaves / 2 ^ 16 % 256 * 2 ^ 16
          + t.num_leaves / 2 ^ 8 % 256 * 2 ^ 8
          + t.num_leaves % 256
        ≡ t.num_leaves
    leaves = omega (arith, h.1)

read_trees-write_trees :
    (ts : List CfTree) → All IsTree ts → read_trees (length ts) (write_trees ts) ≡ ts
unfolding read_trees write_trees
read_trees-write_trees [] a = refl
read_trees-write_trees (t ∷ ts) a =
    rw (drop_of_length 21 (write_tree t) (write_trees ts) (length-write_tree t a.0))
      (ap₂ ◌∷◌ (read_tree-write_tree t (write_trees ts) a.0) (read_trees-write_trees ts a.1))

length-write_trees : (ts : List CfTree) → All IsTree ts → length (write_trees ts) ≡ 21 * length ts
unfolding write_trees
length-write_trees [] a = omega arith
length-write_trees (t ∷ ts) a = omega (
  arith,
  length-append (write_tree t) (write_trees ts),
  length-write_tree t a.0,
  length-write_trees ts a.1,
)

count_bytes : (n : ℕ) → n < 2 ^ 16 → n % 2 ^ 16 / 256 * 256 + n % 256 ≡ n
count_bytes n h = omega arith

-- A root of fewer than 65536 trees, each with a 16-byte identifier and a 32-bit leaf count, is
-- read back.
pub deserialize_root-serialize_root :
    (ts : List CfTree)
    → length ts < 2 ^ 16
    → All IsTree ts
    → deserialize_root (serialize_root ts) ≡ ok ts
unfolding deserialize_root serialize_root
deserialize_root-serialize_root ts few a =
    rw (count_bytes (length ts) few)
      (ground (arith, length-write_trees ts a, read_trees-write_trees ts a))
