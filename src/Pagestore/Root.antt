-- ===== src/Pagestore/Root.antt =====
-- Root blobs and prefix ranges (go/internal/pagestore/types.go).
pub mod RoundTrip
pub mod Prefix
use eavt_sql.Prelude.{
  ℕ, zero, suc, ◌+◌, ◌*◌, ◌/◌, ◌%◌, ◌^◌, ◌≤◌, ◌<◌, Bool, true, false, ◌&&◌, ◌||◌, not, List, [],
  ◌∷◌, ◌++◌, Option, none, some, ltb, leb, ◌==◌, if◌then◌else◌, length, take, drop, get_or, is_lt,
}
use eavt_sql.Prelude.Search.{lower_bound}
use eavt_sql.Bytes.Order.{Bytes, cmp_seq}
use eavt_sql.Pagestore.Outcome.{
  Outcome, ok, err, panic, ◌>>=◌, invalid_root_magic, unsupported_root_version, truncated_root,
}
use eavt_sql.Pagestore.Page.{IndexEntry}

pub record CfTree : Type 0 where
  pub root_uuid : Bytes
  pub height : ℕ
  pub num_leaves : ℕ

-- `EmptyTree`: the identifier of 16 zero bytes.
abbrev pub empty_tree : CfTree
empty_tree = record {
  root_uuid = 0 ∷ 0 ∷ 0 ∷ 0 ∷ 0 ∷ 0 ∷ 0 ∷ 0 ∷ 0 ∷ 0 ∷ 0 ∷ 0 ∷ 0 ∷ 0 ∷ 0 ∷ 0 ∷ [];
  height = 0;
  num_leaves = 0;
}

unfoldable pub write_tree : CfTree → Bytes
write_tree t =
    t.root_uuid
    ++ t.height
      ∷ (t.num_leaves / 2 ^ 24 % 256)
      ∷ (t.num_leaves / 2 ^ 16 % 256)
      ∷ (t.num_leaves / 2 ^ 8 % 256)
      ∷ (t.num_leaves % 256)
      ∷ []

unfoldable pub write_trees : List CfTree → Bytes
unfolding write_tree
write_trees [] = []
write_trees (t ∷ ts) = write_tree t ++ write_trees ts

unfoldable pub serialize_root : List CfTree → Bytes
unfolding write_trees
serialize_root ts =
    0x45
    ∷ 0x56
    ∷ 0x54
    ∷ 0x31
    ∷ 0
    ∷ 2
    ∷ (length ts % 2 ^ 16 / 256)
    ∷ (length ts % 256)
    ∷ write_trees ts

abbrev be16 : ℕ → ℕ → ℕ
be16 a b = a * 256 + b

-- The tree at the front of 21 bytes; the length was checked for all of them before.
unfoldable pub read_tree : Bytes → CfTree
read_tree data' =
    let d = drop 16 data' in
    record {
      root_uuid = take 16 data';
      height = get_or d 0 0;
      num_leaves =
          get_or d 1 0 * 2 ^ 24 + get_or d 2 0 * 2 ^ 16 + get_or d 3 0 * 2 ^ 8 + get_or d 4 0;
    }

unfoldable pub read_trees : ℕ → Bytes → List CfTree
unfolding read_tree
read_trees zero data' = []
read_trees (suc n) data' = read_tree data' ∷ read_trees n (drop 21 data')

unfoldable pub deserialize_root : Bytes → Outcome (List CfTree)
unfolding read_trees
deserialize_root (m0 ∷ m1 ∷ m2 ∷ m3 ∷ v0 ∷ v1 ∷ n0 ∷ n1 ∷ rest) =
    if m0 == 0x45 && m1 == 0x56 && m2 == 0x54 && m3 == 0x31
    then (if be16 v0 v1 == 2
        then (if ltb (length rest) (be16 n0 n1 * 21)
            then err truncated_root
            else ok (read_trees (be16 n0 n1) rest))
        else err unsupported_root_version)
    else err invalid_root_magic
deserialize_root _ = err invalid_root_magic

-- The loop cuts bytes 0xff off the end and adds 1 to the last other byte: the rest of the slice
-- is done first.
unfoldable pub prefix_end : Bytes → Option Bytes
prefix_end [] = none
prefix_end (b ∷ bs) = elim (prefix_end bs) [
  | some e ↦ some (b ∷ e)
  | none ↦ if ltb b 0xff then some ((b + 1) ∷ []) else none
]

abbrev pub empty_entry : IndexEntry
empty_entry = record { key = []; uuid = [] }

unfoldable pub entry_below : List IndexEntry → Bytes → ℕ → Bool
entry_below es target i = is_lt (cmp_seq (get_or es i empty_entry).key target)

unfoldable pub partition_point : List IndexEntry → Bytes → ℕ
unfolding entry_below lower_bound
partition_point es target = lower_bound (length es) (entry_below es target) 0 (length es)

abbrev pred_of : ℕ → ℕ
pred_of zero = zero
pred_of (suc n) = n

abbrev end_index : List IndexEntry → Option Bytes → ℕ
end_index es none = length es
end_index es (some pe) = partition_point es pe

-- The child that may hold keys of the prefix before the first boundary of it is included.
unfoldable pub find_prefix_range : List IndexEntry → Bytes → ℕ × ℕ
unfolding partition_point prefix_end
find_prefix_range es [] = (0, length es)
find_prefix_range es (b ∷ bs) =
    let start = pred_of (partition_point es (b ∷ bs)) in
    let stop = end_index es (prefix_end (b ∷ bs)) in
    if ltb stop start then (stop, stop) else (start, stop)
