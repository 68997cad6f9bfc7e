-- ===== src/Tests/Store.antt =====
-- The write path of go/internal/pagestore/store.go at concrete inputs, over blobs in memory.
use eavt_sql.Prelude.{
  ℕ, zero, suc, ◌<◌, ◌≡◌, refl, false, none, some, List, [], ◌∷◌, ◌++◌, length, get_or, arith,
  if◌then◌else◌, or_else, inl,
}
use eavt_sql.Bytes.Order.{Bytes, cmp_seq}
use eavt_sql.Pagestore.Outcome.{ok}
use eavt_sql.Pagestore.Page.{Pair, IndexEntry, deserialize_page}
use eavt_sql.Pagestore.Page.Build.{split_index_entries}
use eavt_sql.Pagestore.Range.{lt}
use eavt_sql.Pagestore.Root.{empty_tree, serialize_root}
use eavt_sql.Pagestore.Root.Prefix.{below_end}
use eavt_sql.Pagestore.Store.{Keeps, decompress, blob_get, blob_get_root}
use eavt_sql.Pagestore.Store.Merge.{merge_keys, holds_key}
use eavt_sql.Pagestore.Store.Write.{child_end, build_index_tree}
use eavt_sql.Pagestore.Store.Chain.{IsLevel}
use eavt_sql.Pagestore.Store.Levels.Sizes.{split_index_entries_shrinks}
use eavt_sql.Pagestore.Store.Levels.Root.{IsBuilt, IsBuilt-build_index_tree}
use eavt_sql.Pagestore.Store.Commit.{CfKeys, Store, merge_tree, commit_merge}
use eavt_sql.Pagestore.Store.Commit.Tree.{IsKeyTree, IsMergedTree, merge_tree-IsMergedTree}
use eavt_sql.Pagestore.Store.Commit.Families.{IsTallTree, AreKeysByCf}
use eavt_sql.Pagestore.Store.Commit.Whole.{commit_merge-merge_keys}
use eavt_sql.Pagestore.Store.Pairs.{
  find_pair, merge_pairs, AreAscendingPairs, find_pair-merge_pairs,
}
use eavt_sql.Tests.Memory.{
  memory, memory-IsLawful, not_nil_uuid, key_of, old_keys, new_keys, leaf_uuid, old_blobs, old_tree,
  old_keys-InRange, old_tree-IsKeyTree, new_keys-IsAscending, new_keys-IsTreeKey,
}

merge_tree-IsMergedTree_example :
    IsMergedTree memory old_blobs
      (merge_keys old_keys new_keys)
      (merge_tree memory old_tree new_keys old_blobs)
merge_tree-IsMergedTree_example =
    merge_tree-IsMergedTree memory memory-IsLawful old_tree old_blobs old_keys (key_of 3)
      (key_of 5 ∷ []) old_tree-IsKeyTree new_keys-IsAscending new_keys-IsTreeKey

merged_keys : merge_keys old_keys new_keys ≡ key_of 1 ∷ key_of 3 ∷ key_of 5 ∷ []
unfolding merge_keys lt cmp_seq
merged_keys = refl

abbrev old_store : Store memory
old_store = record {
  blobs = old_blobs;
  trees = empty_tree ∷ old_tree ∷ [];
  read_only_flag = false;
  current_root = [];
}

abbrev held_keys : ℕ → List Bytes
held_keys zero = []
held_keys (suc zero) = old_keys
held_keys (suc (suc cf)) = []

old_trees-IsKeyTree :
    (cf : ℕ)
    → cf < 2
    → IsKeyTree memory old_blobs (get_or (empty_tree ∷ old_tree ∷ []) cf empty_tree) (held_keys cf)
old_trees-IsKeyTree zero small = inl (refl, refl)
old_trees-IsKeyTree (suc zero) small = old_tree-IsKeyTree
old_trees-IsKeyTree (suc (suc cf)) small = inl (refl, refl)

abbrev two_families : List CfKeys
two_families = (1, new_keys) ∷ (0, key_of 7 ∷ []) ∷ []

two_families-AreKeysByCf : AreKeysByCf two_families
two_families-AreKeysByCf = (
  new_keys-IsAscending,
  new_keys-IsTreeKey,
  refl,
  ((tt, tt), ((omega arith, omega arith), tt), refl, tt),
)

commit_merge-merge_keys_example :
    (T : Store memory) × (commit_merge memory (1 ∷ []) two_families old_store ≡ ok (1 ∷ [], T))
    × (T.current_root ≡ 1 ∷ [])
    × (blob_get_root memory (1 ∷ []) T.blobs ≡ ok (some (serialize_root T.trees)))
    × Keeps memory old_blobs T.blobs
    × IsTallTree memory T.blobs (get_or T.trees 1 empty_tree) (merge_keys old_keys new_keys)
commit_merge-merge_keys_example =
    commit_merge-merge_keys memory memory-IsLawful (1 ∷ []) two_families old_store held_keys 1 refl
      two_families-AreKeysByCf old_trees-IsKeyTree (omega arith)

abbrev one_entry : List IndexEntry
one_entry = record { key = []; uuid = leaf_uuid } ∷ []

one_entry-IsLevel : IsLevel memory 0 old_blobs [] none one_entry old_keys
unfolding deserialize_page blob_get decompress below_end child_end lt cmp_seq
one_entry-IsLevel = (
  refl,
  (
    old_keys,
    [],
    refl,
    (omega arith, refl, not_nil_uuid 0),
    (
      0 ∷ 2 ∷ 0 ∷ 9 ∷ 1 ∷ 0 ∷ 0 ∷ 0 ∷ 0 ∷ 0 ∷ 0 ∷ 0 ∷ 0 ∷ 0 ∷ 9 ∷ 5 ∷ 0 ∷ 0 ∷ 0 ∷ 0 ∷ 0 ∷ 0 ∷ 0 ∷ 0
          ∷ [],
      refl,
      refl,
      old_keys-InRange,
    ),
    refl,
    refl,
  ),
)

IsBuilt-build_index_tree_example :
    IsBuilt memory memory-IsLawful 0 old_blobs
      (build_index_tree memory one_entry 0 old_blobs)
      old_keys
IsBuilt-build_index_tree_example =
    IsBuilt-build_index_tree memory memory-IsLawful 0 old_blobs one_entry old_keys one_entry-IsLevel

split_index_entries_shrinks_example :
    length (split_index_entries (one_entry ++ record { key = key_of 1; uuid = leaf_uuid } ∷ [])) < 2
split_index_entries_shrinks_example =
    split_index_entries_shrinks (one_entry ++ record { key = key_of 1; uuid = leaf_uuid } ∷ [])
      ((omega arith, refl, not_nil_uuid 0), ((omega arith, refl, not_nil_uuid 0), tt)) (omega arith)

abbrev old_pairs : List Pair
old_pairs = (1 ∷ [], 10 ∷ []) ∷ (2 ∷ [], 20 ∷ []) ∷ (4 ∷ [], 40 ∷ []) ∷ []

abbrev new_pairs : List Pair
new_pairs = (2 ∷ [], 21 ∷ []) ∷ (3 ∷ [], 31 ∷ []) ∷ []

old_pairs-AreAscendingPairs : AreAscendingPairs old_pairs
unfolding lt cmp_seq
old_pairs-AreAscendingPairs = ((refl, (refl, tt)), ((refl, tt), (tt, tt)))

new_pairs-AreAscendingPairs : AreAscendingPairs new_pairs
unfolding lt cmp_seq
new_pairs-AreAscendingPairs = ((refl, tt), (tt, tt))

find_pair-merge_pairs_example :
    find_pair (2 ∷ []) (merge_pairs ((4 ∷ []) ∷ []) old_pairs new_pairs) ≡ (
      if holds_key (2 ∷ []) ((4 ∷ []) ∷ [])
      then none
      else or_else (find_pair (2 ∷ []) new_pairs) (find_pair (2 ∷ []) old_pairs))
find_pair-merge_pairs_example =
    find_pair-merge_pairs ((4 ∷ []) ∷ []) (2 ∷ []) old_pairs new_pairs old_pairs-AreAscendingPairs
      new_pairs-AreAscendingPairs
