-- ===== src/Pagestore/Store/Commit/Whole.antt =====
-- `PrepareMerge` and `CommitMerge` (go/internal/pagestore/store.go) over all column families.
use eavt_sql.Prelude.{ℕ, ◌<◌, ◌≡◌, refl, false, some, List, length, get_or}
use eavt_sql.Bytes.Order.{Bytes}
use eavt_sql.Pagestore.Outcome.{ok}
use eavt_sql.Pagestore.Root.{CfTree, empty_tree, serialize_root}
use eavt_sql.Pagestore.Store.{
  Backend, IsLawful, Keeps, blob_get_root, blob_put_root, blob_put_root_lem,
}
use eavt_sql.Pagestore.Store.Merge.{merge_keys}
use eavt_sql.Pagestore.Store.Nodes.{Keeps-trans}
use eavt_sql.Pagestore.Store.Commit.{
  CfKeys, Store, merge_trees, put_new_root, prepare_merge, publish_trees, commit_merge,
}
use eavt_sql.Pagestore.Store.Commit.Tree.{IsKeyTree}
use eavt_sql.Pagestore.Store.Commit.Families.{
  IsTallTree, keys_for, AreKeysByCf, IsTallTree-Keeps, IsKeyTree-tall,
}
use eavt_sql.Pagestore.Store.Commit.Loop.{AreTrees, trees_merged}

module _ (B : Backend) (L : IsLawful B) where
  commit_run :
      (name : Bytes) (keys : List CfKeys) (S : Store B) (ts : List CfTree) (t t' : B.State)
      → S.read_only_flag ≡ false
      → merge_trees B S.trees keys S.blobs ≡ ok (ts, t)
      → blob_put_root B name (serialize_root ts) t ≡ some t'
      → commit_merge B name keys S
        ≡ ok (name, record S { blobs = t'; trees = ts; current_root = name })
  unfolding commit_merge prepare_merge put_new_root publish_trees
  commit_run name keys S ts t t' writable did put =
      rw (writable, prepare_merge) (rw did (rw (put, put_new_root) refl))

  -- Over a backend that accepts every write, and in a writable store in which every tree holds its
  -- keys, a commit of ascending keys of nine bytes to 128 KiB, for column families of which none is
  -- named twice, succeeds; the new root is current and stored under its name with the new trees, no
  -- blob is lost, and the tree of any column family holds the merge of its keys and the ones that
  -- came for it, with a height of which the tree keeps the last eight bits.
  pub commit_merge-merge_keys :
      (name : Bytes) (keys : List CfKeys) (S : Store B) (held : ℕ → List Bytes) (cf : ℕ)
      → S.read_only_flag ≡ false
      → AreKeysByCf keys
      → ((c : ℕ) → c < length S.trees → IsKeyTree B S.blobs (get_or S.trees c empty_tree) (held c))
      → cf < length S.trees
      → (T : Store B) × (commit_merge B name keys S ≡ ok (name, T))
        × (T.current_root ≡ name)
        × (blob_get_root B name T.blobs ≡ ok (some (serialize_root T.trees)))
        × Keeps B S.blobs T.blobs
        × IsTallTree B T.blobs
            (get_or T.trees cf empty_tree)
            (merge_keys (held cf) (keys_for cf keys))
  commit_merge-merge_keys name keys S held cf writable a h small =
      let trees : AreTrees B S.blobs S.trees keys held = λ c inside. (
        (λ named. h c inside),
        IsKeyTree-tall B S.blobs (get_or S.trees c empty_tree) (held c) (h c inside),
      ) in
      let (ts, t, did, kept, len, all) = trees_merged B L S.blobs S.trees keys held a trees in
      let (t', put, found, kept') = blob_put_root_lem B L name (serialize_root ts) t in
      (
        record S { blobs = t'; trees = ts; current_root = name },
        commit_run name keys S ts t t' writable did put,
        refl,
        found,
        Keeps-trans B S.blobs t t' kept kept',
        IsTallTree-Keeps B t t' (get_or ts cf empty_tree) (merge_keys (held cf) (keys_for cf keys))
            kept' (all cf small),
      )
