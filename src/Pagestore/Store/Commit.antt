-- ===== src/Pagestore/Store/Commit.antt =====
-- `PrepareMerge`, `PublishTrees` and `CommitMerge` (go/internal/pagestore/store.go). The name of a
-- new root comes from the clock: it is an argument.
pub mod Tree
pub mod Families
pub mod Loop
pub mod Whole
use eavt_sql.Prelude.{
  ℕ, zero, suc, ◌%◌, ◌^◌, Bool, true, false, ◌||◌, Option, none, some, List, [], ◌∷◌, length, leb,
  ◌==◌, is_eq, get_or,
}
use eavt_sql.Bytes.Order.{Bytes, cmp_seq}
use eavt_sql.Pagestore.Outcome.{Outcome, ok, err, ◌>>=◌, read_only, root_not_written}
use eavt_sql.Pagestore.Page.{IndexEntry}
use eavt_sql.Pagestore.Page.Build.{build_pages}
use eavt_sql.Pagestore.Root.{CfTree, empty_tree, serialize_root}
use eavt_sql.Pagestore.Store.{Backend, blob_put_root, nil_uuid}
use eavt_sql.Pagestore.Store.Write.{put_page_list, build_index_tree, merge_subtree, Merged}

-- `tree.RootUUID == (UUID{})`.
abbrev pub has_no_root : CfTree → Bool
has_no_root t = is_eq (cmp_seq t.root_uuid nil_uuid)

abbrev pub first_tree : Bytes → ℕ → ℕ → CfTree
first_tree root zero leaves = record { root_uuid = root; height = 0; num_leaves = 0 }
first_tree root (suc h) leaves = record { root_uuid = root; height = suc h; num_leaves = leaves }

unfoldable pub build_tree : (B : Backend) → List Bytes → B.State → Outcome (CfTree × B.State)
build_tree B keys s = do
  (es, s1) ← put_page_list B (build_pages keys) false s
  ((root, height), s2) ← build_index_tree B es 0 s1
  ok (first_tree root height (length es % 2 ^ 32), s2)

-- The switch on the entries that `mergeSubtree` returns.
unfoldable pub put_root_entries :
    (B : Backend) → CfTree → Option (List IndexEntry) → B.State → Outcome (CfTree × B.State)
put_root_entries B tree none s = ok (tree, s)
put_root_entries B tree (some (e ∷ [])) s =
    ok (record { root_uuid = e.uuid; height = tree.height; num_leaves = tree.num_leaves }, s)
put_root_entries B tree (some es) s = do
  ((root, height), s1) ← build_index_tree B es tree.height s
  ok (record { root_uuid = root; height = height; num_leaves = tree.num_leaves }, s1)

unfoldable pub merge_tree :
    (B : Backend) → CfTree → List Bytes → B.State → Outcome (CfTree × B.State)
unfolding build_tree put_root_entries
merge_tree B tree keys s = elim (has_no_root tree) [
  | true ↦ build_tree B keys s
  | false ↦ do
    ((res, rest), s1) ← merge_subtree B tree.height none tree.root_uuid keys s
    put_root_entries B tree res s1
]

unfoldable pub set_tree : List CfTree → ℕ → CfTree → List CfTree
set_tree [] cf t = []
set_tree (x ∷ ts) zero t = t ∷ ts
set_tree (x ∷ ts) (suc cf) t = x ∷ set_tree ts cf t

abbrev pub CfKeys : Type 0
CfKeys = ℕ × List Bytes

-- The loop over the column families.
unfoldable pub merge_trees :
    (B : Backend) → List CfTree → List CfKeys → B.State → Outcome (List CfTree × B.State)
unfolding set_tree merge_tree
merge_trees B ts [] s = ok (ts, s)
merge_trees B ts ((cf, keys) ∷ more) s = elim (leb (length ts) cf || length keys == 0) [
  | true ↦ merge_trees B ts more s
  | false ↦ do
    (t, s1) ← merge_tree B (get_or ts cf empty_tree) keys s
    merge_trees B (set_tree ts cf t) more s1
]

unfoldable pub put_new_root :
    (B : Backend) → Bytes → List CfTree → B.State → Outcome ((List CfTree × Bytes) × B.State)
put_new_root B name ts s = elim (blob_put_root B name (serialize_root ts) s) [
  | none ↦ err root_not_written
  | some s1 ↦ ok ((ts, name), s1)
]

unfoldable pub prepare_merge :
    (B : Backend)
    → Bool
    → Bytes
    → List CfTree
    → List CfKeys
    → B.State
    → Outcome ((List CfTree × Bytes) × B.State)
unfolding merge_trees put_new_root
prepare_merge B true name base keys s = err read_only
prepare_merge B false name base keys s = do
  (ts, s1) ← merge_trees B base keys s
  put_new_root B name ts s1

-- The published roots of a store.
pub record Store (B : Backend) : Type 0 where
  pub blobs : B.State
  pub trees : List CfTree
  pub read_only_flag : Bool
  pub current_root : Bytes

unfoldable pub publish_trees : (B : Backend) → List CfTree → Bytes → Store B → Store B
publish_trees B ts root S = record S { trees = ts; current_root = root }

unfoldable pub commit_merge :
    (B : Backend) → Bytes → List CfKeys → Store B → Outcome (Bytes × Store B)
unfolding prepare_merge publish_trees
commit_merge B name keys S = do
  ((ts, root), s1) ← prepare_merge B S.read_only_flag name S.trees keys S.blobs
  ok (root, publish_trees B ts root (record S { blobs = s1 }))
