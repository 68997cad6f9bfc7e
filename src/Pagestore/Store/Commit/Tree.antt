-- ===== src/Pagestore/Store/Commit/Tree.antt =====
-- The tree of one column family after `PrepareMerge` (go/internal/pagestore/store.go): the keys it
-- held and the new ones.
use eavt_sql.Prelude.{
  ℕ, zero, suc, ◌%◌, ◌<◌, ◌≡◌, ◌≢◌, ◌⊎◌, refl, sym, ap, subst, ◌∙◌, true, Option, none, some, List,
  [], ◌∷◌, ◌++◌, ◌^◌, append-nil, All, length, arith, is_eq, inl, inr, Bool-cases,
}
use eavt_sql.Bytes.Order.{Bytes, cmp_seq, cmp_keys-eq-cmp_seq, eq_of_cmp_keys}
use eavt_sql.Pagestore.Outcome.{Outcome, ok}
use eavt_sql.Pagestore.Page.{IndexEntry}
use eavt_sql.Pagestore.Range.{nil-lt, AllAtLeast, AllBelow, IsAscending}
use eavt_sql.Pagestore.Root.{CfTree}
use eavt_sql.Pagestore.Root.Prefix.{below_end}
use eavt_sql.Pagestore.Store.{Backend, IsLawful, Keeps, nil_uuid}
use eavt_sql.Pagestore.Store.Merge.{merge_keys, take_range}
use eavt_sql.Pagestore.Store.Write.{build_index_tree, child_end}
use eavt_sql.Pagestore.Store.Chain.{IsTreeKey, Node, IsLevel}
use eavt_sql.Pagestore.Store.Nodes.{Keeps-trans, Node-weaken}
use eavt_sql.Pagestore.Store.Levels.Leaf.{leaf-IsLevel}
use eavt_sql.Pagestore.Store.Levels.Root.{IsBuilt-build_index_tree}
use eavt_sql.Pagestore.Store.Subtree.{IsResult}
use eavt_sql.Pagestore.Store.Subtree.Children.{merge_subtree-Merges}
use eavt_sql.Pagestore.Store.Commit.{
  has_no_root, first_tree, build_tree, put_root_entries, merge_tree,
}

-- The keys of a tree: none without a root, or those of its root page.
abbrev pub IsKeyTree : (B : Backend) → B.State → CfTree → List Bytes → Type 0
IsKeyTree B s tree ks =
    ((tree.root_uuid ≡ nil_uuid) × (ks ≡ []))
    ⊎ ((tree.root_uuid ≢ nil_uuid)
        × (tree.height < 256)
        × Node B tree.height s [] none tree.root_uuid ks)

-- A merged tree with its height, of which the tree keeps the last eight bits.
abbrev pub IsMergedTree : (B : Backend) → B.State → List Bytes → Outcome (CfTree × B.State) → Type 0
IsMergedTree B s ks o =
    (tree : CfTree) × (height : ℕ) × (t : B.State) × (o ≡ ok (tree, t))
    × Keeps B s t
    × (tree.height ≡ height % 256)
    × (tree.root_uuid ≢ nil_uuid)
    × Node B height t [] none tree.root_uuid ks

all_at_least : (ks : List Bytes) → AllAtLeast [] ks
all_at_least [] = tt
all_at_least (k ∷ ks) = (nil-lt k, all_at_least ks)

all_below : (ks : List Bytes) → AllBelow none ks
unfolding below_end
all_below [] = tt
all_below (k ∷ ks) = (refl, all_below ks)

pub take_all : (ks : List Bytes) → take_range none ks ≡ (ks, [])
unfolding take_range below_end
take_all [] = refl
take_all (k ∷ ks) = ap (λ (p : List Bytes × List Bytes). (k ∷ p.0, p.1)) (take_all ks)

first_tree-root_uuid : (root : Bytes) (h n : ℕ) → (first_tree root h n).root_uuid ≡ root
first_tree-root_uuid root zero n = refl
first_tree-root_uuid root (suc h) n = refl

first_tree-height : (root : Bytes) (h n : ℕ) → (first_tree root h n).height ≡ h
first_tree-height root zero n = refl
first_tree-height root (suc h) n = refl

pub has_no_root-true : (t : CfTree) → has_no_root t ≡ true → t.root_uuid ≡ nil_uuid
has_no_root-true t h =
    let same = cmp_keys-eq-cmp_seq t.root_uuid nil_uuid in
    eq_of_cmp_keys t.root_uuid nil_uuid (ground (arith, same))

pub has_no_root-nil : (t : CfTree) → t.root_uuid ≡ nil_uuid → has_no_root t ≡ true
unfolding cmp_seq
has_no_root-nil t h = subst (λ u. is_eq (cmp_seq u nil_uuid) ≡ true) (sym h) refl

module _ (B : Backend) (L : IsLawful B) where
  tree_built :
      (s : B.State) (k : Bytes) (keys : List Bytes)
      → IsAscending (k ∷ keys)
      → All IsTreeKey (k ∷ keys)
      → IsMergedTree B s (k ∷ keys) (build_tree B (k ∷ keys) s)
  unfolding build_tree
  tree_built s k keys ascending sizes =
      let (es, t, accepted, kept, level) =
        leaf-IsLevel B L [] none k keys s
          (all_at_least (k ∷ keys), all_below (k ∷ keys), ascending, sizes) in
      let (root, height, t', built, kept', fresh, above, node) =
        IsBuilt-build_index_tree B L 0 t es (k ∷ keys) level in
      let n = length es % 2 ^ 32 in
      let same = sym (first_tree-root_uuid root (height % 256) n) in
      (
        first_tree root (height % 256) n,
        height,
        t',
        rw (accepted, built) refl,
        Keeps-trans B s t t' kept kept',
        first_tree-height root (height % 256) n,
        subst (λ u. u ≢ nil_uuid) same fresh,
        subst (λ u. Node B height t' [] none u (k ∷ keys)) same node,
      )

  root_put :
      (tree : CfTree) (t : B.State) (ks : List Bytes) (es : List IndexEntry)
      → tree.height < 256
      → IsLevel B tree.height t [] none es ks
      → IsMergedTree B t ks (put_root_entries B tree (some es) t)
  unfolding put_root_entries child_end
  root_put tree t ks [] small (l, c) = absurd l
  root_put tree t ks (e ∷ []) small (l, (k1, k2, b, entry, node, c, same)) =
      let whole : k1 ≡ ks = sym (append-nil k1) ∙ ap (λ x. k1 ++ x) (sym c) ∙ sym same in
      (
        record { root_uuid = e.uuid; height = tree.height; num_leaves = tree.num_leaves },
        tree.height,
        t,
        refl,
        (λ v x found. found),
        omega (arith, small),
        entry.2,
        Node-weaken B tree.height t [] e.key none e.uuid ks (nil-lt e.key)
            (subst (Node B tree.height t e.key none e.uuid) whole node),
      )
  root_put tree t ks (e ∷ e' ∷ es) small level =
      let (root, height, t', built, kept, fresh, above, node) =
        IsBuilt-build_index_tree B L tree.height t (e ∷ e' ∷ es) ks level in
      let byte : tree.height % 256 ≡ tree.height = omega (arith, small) in
      let built' : build_index_tree B (e ∷ e' ∷ es) tree.height t ≡ ok ((root, height % 256), t') =
        subst (λ n. build_index_tree B (e ∷ e' ∷ es) n t ≡ ok ((root, height % 256), t')) byte
          built in
      (
        record { root_uuid = root; height = height % 256; num_leaves = tree.num_leaves },
        height,
        t',
        rw built' refl,
        kept,
        refl,
        fresh,
        node,
      )

  entries_put :
      (tree : CfTree) (t : B.State) (ks : List Bytes) (k : Bytes) (keys : List Bytes)
      (res : Option (List IndexEntry))
      → tree.height < 256
      → IsResult B tree.height [] none t ks (k ∷ keys) res
      → IsMergedTree B t (merge_keys ks (k ∷ keys)) (put_root_entries B tree res t)
  entries_put tree t ks k keys none small r = absurd (cons_nil r)
    where
      cons_nil : {x : Bytes} {xs : List Bytes} → x ∷ xs ≡ [] → ⊥
      cons_nil h = ground (arith, h)
  entries_put tree t ks k keys (some es) small r =
      root_put tree t (merge_keys ks (k ∷ keys)) es small r

  -- Over a backend that accepts every write, the merge of at least one key, ascending and of nine
  -- bytes to 128 KiB, into a tree that holds its keys succeeds, and the new tree holds the merge of
  -- both, with a height of which it keeps the last eight bits.
  pub merge_tree-IsMergedTree :
      (tree : CfTree) (s : B.State) (ks : List Bytes) (k : Bytes) (keys : List Bytes)
      → IsKeyTree B s tree ks
      → IsAscending (k ∷ keys)
      → All IsTreeKey (k ∷ keys)
      → IsMergedTree B s (merge_keys ks (k ∷ keys)) (merge_tree B tree (k ∷ keys) s)
  unfolding merge_tree
  merge_tree-IsMergedTree tree s ks k keys (inl (root, empty)) ascending sizes =
      let none_before : merge_keys ks (k ∷ keys) ≡ k ∷ keys =
        unfold merge_keys in ap (λ l. merge_keys l (k ∷ keys)) empty in
      rw (has_no_root-nil tree root, merge_tree)
        (subst (λ l. IsMergedTree B s l (build_tree B (k ∷ keys) s)) (sym none_before)
          (tree_built s k keys ascending sizes))
  merge_tree-IsMergedTree tree s ks k keys (inr (root, small, node)) ascending sizes =
      elim (Bool-cases (has_no_root tree)) [
        | inl e ↦ absurd (root (has_no_root-true tree e))
        | inr e ↦
            let (res, t, accepted, kept, result) =
              merge_subtree-Merges B L tree.height [] none tree.root_uuid ks (k ∷ keys) s node
                (all_at_least (k ∷ keys), ascending, sizes) in
            let all = ap (λ (p : List Bytes × List Bytes). p.0) (take_all (k ∷ keys)) in
            let result' = subst (λ l. IsResult B tree.height [] none t ks l res) all result in
            let (tree', height, t', put, kept', high, fresh, node') =
              entries_put tree t ks k keys res small result' in
            rw (e, accepted, merge_tree)
              (tree', height, t', put, Keeps-trans B s t t' kept kept', high, fresh, node')
      ]
