-- ===== src/Pagestore/Store/Commit/Loop.antt =====
-- The loop of `PrepareMerge` over the column families (go/internal/pagestore/store.go).
use eavt_sql.Prelude.{
  ℕ, ◌<◌, ◌≡◌, refl, sym, subst, ◌∙◌, true, false, ◌||◌, List, [], ◌∷◌, length, arith, inl, inr,
  leb, ◌==◌, get_or, Bool-cases, if◌then◌else◌,
}
use eavt_sql.Bytes.Order.{Bytes}
use eavt_sql.Pagestore.Outcome.{Outcome, ok}
use eavt_sql.Pagestore.Root.{CfTree, empty_tree}
use eavt_sql.Pagestore.Store.{Backend, IsLawful, Keeps}
use eavt_sql.Pagestore.Store.Merge.{merge_keys, merge_keys-nil}
use eavt_sql.Pagestore.Store.Nodes.{Keeps-trans}
use eavt_sql.Pagestore.Store.Commit.{CfKeys, merge_tree, merge_trees, set_tree}
use eavt_sql.Pagestore.Store.Commit.Tree.{IsKeyTree, merge_tree-IsMergedTree}
use eavt_sql.Pagestore.Store.Commit.Families.{
  IsTallTree, keys_for, is_named, AreKeysByCf, keys_for_unnamed, length-set_tree, get_or-set_tree,
  get_or-set_tree_other, IsTallTree-Keeps, IsKeyTree-Keeps,
}

module _ (B : Backend) where
  -- The trees that keys are still to come for, and the others.
  abbrev pub AreTrees : B.State → List CfTree → List CfKeys → (ℕ → List Bytes) → Type 0
  AreTrees s ts more held =
      (cf : ℕ)
      → cf < length ts
      → (is_named cf more ≡ true → IsKeyTree B s (get_or ts cf empty_tree) (held cf))
        × IsTallTree B s (get_or ts cf empty_tree) (held cf)

  abbrev pub AreMergedTrees :
      B.State
      → List CfTree
      → List CfKeys
      → (ℕ → List Bytes)
      → Outcome (List CfTree × B.State)
      → Type 0
  AreMergedTrees s ts more held o =
      (ts' : List CfTree) × (t : B.State) × (o ≡ ok (ts', t))
      × Keeps B s t
      × (length ts' ≡ length ts)
      × ((cf : ℕ)
          → cf < length ts
          → IsTallTree B t (get_or ts' cf empty_tree) (merge_keys (held cf) (keys_for cf more)))

  module _ (L : IsLawful B) where
    -- The trees after one column family's merge.
    abbrev held_after : ℕ → List Bytes → (ℕ → List Bytes) → ℕ → List Bytes
    held_after c new held cf = if c == cf then merge_keys (held cf) new else held cf

    trees_after :
        (s t : B.State) (ts : List CfTree) (c : ℕ) (tree : CfTree) (new : List Bytes)
        (more : List CfKeys) (held : ℕ → List Bytes)
        → is_named c more ≡ false
        → Keeps B s t
        → c < length ts
        → IsTallTree B t tree (merge_keys (held c) new)
        → AreTrees s ts ((c, new) ∷ more) held
        → AreTrees t (set_tree ts c tree) more (held_after c new held)
    trees_after s t ts c tree new more held once kept small tall h cf inside =
        let inside' : cf < length ts = omega (arith, inside, length-set_tree ts c tree) in
        elim (Bool-cases (c == cf)) [
          | inl e ↦
              let same : c ≡ cf = ground (arith, e) in
              let unnamed : is_named cf more ≡ false =
                subst (λ x. is_named x more ≡ false) same once in
              let found : get_or (set_tree ts c tree) cf empty_tree ≡ tree =
                subst (λ x. get_or (set_tree ts c tree) x empty_tree ≡ tree) same
                  (get_or-set_tree ts c tree small) in
              let tall' : IsTallTree B t tree (merge_keys (held cf) new) =
                subst (λ x. IsTallTree B t tree (merge_keys (held x) new)) same tall in
              (
                (λ named. absurd (ground (arith, unnamed, named))),
                rw e (subst (λ x. IsTallTree B t x (merge_keys (held cf) new)) (sym found) tall'),
              )
          | inr e ↦
              let found = get_or-set_tree_other ts c cf tree e in
              let (strict, weak) = h cf inside' in
              (
                (λ named. rw e (
                    subst (λ x. IsKeyTree B t x (held cf)) (sym found)
                      (IsKeyTree-Keeps B s t (get_or ts cf empty_tree) (held cf) kept
                        (strict (rw (e, named) refl))))),
                rw e (
                    subst (λ x. IsTallTree B t x (held cf)) (sym found)
                      (IsTallTree-Keeps B s t (get_or ts cf empty_tree) (held cf) kept weak)),
              )
        ]

    -- The keys that come behind a column family's own.
    keys_after :
        (c cf : ℕ) (new : List Bytes) (more : List CfKeys) (held : ℕ → List Bytes)
        → is_named c more ≡ false
        → merge_keys (held_after c new held cf) (keys_for cf more)
          ≡ merge_keys (held cf) (keys_for cf ((c, new) ∷ more))
    keys_after c cf new more held once = elim (Bool-cases (c == cf)) [
      | inl e ↦
          let same : c ≡ cf = ground (arith, e) in
          let unnamed : is_named cf more ≡ false = subst (λ x. is_named x more ≡ false) same once in
          rw (e, keys_for_unnamed cf more unnamed) (merge_keys-nil (merge_keys (held cf) new))
      | inr e ↦ rw e refl
    ]

    keys_skipped :
        (c cf : ℕ) (more : List CfKeys)
        → is_named c more ≡ false
        → keys_for cf ((c, []) ∷ more) ≡ keys_for cf more
    keys_skipped c cf more once = elim (Bool-cases (c == cf)) [
      | inl e ↦
          let same : c ≡ cf = ground (arith, e) in
          let unnamed : is_named cf more ≡ false = subst (λ x. is_named x more ≡ false) same once in
          rw e (sym (keys_for_unnamed cf more unnamed))
      | inr e ↦ rw e refl
    ]

    still_named :
        (s : B.State) (ts : List CfTree) (c : ℕ) (new : List Bytes) (more : List CfKeys)
        (held : ℕ → List Bytes)
        → AreTrees s ts ((c, new) ∷ more) held
        → AreTrees s ts more held
    still_named s ts c new more held h cf inside =
        let (strict, weak) = h cf inside in ((λ named. strict (ground (arith, named))), weak)

    merge_one :
        (ts : List CfTree) (c : ℕ) (k : Bytes) (keys : List Bytes) (more : List CfKeys)
        (s : B.State) (tree : CfTree) (t : B.State)
        → leb (length ts) c ≡ false
        → merge_tree B (get_or ts c empty_tree) (k ∷ keys) s ≡ ok (tree, t)
        → merge_trees B ts ((c, k ∷ keys) ∷ more) s ≡ merge_trees B (set_tree ts c tree) more t
    unfolding merge_trees
    merge_one ts c k keys more s tree t e accepted =
        let go : (leb (length ts) c || length (k ∷ keys) == 0) ≡ false = ground (arith, e) in
        rw (go, merge_trees) (rw accepted refl)

    pub trees_merged :
        (s : B.State) (ts : List CfTree) (more : List CfKeys) (held : ℕ → List Bytes)
        → AreKeysByCf more
        → AreTrees s ts more held
        → AreMergedTrees s ts more held (merge_trees B ts more s)
    unfolding merge_trees
    trees_merged s ts [] held a h = (
      ts,
      s,
      refl,
      (λ v x f. f),
      refl,
      λ cf small.
          subst (IsTallTree B s (get_or ts cf empty_tree)) (sym (merge_keys-nil (held cf)))
            (h cf small).1,
    )
    trees_merged s ts ((c, []) ∷ more) held (asc, sizes, once, a) h =
        let (ts', t, did, kept, len, all) =
          trees_merged s ts more held a (still_named s ts c [] more held h) in
        let skip : (leb (length ts) c || true) ≡ true = ground arith in
        rw (skip, merge_trees)
          (
            ts',
            t,
            did,
            kept,
            len,
            λ cf small.
                subst (λ x. IsTallTree B t (get_or ts' cf empty_tree) (merge_keys (held cf) x))
                  (sym (keys_skipped c cf more once)) (all cf small),
          )
    trees_merged s ts ((c, k ∷ keys) ∷ more) held (asc, sizes, once, a) h =
        elim (Bool-cases (leb (length ts) c)) [
          | inl e ↦
              let (ts', t, did, kept, len, all) =
                trees_merged s ts more held a (still_named s ts c (k ∷ keys) more held h) in
              rw (e, merge_trees)
                (
                  ts',
                  t,
                  did,
                  kept,
                  len,
                  λ cf small.
                      let other : (c == cf) ≡ false = ground (arith, e, small) in
                      rw other (all cf small),
                )
          | inr e ↦
              let inside : c < length ts = ground (arith, e) in
              let named : is_named c ((c, k ∷ keys) ∷ more) ≡ true = ground arith in
              let (tree, height, t, accepted, kept, high, root, node) =
                merge_tree-IsMergedTree B L (get_or ts c empty_tree) s (held c) k keys
                  ((h c inside).0 named) asc sizes in
              let after =
                trees_after s t ts c tree (k ∷ keys) more held once kept inside
                  (inr (root, (height, high, node))) h in
              let (ts', t', did, kept', len, all) =
                trees_merged t (set_tree ts c tree) more (held_after c (k ∷ keys) held) a after in
              let same = length-set_tree ts c tree in
              (
                ts',
                t',
                merge_one ts c k keys more s tree t e accepted ∙ did,
                Keeps-trans B s t t' kept kept',
                len ∙ same,
                λ cf small.
                    subst (IsTallTree B t' (get_or ts' cf empty_tree))
                      (keys_after c cf (k ∷ keys) more held once)
                      (all cf (omega (arith, small, same))),
              )
        ]
