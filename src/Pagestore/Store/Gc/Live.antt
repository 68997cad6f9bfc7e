-- ===== src/Pagestore/Store/Gc/Live.antt =====
-- The live set of `GcFull` (go/internal/pagestore/gc.go) covers the trees of the roots it is
-- computed from: whatever keeps its blobs keeps the trees.
use eavt_sql.Prelude.{
  ℕ, zero, suc, ◌≡◌, ◌≢◌, refl, true, false, Option, none, some, List, [], ◌∷◌, arith, is_eq,
  Bool-cases, inl, inr,
}
use eavt_sql.Bytes.Order.{Bytes, cmp_seq, cmp_keys-eq-cmp_seq, cmp_keys_refl, eq_of_cmp_keys}
use eavt_sql.Pagestore.Outcome.{Outcome, ok}
use eavt_sql.Pagestore.Page.{IndexEntry}
use eavt_sql.Pagestore.Root.{CfTree}
use eavt_sql.Pagestore.Store.{Backend, blob_get, nil_uuid}
use eavt_sql.Pagestore.Store.Write.{child_end}
use eavt_sql.Pagestore.Store.Chain.{Chain, Node}
use eavt_sql.Pagestore.Store.Commit.Tree.{IsKeyTree}
use eavt_sql.Pagestore.Store.Gc.{
  is_live, add_live, collect_entries, collect_tree_uuids, collect_trees,
}

-- Every identifier of the first set is in the second.
abbrev pub IsIn : List Bytes → List Bytes → Type 0
IsIn live live' = (u : Bytes) → is_live u live ≡ true → is_live u live' ≡ true

-- The live blobs of the first state are in the second.
abbrev pub KeepsLive : (B : Backend) → List Bytes → B.State → B.State → Type 0
KeepsLive B live s t =
    (u x : Bytes)
    → is_live u live ≡ true
    → blob_get B u s ≡ ok (some x)
    → blob_get B u t ≡ ok (some x)

same_uuid : (u v : Bytes) → is_eq (cmp_seq u v) ≡ true → u ≡ v
same_uuid u v h = eq_of_cmp_keys u v (ground (arith, cmp_keys-eq-cmp_seq u v, h))

is_live_self : (u : Bytes) (live : List Bytes) → is_live u (u ∷ live) ≡ true
unfolding is_live
is_live_self u live =
    let same : is_eq (cmp_seq u u) ≡ true =
      ground (arith, cmp_keys-eq-cmp_seq u u, cmp_keys_refl u) in
    rw same refl

is_live-add_live : (u : Bytes) (live : List Bytes) → is_live u (add_live u live) ≡ true
unfolding add_live
is_live-add_live u live = elim (Bool-cases (is_live u live)) [
  | inl e ↦ rw (e, add_live) e
  | inr e ↦ rw (e, add_live) (is_live_self u live)
]

IsIn-add_live : (u : Bytes) (live : List Bytes) → IsIn live (add_live u live)
unfolding add_live is_live
IsIn-add_live u live v h = elim (Bool-cases (is_live u live)) [
  | inl e ↦ rw (e, add_live) h
  | inr e ↦ rw (e, add_live) (ground (arith, h))
]

-- Every tree of a root holds keys.
abbrev pub AreKeyTrees : (B : Backend) → B.State → List CfTree → List (List Bytes) → Type 0
AreKeyTrees B t [] kss = kss ≡ []
AreKeyTrees B t (tree ∷ ts) [] = ⊥
AreKeyTrees B t (tree ∷ ts) (ks ∷ kss) = IsKeyTree B t tree ks × AreKeyTrees B t ts kss

module _ (B : Backend) (s : B.State) where
  -- The set that a walk ends with: it holds what it held, and it covers a tree.
  abbrev pub Covers : (B.State → Type 0) → List Bytes → Outcome (List Bytes) → Type 0
  Covers P live o =
      (live' : List Bytes) × (o ≡ ok live')
      × IsIn live live'
      × ((t : B.State) → KeepsLive B live' s t → P t)

  pub KeepsLive-IsIn :
      (live live' : List Bytes) (t : B.State)
      → IsIn live live'
      → KeepsLive B live' s t
      → KeepsLive B live s t
  KeepsLive-IsIn live live' t h k u x l found = k u x (h u l) found

  -- The children of an index page.
  leaves_covered :
      (hi : Option Bytes) (es : List IndexEntry) (ks live : List Bytes)
      (visit : Bytes → List Bytes → Outcome (List Bytes))
      → Chain (Node B 0 s) hi es ks
      → Covers (λ t. Chain (Node B 0 t) hi es ks) live (collect_entries 0 visit es live)
  unfolding collect_entries
  leaves_covered hi [] ks live visit c = (live, refl, (λ u l. l), λ t k. c)
  leaves_covered hi (e ∷ es) ks live visit (k1, k2, b, entry, (d, found, page, range), c, same) =
      let (live', did, inside, covered) = leaves_covered hi es k2 (add_live e.uuid live) visit c in
      (
        live',
        did,
        (λ u l. inside u (IsIn-add_live e.uuid live u l)),
        λ t k. (
          k1,
          k2,
          b,
          entry,
          (d, k e.uuid d (inside e.uuid (is_live-add_live e.uuid live)) found, page, range),
          covered t k,
          same,
        ),
      )

  nodes_covered :
      (h : ℕ)
      → ((lo : Bytes) (hi : Option Bytes) (u : Bytes) (ks live : List Bytes)
          → u ≢ nil_uuid
          → Node B (suc h) s lo hi u ks
          → Covers (λ t. Node B (suc h) t lo hi u ks) live (collect_tree_uuids B s (suc h) u live))
      → (hi : Option Bytes) (es : List IndexEntry) (ks live : List Bytes)
      → Chain (Node B (suc h) s) hi es ks
      → Covers
          (λ t. Chain (Node B (suc h) t) hi es ks)
          live
          (collect_entries (suc h) (collect_tree_uuids B s (suc h)) es live)
  unfolding collect_entries
  nodes_covered h visit hi [] ks live c = (live, refl, (λ u l. l), λ t k. c)
  nodes_covered h visit hi (e ∷ es) ks live (k1, k2, b, entry, node, c, same) =
      let (live1, did1, inside1, covered1) =
        visit e.key (child_end es hi) e.uuid k1 (add_live e.uuid live) entry.2 node in
      let (live', did, inside, covered) = nodes_covered h visit hi es k2 live1 c in
      (
        live',
        rw did1 did,
        (λ u l. inside u (inside1 u (IsIn-add_live e.uuid live u l))),
        λ t k. (
          k1,
          k2,
          b,
          entry,
          covered1 t (KeepsLive-IsIn live1 live' t inside k),
          covered t k,
          same,
        ),
      )

  no_tree :
      (h : ℕ) (u : Bytes) (live : List Bytes)
      → u ≡ nil_uuid
      → collect_tree_uuids B s h u live ≡ ok live
  unfolding collect_tree_uuids cmp_seq
  no_tree zero u live e = rw (e, collect_tree_uuids) refl
  no_tree (suc h) u live e = rw (e, collect_tree_uuids) refl

  not_nil : (u : Bytes) → u ≢ nil_uuid → is_eq (cmp_seq u nil_uuid) ≡ false
  not_nil u h = elim (Bool-cases (is_eq (cmp_seq u nil_uuid))) [
    | inl e ↦ absurd (h (same_uuid u nil_uuid e))
    | inr e ↦ e
  ]

  tree_covered :
      (h : ℕ) (lo : Bytes) (hi : Option Bytes) (u : Bytes) (ks live : List Bytes)
      → u ≢ nil_uuid
      → Node B h s lo hi u ks
      → Covers (λ t. Node B h t lo hi u ks) live (collect_tree_uuids B s h u live)
  unfolding collect_tree_uuids
  tree_covered zero lo hi u ks live some_root (d, found, page, range) =
      rw (not_nil u some_root, collect_tree_uuids)
        (
          add_live u live,
          refl,
          IsIn-add_live u live,
          λ t k. (d, k u d (is_live-add_live u live) found, page, range),
        )
  tree_covered (suc zero) lo hi u ks live some_root (d, e, es, found, page, low, c) =
      let (live', did, inside, covered) =
        leaves_covered hi (e ∷ es) ks (add_live u live) (collect_tree_uuids B s zero) c in
      rw (not_nil u some_root, found, page, collect_tree_uuids)
        (
          live',
          did,
          (λ v l. inside v (IsIn-add_live u live v l)),
          λ t k.
              (d, e, es, k u d (inside u (is_live-add_live u live)) found, page, low, covered t k),
        )
  tree_covered (suc (suc h)) lo hi u ks live some_root (d, e, es, found, page, low, c) =
      let (live', did, inside, covered) =
        nodes_covered h (tree_covered (suc h)) hi (e ∷ es) ks (add_live u live) c in
      rw (not_nil u some_root, found, page, collect_tree_uuids)
        (
          live',
          did,
          (λ v l. inside v (IsIn-add_live u live v l)),
          λ t k.
              (d, e, es, k u d (inside u (is_live-add_live u live)) found, page, low, covered t k),
        )

  IsKeyTree-covered :
      (tree : CfTree) (ks live : List Bytes)
      → IsKeyTree B s tree ks
      → Covers
          (λ t. IsKeyTree B t tree ks)
          live
          (collect_tree_uuids B s tree.height tree.root_uuid live)
  IsKeyTree-covered tree ks live (inl e) =
      (live, no_tree tree.height tree.root_uuid live e.0, (λ u l. l), λ t k. inl e)
  IsKeyTree-covered tree ks live (inr (root, small, node)) =
      let (live', did, inside, covered) =
        tree_covered tree.height [] none tree.root_uuid ks live root node in
      (live', did, inside, λ t k. inr (root, small, covered t k))

  pub trees_covered :
      (ts : List CfTree) (kss : List (List Bytes)) (live : List Bytes)
      → AreKeyTrees B s ts kss
      → Covers (λ t. AreKeyTrees B t ts kss) live (collect_trees B s ts live)
  unfolding collect_trees
  trees_covered [] kss live a = (live, refl, (λ u l. l), λ t k. a)
  trees_covered (tree ∷ ts) [] live a = absurd a
  trees_covered (tree ∷ ts) (ks ∷ kss) live a =
      let (live1, did1, inside1, covered1) = IsKeyTree-covered tree ks live a.0 in
      let (live', did, inside, covered) = trees_covered ts kss live1 a.1 in
      (
        live',
        rw did1 did,
        (λ u l. inside u (inside1 u l)),
        λ t k. (covered1 t (KeepsLive-IsIn live1 live' t inside k), covered t k),
      )
