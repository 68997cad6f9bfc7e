-- ===== src/Pagestore/Store/Commit/Families.antt =====
-- The column families of a root and the keys that come for them
-- (go/internal/pagestore/store.go).
use eavt_sql.Prelude.{
  ℕ, zero, suc, ◌%◌, ◌<◌, ◌≡◌, ◌≢◌, ◌⊎◌, refl, ap, Bool, false, ◌||◌, none, List, [], ◌∷◌, All,
  length, arith, inl, inr, ◌==◌, get_or, if◌then◌else◌,
}
use eavt_sql.Bytes.Order.{Bytes}
use eavt_sql.Pagestore.Range.{IsAscending}
use eavt_sql.Pagestore.Root.{CfTree, empty_tree}
use eavt_sql.Pagestore.Store.{Backend, Keeps, nil_uuid}
use eavt_sql.Pagestore.Store.Chain.{IsTreeKey, Node}
use eavt_sql.Pagestore.Store.Nodes.{Node-Keeps}
use eavt_sql.Pagestore.Store.Commit.{CfKeys, set_tree}
use eavt_sql.Pagestore.Store.Commit.Tree.{IsKeyTree}

-- The same as for `IsKeyTree`, with the height of which the tree keeps the last eight bits.
abbrev pub IsTallTree : (B : Backend) → B.State → CfTree → List Bytes → Type 0
IsTallTree B s tree ks =
    ((tree.root_uuid ≡ nil_uuid) × (ks ≡ []))
    ⊎ ((tree.root_uuid ≢ nil_uuid)
        × ((height : ℕ) × (tree.height ≡ height % 256) × Node B height s [] none tree.root_uuid ks))

-- The keys that come for a column family, which is named once at most.
abbrev pub keys_for : ℕ → List CfKeys → List Bytes
keys_for cf [] = []
keys_for cf ((c, keys) ∷ more) = if c == cf then keys else keys_for cf more

abbrev pub is_named : ℕ → List CfKeys → Bool
is_named cf [] = false
is_named cf ((c, keys) ∷ more) = c == cf || is_named cf more

abbrev pub AreKeysByCf : List CfKeys → Type 0
AreKeysByCf [] = Unit
AreKeysByCf ((c, keys) ∷ more) =
    IsAscending keys × All IsTreeKey keys × (is_named c more ≡ false) × AreKeysByCf more

pub keys_for_unnamed :
    (cf : ℕ) (more : List CfKeys) → is_named cf more ≡ false → keys_for cf more ≡ []
keys_for_unnamed cf [] h = refl
keys_for_unnamed cf ((c, keys) ∷ more) h = ground (arith, keys_for_unnamed cf more)

pub length-set_tree :
    (ts : List CfTree) (cf : ℕ) (t : CfTree) → length (set_tree ts cf t) ≡ length ts
unfolding set_tree
length-set_tree [] cf t = refl
length-set_tree (x ∷ ts) zero t = refl
length-set_tree (x ∷ ts) (suc cf) t = ap suc (length-set_tree ts cf t)

pub get_or-set_tree :
    (ts : List CfTree) (cf : ℕ) (t : CfTree)
    → cf < length ts
    → get_or (set_tree ts cf t) cf empty_tree ≡ t
unfolding set_tree
get_or-set_tree [] cf t h = absurd (omega (arith, h))
get_or-set_tree (x ∷ ts) zero t h = refl
get_or-set_tree (x ∷ ts) (suc cf) t h = get_or-set_tree ts cf t (omega (arith, h))

pub get_or-set_tree_other :
    (ts : List CfTree) (c cf : ℕ) (t : CfTree)
    → (c == cf) ≡ false
    → get_or (set_tree ts c t) cf empty_tree ≡ get_or ts cf empty_tree
unfolding set_tree
get_or-set_tree_other [] c cf t h = refl
get_or-set_tree_other (x ∷ ts) zero zero t h = absurd (ground (arith, h))
get_or-set_tree_other (x ∷ ts) zero (suc cf) t h = refl
get_or-set_tree_other (x ∷ ts) (suc c) zero t h = refl
get_or-set_tree_other (x ∷ ts) (suc c) (suc cf) t h =
    get_or-set_tree_other ts c cf t (ground (arith, h))

module _ (B : Backend) where
  pub IsTallTree-Keeps :
      (s t : B.State) (tree : CfTree) (ks : List Bytes)
      → Keeps B s t
      → IsTallTree B s tree ks
      → IsTallTree B t tree ks
  IsTallTree-Keeps s t tree ks k (inl e) = inl e
  IsTallTree-Keeps s t tree ks k (inr (r, (h, high, node))) =
      inr (r, (h, high, Node-Keeps B h s t k [] none tree.root_uuid ks node))

  pub IsKeyTree-Keeps :
      (s t : B.State) (tree : CfTree) (ks : List Bytes)
      → Keeps B s t
      → IsKeyTree B s tree ks
      → IsKeyTree B t tree ks
  IsKeyTree-Keeps s t tree ks k (inl e) = inl e
  IsKeyTree-Keeps s t tree ks k (inr (r, small, node)) =
      inr (r, small, Node-Keeps B tree.height s t k [] none tree.root_uuid ks node)

  pub IsKeyTree-tall :
      (s : B.State) (tree : CfTree) (ks : List Bytes)
      → IsKeyTree B s tree ks
      → IsTallTree B s tree ks
  IsKeyTree-tall s tree ks (inl e) = inl e
  IsKeyTree-tall s tree ks (inr (r, small, node)) =
      inr (r, (tree.height, omega (arith, small), node))
