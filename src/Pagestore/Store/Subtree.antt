-- ===== src/Pagestore/Store/Subtree.antt =====
-- `mergeLeaf` and `mergeSubtree` (go/internal/pagestore/store.go) put the new keys of a node's range
-- into it.
pub mod Leaf
pub mod Step
pub mod Children
use eavt_sql.Prelude.{
  ℕ, zero, suc, ◌≡◌, Bool, true, false, Option, none, some, List, [], ◌∷◌, Bool-cases, inl, inr,
}
use eavt_sql.Bytes.Order.{Bytes}
use eavt_sql.Pagestore.Outcome.{Outcome, ok}
use eavt_sql.Pagestore.Page.{IndexEntry}
use eavt_sql.Pagestore.Store.{Backend, Keeps}
use eavt_sql.Pagestore.Store.Merge.{merge_keys}
use eavt_sql.Pagestore.Store.Write.{Merged}
use eavt_sql.Pagestore.Store.Chain.{Node, IsLevel}
use eavt_sql.Pagestore.Store.Taken.{taken, left, AreNew}

-- The merge of one node.
abbrev pub Merger : Backend → Type 0
Merger B = Option Bytes → Bytes → List Bytes → B.State → Outcome (Merged × B.State)

module _ (B : Backend) (h : ℕ) (lo : Bytes) (hi : Option Bytes) where
  -- The keys that were taken are none, or there is a new level with the keys of both.
  abbrev pub IsResult : B.State → List Bytes → List Bytes → Option (List IndexEntry) → Type 0
  IsResult t ks new none = new ≡ []
  IsResult t ks new (some es) = IsLevel B h t lo hi es (merge_keys ks new)

  abbrev pub IsMerged : B.State → List Bytes → List Bytes → Outcome (Merged × B.State) → Type 0
  IsMerged s ks new o =
      (res : Option (List IndexEntry)) × (t : B.State) × (o ≡ ok ((res, left hi new), t))
      × Keeps B s t
      × IsResult t ks (taken hi new) res

-- What the merge of a node of some height promises.
abbrev pub Merges : (B : Backend) → ℕ → Merger B → Type 0
Merges B h merge =
    (lo : Bytes) (hi : Option Bytes) (u : Bytes) (ks new : List Bytes) (s : B.State)
    → Node B h s lo hi u ks
    → AreNew lo new
    → IsMerged B h lo hi s ks new (merge hi u new s)
