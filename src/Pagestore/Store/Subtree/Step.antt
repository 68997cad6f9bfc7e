-- ===== src/Pagestore/Store/Subtree/Step.antt =====
-- One round of the loop of `mergeSubtree` over a node's entries (go/internal/pagestore/store.go).
use eavt_sql.Prelude.{
  ℕ, ◌≡◌, refl, sym, ap, ◌∙◌, Bool, true, false, ◌||◌, Option, none, some, List, [], ◌∷◌, ◌++◌,
  append-nil, arith, Bool-cases, inl, inr,
}
use eavt_sql.Bytes.Order.{Bytes}
use eavt_sql.Pagestore.Outcome.{Outcome, ok, ◌>>=◌}
use eavt_sql.Pagestore.Page.{IndexEntry}
use eavt_sql.Pagestore.Root.Prefix.{below_end}
use eavt_sql.Pagestore.Range.{lt}
use eavt_sql.Pagestore.Store.{Backend, Keeps}
use eavt_sql.Pagestore.Store.Merge.{merge_keys, merge_keys-nil}
use eavt_sql.Pagestore.Store.Write.{child_end, has_keys, child_entries, is_some, merge_children}
use eavt_sql.Pagestore.Store.Chain.{IsTreeEntry, Node, IsLevel}
use eavt_sql.Pagestore.Store.Nodes.{Node-weaken}
use eavt_sql.Pagestore.Store.Taken.{taken, left, AreNew, taken_none}
use eavt_sql.Pagestore.Store.Subtree.{Merger, IsResult, Merges}

module _ (B : Backend) (h : ℕ) (merge : Merger B) (promise : Merges B h merge) where
  -- The new entries of one child: its own, or the entry as it was.
  pub child-IsLevel :
      (t : B.State) (lo : Bytes) (stop : Option Bytes) (e : IndexEntry) (ks new : List Bytes)
      (res : Option (List IndexEntry))
      → lt e.key lo ≡ false
      → below_end stop e.key ≡ true
      → IsTreeEntry e
      → Node B h t e.key stop e.uuid ks
      → IsResult B h lo stop t ks new res
      → IsLevel B h t lo stop (child_entries e res) (merge_keys ks new)
  unfolding child_end
  child-IsLevel t lo stop e ks new none l b entry node r =
      let same : merge_keys ks new ≡ ks ++ [] =
        ap (merge_keys ks) r ∙ merge_keys-nil ks ∙ sym (append-nil ks) in
      (l, (ks, [], b, entry, node, refl, same))
  child-IsLevel t lo stop e ks new (some es) l b entry node r = r

  unchanged : (res : Option (List IndexEntry)) → is_some res ≡ false → res ≡ none
  unchanged none e = refl
  unchanged (some es) e = absurd (ground (arith, e))

  -- The rest of the loop behind one entry.
  abbrev pub behind :
      IndexEntry
      → Option (List IndexEntry)
      → Outcome ((List IndexEntry × Bool × List Bytes) × B.State)
      → Outcome ((List IndexEntry × Bool × List Bytes) × B.State)
  behind e res o = do
    ((more, changed, rest), t) ← o
    ok ((child_entries e res ++ more, is_some res || changed, rest), t)

  module _ (hi : Option Bytes) (e : IndexEntry) (es : List IndexEntry) (new : List Bytes)
      (s : B.State) where
    skip_child :
        has_keys (child_end es hi) new ≡ false
        → merge_children B merge hi (e ∷ es) new s
          ≡ behind e none (merge_children B merge hi es new s)
    unfolding merge_children
    skip_child f = rw (f, merge_children) refl

    merge_child :
        (res : Option (List IndexEntry)) (rest : List Bytes) (t : B.State)
        → has_keys (child_end es hi) new ≡ true
        → merge (child_end es hi) e.uuid new s ≡ ok ((res, rest), t)
        → merge_children B merge hi (e ∷ es) new s
          ≡ behind e res (merge_children B merge hi es rest t)
    unfolding merge_children
    merge_child res rest t f accepted = rw (f, merge_children) (rw accepted refl)

    abbrev pub IsStep : Bytes → List Bytes → Type 0
    IsStep lo ks =
        (res : Option (List IndexEntry)) × (t : B.State) × (merge_children B merge hi (e ∷ es) new s
          ≡ behind e res (merge_children B merge hi es (left (child_end es hi) new) t))
        × Keeps B s t
        × IsResult B h lo (child_end es hi) t ks (taken (child_end es hi) new) res

    -- What the loop does with one entry: the child's result, and the rest of the loop.
    pub step :
        (lo : Bytes) (ks : List Bytes)
        → lt e.key lo ≡ false
        → Node B h s e.key (child_end es hi) e.uuid ks
        → AreNew lo new
        → IsStep lo ks
    step lo ks l node fresh =
        let stop = child_end es hi in
        elim (Bool-cases (has_keys stop new)) [
          | inr f ↦
              let none_taken = taken_none stop new f in
              (
                none,
                s,
                skip_child f
                    ∙ ap
                        (λ (p : List Bytes × List Bytes).
                          behind e none (merge_children B merge hi es p.1 s))
                        (sym none_taken),
                (λ v x found. found),
                ap (λ (p : List Bytes × List Bytes). p.0) none_taken,
              )
          | inl f ↦
              let (res, t, accepted, kept, result) =
                promise lo stop e.uuid ks new s (Node-weaken B h s lo e.key stop e.uuid ks l node)
                  fresh in
              (res, t, merge_child res (left stop new) t f accepted, kept, result)
        ]
