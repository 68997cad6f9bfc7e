-- ===== src/Pagestore/Store/Subtree/Children.antt =====
-- The loop of `mergeSubtree` over a node's entries (go/internal/pagestore/store.go), and the node as
-- a whole.
use eavt_sql.Prelude.{
  ℕ, zero, suc, ◌≡◌, refl, sym, ap, ap₂, subst, ◌∙◌, Bool, true, false, ◌||◌, Option, none, some,
  List, [], ◌∷◌, ◌++◌, append-nil, arith,
}
use eavt_sql.Bytes.Order.{Bytes}
use eavt_sql.Pagestore.Outcome.{ok, ◌>>=◌}
use eavt_sql.Pagestore.Page.{IndexEntry}
use eavt_sql.Pagestore.Range.{lt, lt_irrefl}
use eavt_sql.Pagestore.Store.{Backend, IsLawful, Keeps, blob_get}
use eavt_sql.Pagestore.Store.Merge.{merge_keys, merge_keys-append}
use eavt_sql.Pagestore.Store.Write.{
  child_end, child_entries, is_some, merge_children, put_node, merge_node, merge_subtree,
}
use eavt_sql.Pagestore.Store.Chain.{Chain, Node, IsLevel, Chain-InRange, Chain-first}
use eavt_sql.Pagestore.Store.Nodes.{
  Keeps-trans, Chain-Keeps, Node-Keeps, Node-InRange, IsLevel-append,
}
use eavt_sql.Pagestore.Store.Taken.{taken, left, AreNew, taken-InRange, left-AreNew, taken_twice}
use eavt_sql.Pagestore.Store.Levels.Root.{written-IsLevel}
use eavt_sql.Pagestore.Store.Subtree.{Merger, IsResult, Merges}
use eavt_sql.Pagestore.Store.Subtree.Leaf.{merge_leaf-Merges}
use eavt_sql.Pagestore.Store.Subtree.Step.{behind, step, child-IsLevel}

module _ (B : Backend) (h : ℕ) (merge : Merger B) (promise : Merges B h merge) where
  or_false : (a b : Bool) → a || b ≡ false → (a ≡ false) × (b ≡ false)
  or_false false false f = (refl, refl)
  or_false false true f = absurd (ground (arith, f))
  or_false true b f = absurd (ground (arith, f))

  -- The whole loop: the new level, whether it changed, and the keys left.
  abbrev IsLoop :
      Bytes → Option Bytes → List IndexEntry → List Bytes → List Bytes → B.State → Type 0
  IsLoop lo hi es ks new s =
      (more : List IndexEntry) × (changed : Bool) × (t : B.State) × (merge_children B merge hi es
          new s
        ≡ ok ((more, changed, left hi new), t))
      × Keeps B s t
      × IsLevel B h t lo hi more (merge_keys ks (taken hi new))
      × (changed ≡ false → taken hi new ≡ [])

  is_some-taken :
      (lo : Bytes) (stop : Option Bytes) (t : B.State) (ks new : List Bytes)
      (res : Option (List IndexEntry))
      → IsResult B h lo stop t ks new res
      → is_some res ≡ false
      → new ≡ []
  is_some-taken lo stop t ks new none r e = r
  is_some-taken lo stop t ks new (some es) r e = absurd (ground (arith, e))

  loop_end :
      (hi : Option Bytes) (rest : List Bytes) (t : B.State)
      → merge_children B merge hi [] rest t ≡ ok (([], false, rest), t)
  unfolding merge_children
  loop_end hi rest t = refl

  loop :
      (lo : Bytes) (hi : Option Bytes) (e : IndexEntry) (es : List IndexEntry) (ks new : List Bytes)
      (s : B.State)
      → lt e.key lo ≡ false
      → Chain (Node B h s) hi (e ∷ es) ks
      → AreNew lo new
      → IsLoop lo hi (e ∷ es) ks new s
  unfolding child_end
  loop lo hi e [] ks new s l (k1, k2, b, entry, node, c, same) fresh =
      let (res, t, did, kept, result) = step B h merge promise hi e [] new s lo k1 l node fresh in
      let node' = Node-Keeps B h s t kept e.key hi e.uuid k1 node in
      let level =
        child-IsLevel B h merge promise t lo hi e k1 (taken hi new) res l b entry node' result in
      let whole : k1 ≡ ks = sym (append-nil k1) ∙ ap (λ x. k1 ++ x) (sym c) ∙ sym same in
      let own : IsLevel B h t lo hi (child_entries e res) (merge_keys ks (taken hi new)) =
        subst (λ x. IsLevel B h t lo hi (child_entries e res) (merge_keys x (taken hi new))) whole
          level in
      (
        child_entries e res ++ [],
        is_some res || false,
        t,
        did ∙ ap (behind B h merge promise e res) (loop_end hi (left hi new) t),
        kept,
        subst (λ x. IsLevel B h t lo hi x (merge_keys ks (taken hi new)))
            (sym (append-nil (child_entries e res))) own,
        λ f. is_some-taken lo hi t k1 (taken hi new) res result (or_false (is_some res) false f).0,
      )
  loop lo hi e (e' ∷ es) ks new s l (k1, k2, b, entry, node, c, same) fresh =
      let stop = some e'.key in
      let (res, t, did, kept, result) =
        step B h merge promise hi e (e' ∷ es) new s lo k1 l node fresh in
      let fresh' = left-AreNew lo e'.key new fresh in
      let c' = Chain-Keeps B h s t kept hi (e' ∷ es) k2 c in
      let (more, changed, t', did', kept', level', none') =
        loop e'.key hi e' es k2 (left stop new) t (lt_irrefl e'.key) c' fresh' in
      let twice = taken_twice hi e'.key new (Chain-first (Node B h s) hi e' es k2 c) in
      let front =
        child-IsLevel B h merge promise t lo stop e k1 (taken stop new) res l b entry
          (Node-Keeps B h s t kept e.key stop e.uuid k1 node) result in
      let front' : IsLevel B h t' lo stop (child_entries e res) (merge_keys k1 (taken stop new)) = (
        front.0,
        Chain-Keeps B h t t' kept' stop (child_entries e res) (merge_keys k1 (taken stop new))
            front.1,
      ) in
      let back = Chain-InRange (Node B h s) (Node-InRange B h s) hi e' es k2 c in
      let keys : merge_keys ks (taken hi new)
          ≡ merge_keys k1 (taken stop new) ++ merge_keys k2 (taken hi (left stop new)) =
        ap₂ merge_keys same (ap (λ (p : List Bytes × List Bytes). p.0) twice)
        ∙ merge_keys-append e'.key k1 k2 (taken stop new) (taken hi (left stop new))
            (Node-InRange B h s e.key stop e.uuid k1 node).1 back.0
            (taken-InRange lo stop new fresh).1
            (taken-InRange e'.key hi (left stop new) fresh').0 in
      let rest : left hi (left stop new) ≡ left hi new =
        ap (λ (p : List Bytes × List Bytes). p.1) (sym twice) in
      let both : IsLevel B h t' lo hi (child_entries e res ++ more)
          (merge_keys k1 (taken stop new) ++ merge_keys k2 (taken hi (left stop new))) =
        IsLevel-append B h t' lo e'.key hi (child_entries e res) more
          (merge_keys k1 (taken stop new)) (merge_keys k2 (taken hi (left stop new))) front'
          level' in
      (
        child_entries e res ++ more,
        is_some res || changed,
        t',
        did
            ∙ ap (behind B h merge promise e res) did'
            ∙ ap (λ x. ok ((child_entries e res ++ more, is_some res || changed, x), t')) rest,
        Keeps-trans B s t t' kept kept',
        subst (IsLevel B h t' lo hi (child_entries e res ++ more)) (sym keys) both,
        λ f.
            let (f1, f2) = or_false (is_some res) changed f in
            ap (λ (p : List Bytes × List Bytes). p.0) twice
            ∙ ap₂ ◌++◌ (is_some-taken lo stop t k1 (taken stop new) res result f1) (none' f2),
      )

  module _ (L : IsLawful B) where
    put_level :
        (lo : Bytes) (hi : Option Bytes) (s : B.State) (more : List IndexEntry) (changed : Bool)
        (ks new rest : List Bytes)
        → IsLevel B h s lo hi more (merge_keys ks new)
        → (changed ≡ false → new ≡ [])
        → (res : Option (List IndexEntry)) × (t : B.State) × (put_node B more changed rest s
            ≡ ok ((res, rest), t))
          × Keeps B s t
          × IsResult B (suc h) lo hi t ks new res
    unfolding put_node
    put_level lo hi s more false ks new rest level same =
        (none, s, refl, (λ v x found. found), same refl)
    put_level lo hi s more true ks new rest level same =
        let (es, t, accepted, kept, level') =
          written-IsLevel B L h s lo hi more (merge_keys ks new) level in
        (some es, t, rw accepted refl, kept, level')

    merge_node-Merges :
        Merges B
          (suc h)
          (λ hi u new s. blob_get B u s >>= λ found. merge_node B merge hi found new s)
    unfolding merge_node
    merge_node-Merges lo hi u ks new s (d, e, es, found, page, l, c) fresh =
        let (more, changed, t, did, kept, level, same) = loop lo hi e es ks new s l c fresh in
        let (res, t', put, kept', result) =
          put_level lo hi t more changed ks (taken hi new) (left hi new) level same in
        (res, t', rw (found, page, did) put, Keeps-trans B s t t' kept kept', result)

-- Each node takes the new keys of its range, and the tree below it then holds both.
pub merge_subtree-Merges : (B : Backend) → IsLawful B → (h : ℕ) → Merges B h (merge_subtree B h)
unfolding merge_subtree
merge_subtree-Merges B L zero = merge_leaf-Merges B L
merge_subtree-Merges B L (suc h) =
    merge_node-Merges B h (merge_subtree B h) (merge_subtree-Merges B L h) L
