-- ===== src/Pagestore/Store/Nodes.antt =====
-- Trees stay what they are while blobs are added (go/internal/pagestore/store.go writes pages only
-- under fresh identifiers), and their keys are ascending and in their range.
use eavt_sql.Prelude.{
  ℕ, zero, suc, ◌≡◌, sym, true, false, Option, some, List, [], ◌∷◌, ◌++◌, All-map,
}
use eavt_sql.Bytes.Order.{Bytes}
use eavt_sql.Pagestore.Page.{IndexEntry}
use eavt_sql.Pagestore.Root.Prefix.{below_end}
use eavt_sql.Pagestore.Store.Write.{child_end}
use eavt_sql.Pagestore.Range.{lt, le_trans, lt_of_lt_of_le, below_end-some}
use eavt_sql.Pagestore.Store.{Backend, Keeps}
use eavt_sql.Pagestore.Store.Chain.{
  InRange, InRange-weaken, Holds, Chain, Node, IsLevel, Chain-map, Chain-append, Chain-InRange,
}

module _ (B : Backend) where
  pub Keeps-refl : (s : B.State) → Keeps B s s
  Keeps-refl s v x h = h

  pub Keeps-trans : (r s t : B.State) → Keeps B r s → Keeps B s t → Keeps B r t
  Keeps-trans r s t h k v x e = k v x (h v x e)

  pub Node-Keeps :
      (h : ℕ) (s t : B.State)
      → Keeps B s t
      → (lo : Bytes) (hi : Option Bytes) (u : Bytes) (ks : List Bytes) → Node B h s lo hi u ks
      → Node B h t lo hi u ks
  Node-Keeps zero s t k lo hi u ks (d, found, page, range) = (d, k u d found, page, range)
  Node-Keeps (suc h) s t k lo hi u ks (d, e, es, found, page, low, c) = (
    d,
    e,
    es,
    k u d found,
    page,
    low,
    Chain-map (Node B h s) (Node B h t) (Node-Keeps h s t k) hi (e ∷ es) ks c,
  )

  pub Chain-Keeps :
      (h : ℕ) (s t : B.State)
      → Keeps B s t
      → (hi : Option Bytes) (es : List IndexEntry) (ks : List Bytes) → Chain (Node B h s) hi es ks
      → Chain (Node B h t) hi es ks
  Chain-Keeps h s t k = Chain-map (Node B h s) (Node B h t) (Node-Keeps h s t k)

  pub Node-InRange :
      (h : ℕ) (s : B.State) (lo : Bytes) (hi : Option Bytes) (u : Bytes) (ks : List Bytes)
      → Node B h s lo hi u ks
      → InRange lo hi ks
  Node-InRange zero s lo hi u ks (d, found, page, range) = range
  Node-InRange (suc h) s lo hi u ks (d, e, es, found, page, low, c) =
      InRange-weaken lo e.key hi ks low (Chain-InRange (Node B h s) (Node-InRange h s) hi e es ks c)

  pub Node-weaken :
      (h : ℕ) (s : B.State) (lo lo' : Bytes) (hi : Option Bytes) (u : Bytes) (ks : List Bytes)
      → lt lo' lo ≡ false
      → Node B h s lo' hi u ks
      → Node B h s lo hi u ks
  Node-weaken zero s lo lo' hi u ks l (d, found, page, range) =
      (d, found, page, InRange-weaken lo lo' hi ks l range)
  Node-weaken (suc h) s lo lo' hi u ks l (d, e, es, found, page, low, c) =
      (d, e, es, found, page, le_trans lo lo' e.key l low, c)

-- Whatever is below the first end is below the second.
abbrev pub IsWider : Option Bytes → Option Bytes → Type 0
IsWider hi hi' = (k : Bytes) → below_end hi k ≡ true → below_end hi' k ≡ true

InRange-widen :
    (lo : Bytes) (hi hi' : Option Bytes) (ks : List Bytes)
    → IsWider hi hi'
    → InRange lo hi ks
    → InRange lo hi' ks
InRange-widen lo hi hi' ks w (l, b, a, t) =
    (l, All-map (λ k. below_end hi k ≡ true) (λ k. below_end hi' k ≡ true) w ks b, a, t)

Chain-widen :
    (P : Holds)
    → ((lo : Bytes) (hi hi' : Option Bytes) (u : Bytes) (ks : List Bytes)
        → IsWider hi hi'
        → P lo hi u ks
        → P lo hi' u ks)
    → (hi hi' : Option Bytes) (es : List IndexEntry) (ks : List Bytes) → IsWider hi hi'
    → Chain P hi es ks
    → Chain P hi' es ks
unfolding child_end
Chain-widen P f hi hi' [] ks w c = c
Chain-widen P f hi hi' (e ∷ []) ks w (k1, k2, b, t, p, c, same) =
    (k1, k2, w e.key b, t, f e.key hi hi' e.uuid k1 w p, c, same)
Chain-widen P f hi hi' (e ∷ e' ∷ es) ks w (k1, k2, b, t, p, c, same) =
    (k1, k2, b, t, p, Chain-widen P f hi hi' (e' ∷ es) k2 w c, same)

Node-widen :
    (B : Backend) (h : ℕ) (s : B.State) (lo : Bytes) (hi hi' : Option Bytes) (u : Bytes)
    (ks : List Bytes)
    → IsWider hi hi'
    → Node B h s lo hi u ks
    → Node B h s lo hi' u ks
Node-widen B zero s lo hi hi' u ks w (d, found, page, range) =
    (d, found, page, InRange-widen lo hi hi' ks w range)
Node-widen B (suc h) s lo hi hi' u ks w (d, e, es, found, page, low, c) =
    (d, e, es, found, page, low, Chain-widen (Node B h s) (Node-widen B h s) hi hi' (e ∷ es) ks w c)

-- Two levels, one behind the other.
pub IsLevel-append :
    (B : Backend) (h : ℕ) (s : B.State) (lo b : Bytes) (hi : Option Bytes)
    (es es' : List IndexEntry) (ks ks' : List Bytes)
    → IsLevel B h s lo (some b) es ks
    → IsLevel B h s b hi es' ks'
    → IsLevel B h s lo hi (es ++ es') (ks ++ ks')
unfolding child_end
IsLevel-append B h s lo b hi [] es' ks ks' (l, c) level = absurd l
IsLevel-append B h s lo b hi (e ∷ es) [] ks ks' (l, c) (l', c') = absurd l'
IsLevel-append B h s lo b hi (e ∷ es) (e' ∷ es') ks ks' (l, c) (l', c') =
    let wider : IsWider (some b) (some e'.key) = λ k x.
      rw (below_end-some e'.key k)
        (lt_of_lt_of_le k b e'.key (rw (sym (below_end-some b k)) x) l') in
    (
      l,
      Chain-append (Node B h s) hi (e ∷ es) (e' ∷ es') ks ks'
          (Chain-widen (Node B h s) (Node-widen B h s) (some b) (some e'.key) (e ∷ es) ks wider c)
          c',
    )
