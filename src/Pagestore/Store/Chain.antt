-- ===== src/Pagestore/Store/Chain.antt =====
-- What the pages of a tree hold (go/internal/pagestore/store.go): a leaf holds its keys, and an
-- index page the keys of its children, each in the range from its entry's key to the next one's.
use eavt_sql.Prelude.{
  ℕ, zero, suc, ◌^◌, ◌≤◌, ◌≡◌, ◌≢◌, refl, sym, ap, subst, ◌∙◌, true, false, Option, some, List, [],
  ◌∷◌, ◌++◌, append-nil, append_assoc, length, All, All-append,
}
use eavt_sql.Bytes.Order.{Bytes}
use eavt_sql.Pagestore.Outcome.{ok}
use eavt_sql.Pagestore.Page.{IndexEntry, deserialize_page, deserialize_index_page}
use eavt_sql.Pagestore.Root.Prefix.{below_end}
use eavt_sql.Pagestore.Range.{
  lt, below_end-some, below_end_trans, lt_of_lt_of_le, lt_asymm, AllAtLeast, AllBelow, IsAscending,
  AllAtLeast-trans, AllBelow-trans,
}
use eavt_sql.Pagestore.Store.{Backend, blob_get, nil_uuid}
use eavt_sql.Pagestore.Store.Write.{child_end}

-- Between nine bytes and 128 KiB: then a page holds fewer than 65536 keys, and two entries fit in
-- an index page.
abbrev pub IsTreeKey : Bytes → Type 0
IsTreeKey k = (9 ≤ length k) × (length k ≤ 2 ^ 17)

abbrev pub IsTreeEntry : IndexEntry → Type 0
IsTreeEntry e = (length e.key ≤ 2 ^ 17) × (length e.uuid ≡ 16) × (e.uuid ≢ nil_uuid)

abbrev pub InRange : Bytes → Option Bytes → List Bytes → Type 0
InRange lo hi ks = AllAtLeast lo ks × AllBelow hi ks × IsAscending ks × All IsTreeKey ks

-- What a page holds, in a range: the range's start, its end, the page's identifier, the keys.
abbrev pub Holds : Type 1
Holds = Bytes → Option Bytes → Bytes → List Bytes → Type 0

abbrev pub Chain : Holds → Option Bytes → List IndexEntry → List Bytes → Type 0
Chain P hi [] ks = ks ≡ []
Chain P hi (e ∷ es) ks =
    (k1 : List Bytes) × (k2 : List Bytes) × (below_end (child_end es hi) e.key ≡ true)
    × IsTreeEntry e
    × P e.key (child_end es hi) e.uuid k1
    × Chain P hi es k2
    × (ks ≡ k1 ++ k2)

abbrev pub Node : (B : Backend) → ℕ → B.State → Holds
Node B zero s lo hi u ks =
    (d : Bytes) × (blob_get B u s ≡ ok (some d)) × (deserialize_page d ≡ ok ks) × InRange lo hi ks
Node B (suc h) s lo hi u ks =
    (d : Bytes) × (e : IndexEntry) × (es : List IndexEntry) × (blob_get B u s ≡ ok (some d))
    × (deserialize_index_page d ≡ ok (e ∷ es))
    × (lt e.key lo ≡ false)
    × Chain (Node B h s) hi (e ∷ es) ks

-- A level of a tree, from its first boundary on.
abbrev pub StartsAt : Bytes → List IndexEntry → Type 0
StartsAt lo [] = ⊥
StartsAt lo (e ∷ es) = lt e.key lo ≡ false

abbrev pub IsLevel :
    (B : Backend) → ℕ → B.State → Bytes → Option Bytes → List IndexEntry → List Bytes → Type 0
IsLevel B h s lo hi es ks = StartsAt lo es × Chain (Node B h s) hi es ks

pub child_end-append :
    (es es' : List IndexEntry) (hi : Option Bytes)
    → child_end (es ++ es') hi ≡ child_end es (child_end es' hi)
unfolding child_end
child_end-append [] es' hi = refl
child_end-append (e ∷ es) es' hi = refl

module _ (P : Holds) where
  pub Chain-append :
      (hi : Option Bytes) (es es' : List IndexEntry) (ks ks' : List Bytes)
      → Chain P (child_end es' hi) es ks
      → Chain P hi es' ks'
      → Chain P hi (es ++ es') (ks ++ ks')
  Chain-append hi [] es' ks ks' c c' = subst (λ l. Chain P hi es' (l ++ ks')) (sym c) c'
  Chain-append hi (e ∷ es) es' ks ks' (k1, k2, b, t, p, c, same) c' =
      let stop = sym (child_end-append es es' hi) in
      (
        k1,
        k2 ++ ks',
        subst (λ o. below_end o e.key ≡ true) stop b,
        t,
        subst (λ o. P e.key o e.uuid k1) stop p,
        Chain-append hi es es' k2 ks' c c',
        ap (λ l. l ++ ks') same ∙ append_assoc k1 k2 ks',
      )

  pub Chain-split :
      (hi : Option Bytes) (es es' : List IndexEntry) (ks : List Bytes)
      → Chain P hi (es ++ es') ks
      → (k1 : List Bytes) × (k2 : List Bytes) × Chain P (child_end es' hi) es k1
        × Chain P hi es' k2
        × (ks ≡ k1 ++ k2)
  Chain-split hi [] es' ks c = ([], ks, refl, c, refl)
  Chain-split hi (e ∷ es) es' ks (k1, k2, b, t, p, c, same) =
      let (j1, j2, c1, c2, same') = Chain-split hi es es' k2 c in
      let stop = child_end-append es es' hi in
      (
        k1 ++ j1,
        j2,
        (
          k1,
          j1,
          subst (λ o. below_end o e.key ≡ true) stop b,
          t,
          subst (λ o. P e.key o e.uuid k1) stop p,
          c1,
          refl,
        ),
        c2,
        same ∙ ap (λ l. k1 ++ l) same' ∙ sym (append_assoc k1 j1 j2),
      )

  pub Chain-map :
      (Q : Holds)
      → ((lo : Bytes) (hi : Option Bytes) (u : Bytes) (ks : List Bytes)
          → P lo hi u ks
          → Q lo hi u ks)
      → (hi : Option Bytes) (es : List IndexEntry) (ks : List Bytes) → Chain P hi es ks
      → Chain Q hi es ks
  Chain-map Q f hi [] ks c = c
  Chain-map Q f hi (e ∷ es) ks (k1, k2, b, t, p, c, same) =
      (k1, k2, b, t, f e.key (child_end es hi) e.uuid k1 p, Chain-map Q f hi es k2 c, same)

  pub Chain-entries :
      (hi : Option Bytes) (es : List IndexEntry) (ks : List Bytes)
      → Chain P hi es ks
      → All IsTreeEntry es
  Chain-entries hi [] ks c = tt
  Chain-entries hi (e ∷ es) ks (k1, k2, b, t, p, c, same) = (t, Chain-entries hi es k2 c)

  -- The first boundary is below the end of the whole range.
  pub Chain-first :
      (hi : Option Bytes) (e : IndexEntry) (es : List IndexEntry) (ks : List Bytes)
      → Chain P hi (e ∷ es) ks
      → below_end hi e.key ≡ true
  unfolding child_end
  Chain-first hi e [] ks (k1, k2, b, t, p, c, same) = b
  Chain-first hi e (e' ∷ es) ks (k1, k2, b, t, p, c, same) =
      below_end_trans hi e'.key e.key (Chain-first hi e' es k2 c)
        (rw (sym (below_end-some e'.key e.key)) b)

pub IsAscending-append :
    (b : Bytes) (xs ys : List Bytes)
    → AllBelow (some b) xs
    → AllAtLeast b ys
    → IsAscending xs
    → IsAscending ys
    → IsAscending (xs ++ ys)
IsAscending-append b [] ys h k a c = c
IsAscending-append b (x ∷ xs) ys h k a c = (
  All-append (λ j. lt x j ≡ true) xs ys a.0
      (all_after b x ys (rw (sym (below_end-some b x)) h.0) k),
  IsAscending-append b xs ys h.1 k a.1 c,
)
  where
    all_after :
        (b x : Bytes) (ys : List Bytes)
        → lt x b ≡ true
        → AllAtLeast b ys
        → All (λ j. lt x j ≡ true) ys
    all_after b x [] h a = tt
    all_after b x (y ∷ ys) h a = (lt_of_lt_of_le x b y h a.0, all_after b x ys h a.1)

-- Keys up to a bound, and keys from it on.
pub InRange-append :
    (lo : Bytes) (b : Bytes) (hi : Option Bytes) (xs ys : List Bytes)
    → lt b lo ≡ false
    → below_end hi b ≡ true
    → InRange lo (some b) xs
    → InRange b hi ys
    → InRange lo hi (xs ++ ys)
InRange-append lo b hi xs ys h k (l, r, a, t) (l', r', a', t') = (
  All-append (λ j. lt j lo ≡ false) xs ys l (AllAtLeast-trans lo b ys h l'),
  All-append (λ j. below_end hi j ≡ true) xs ys (AllBelow-trans hi b xs k r) r',
  IsAscending-append b xs ys r l' a a',
  All-append IsTreeKey xs ys t t',
)

pub InRange-weaken :
    (lo lo' : Bytes) (hi : Option Bytes) (ks : List Bytes)
    → lt lo' lo ≡ false
    → InRange lo' hi ks
    → InRange lo hi ks
InRange-weaken lo lo' hi ks h (l, r, a, t) = (AllAtLeast-trans lo lo' ks h l, r, a, t)

module _ (P : Holds)
    (range : (lo : Bytes) (hi : Option Bytes) (u : Bytes) (ks : List Bytes)
      → P lo hi u ks
      → InRange lo hi ks) where
  pub Chain-InRange :
      (hi : Option Bytes) (e : IndexEntry) (es : List IndexEntry) (ks : List Bytes)
      → Chain P hi (e ∷ es) ks
      → InRange e.key hi ks
  unfolding child_end
  Chain-InRange hi e [] ks (k1, k2, b, t, p, c, same) =
      let whole : k1 ≡ ks = sym (append-nil k1) ∙ ap (λ l. k1 ++ l) (sym c) ∙ sym same in
      subst (InRange e.key hi) whole (range e.key hi e.uuid k1 p)
  Chain-InRange hi e (e' ∷ es) ks (k1, k2, b, t, p, c, same) =
      let up : lt e'.key e.key ≡ false =
        lt_asymm e.key e'.key (rw (sym (below_end-some e'.key e.key)) b) in
      subst (InRange e.key hi) (sym same) (
        InRange-append e.key e'.key hi k1 k2 up (Chain-first P hi e' es k2 c)
          (range e.key (some e'.key) e.uuid k1 p) (Chain-InRange hi e' es k2 c))
