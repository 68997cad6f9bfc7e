-- ===== src/Pagestore/Store/Levels/Root.antt =====
-- `writeIndexLevel` and `buildIndexTree` (go/internal/pagestore/store.go): one index page over a
-- level, or level over level until one page holds the last.
use eavt_sql.Prelude.{
  ℕ, zero, suc, ◌+◌, ◌≤◌, ◌<◌, ◌≡◌, ◌≢◌, refl, sym, false, Option, none, List, [], ◌∷◌, append-nil,
  arith, leb, ◌==◌, ◌%◌, length, Bool-cases, inl, inr,
}
use eavt_sql.Bytes.Order.{Bytes}
use eavt_sql.Pagestore.Outcome.{Outcome, ok}
use eavt_sql.Pagestore.Page.{IndexEntry, serialize_index_page}
use eavt_sql.Pagestore.Page.Build.{IsPart, split_index_entries}
use eavt_sql.Pagestore.Range.{lt_irrefl}
use eavt_sql.Pagestore.Store.{Backend, IsLawful, Keeps, nil_uuid, blob_put, IsBlobPut-lawful}
use eavt_sql.Pagestore.Store.Write.{
  child_end, fits_index, first_key, put_single_page, write_index_level, build_levels,
  build_index_tree,
}
use eavt_sql.Pagestore.Store.Chain.{IsTreeEntry, Node, IsLevel, Chain-entries, Chain-first}
use eavt_sql.Pagestore.Store.Nodes.{Chain-Keeps, Keeps-trans}
use eavt_sql.Pagestore.Store.Levels.Index.{index-IsLevel}
use eavt_sql.Pagestore.Store.Levels.Sizes.{
  page_read, one_entry_fits, split_index_entries_shrinks, split_index_entries-single,
}

module _ (B : Backend) (L : IsLawful B) where
  -- One index page over a level.
  index_page :
      (h : ℕ) (s : B.State) (lo : Bytes) (hi : Option Bytes) (e : IndexEntry) (es : List IndexEntry)
      (ks : List Bytes)
      → IsLevel B h s lo hi (e ∷ es) ks
      → IsPart fits_index IsTreeEntry (e ∷ es)
      → (u : Bytes) × (t : B.State) × (blob_put B (serialize_index_page (e ∷ es)) s ≡ ok (u, t))
        × Keeps B s t
        × Node B (suc h) t lo hi u ks
        × (length u ≡ 16)
        × (u ≢ nil_uuid)
        × Node B (suc h) t e.key hi u ks
  index_page h s lo hi e es ks (l, c) part =
      let put = IsBlobPut-lawful B L (serialize_index_page (e ∷ es)) s in
      let kept = Chain-Keeps B h s put.after put.kept hi (e ∷ es) ks c in
      let page = serialize_index_page (e ∷ es) in
      (
        put.uuid,
        put.after,
        put.accepted,
        put.kept,
        (page, e, es, put.found, page_read (e ∷ es) part, l, kept),
        put.long,
        put.fresh,
        (page, e, es, put.found, page_read (e ∷ es) part, lt_irrefl e.key, kept),
      )

  single_page :
      (h : ℕ) (s : B.State) (lo : Bytes) (hi : Option Bytes) (e : IndexEntry) (es : List IndexEntry)
      (ks : List Bytes)
      → IsLevel B h s lo hi (e ∷ es) ks
      → IsPart fits_index IsTreeEntry (e ∷ es)
      → (next : List IndexEntry) × (t : B.State) × (put_single_page B (e ∷ es) s ≡ ok (next, t))
        × Keeps B s t
        × IsLevel B (suc h) t lo hi next ks
  unfolding put_single_page first_key
  single_page h s lo hi e es ks (l, c) part =
      let (u, t, accepted, kept, low, long, fresh, node) =
        index_page h s lo hi e es ks (l, c) part in
      let key = Chain-entries (Node B h s) hi (e ∷ es) ks c in
      (
        record { key = e.key; uuid = u } ∷ [],
        t,
        rw accepted refl,
        kept,
        (
          l,
          (
            ks,
            [],
            unfold child_end in Chain-first (Node B h s) hi e es ks c,
            (key.0.0, long, fresh),
            unfold child_end in node,
            refl,
            sym (append-nil ks),
          ),
        ),
      )

  pub written-IsLevel :
      (h : ℕ) (s : B.State) (lo : Bytes) (hi : Option Bytes) (es : List IndexEntry)
      (ks : List Bytes)
      → IsLevel B h s lo hi es ks
      → (next : List IndexEntry) × (t : B.State) × (write_index_level B es s ≡ ok (next, t))
        × Keeps B s t
        × IsLevel B (suc h) t lo hi next ks
  unfolding write_index_level
  written-IsLevel h s lo hi [] ks (l, c) = absurd l
  written-IsLevel h s lo hi (e ∷ es) ks (l, c) =
      let entries = Chain-entries (Node B h s) hi (e ∷ es) ks c in
      elim (Bool-cases (fits_index (e ∷ es))) [
        | inl f ↦ rw (f, write_index_level) (single_page h s lo hi e es ks (l, c) (inl f, entries))
        | inr f ↦ elim (Bool-cases (leb (length (e ∷ es)) 1)) [
          | inl g ↦
              rw (f, g, write_index_level)
                (single_page h s lo hi e es ks (l, c) (inr (ground arith), entries))
          | inr g ↦
              let (next, t, accepted, kept, level, n) =
                index-IsLevel B L h lo hi (e ∷ es) ks s (l, c) in
              rw (f, g, write_index_level) (next, t, accepted, kept, level)
        ]
      ]

  -- A tree over a level: its root, its true height, and the blobs afterwards.
  abbrev pub IsBuilt : ℕ → B.State → Outcome ((Bytes × ℕ) × B.State) → List Bytes → Type 0
  IsBuilt from s o ks =
      (root : Bytes) × (height : ℕ) × (t : B.State) × (o ≡ ok ((root, height % 256), t))
      × Keeps B s t
      × (root ≢ nil_uuid)
      × (from < height)
      × Node B height t [] none root ks

  pub IsBuilt-build_levels :
      (n h : ℕ) (s : B.State) (es : List IndexEntry) (ks : List Bytes)
      → length es ≤ n
      → IsLevel B h s [] none es ks
      → IsBuilt h s (build_levels n B es (suc h % 256) s) ks
  unfolding build_levels
  IsBuilt-build_levels n h s [] ks le (l, c) = absurd l
  IsBuilt-build_levels zero h s (e ∷ es) ks le (l, c) = absurd (omega (arith, le))
  IsBuilt-build_levels (suc n) h s (e ∷ []) ks le (l, c) =
      let entries = Chain-entries (Node B h s) none (e ∷ []) ks c in
      let f = one_entry_fits e entries.0 in
      let (u, t, accepted, kept, node, long, fresh, own) =
        index_page h s [] none e [] ks (l, c) (inl f, entries) in
      rw (f, build_levels) (u, suc h, t, rw accepted refl, kept, fresh, omega arith, node)
  IsBuilt-build_levels (suc n) h s (e ∷ e' ∷ es) ks le (l, c) =
      let all = e ∷ e' ∷ es in
      let entries = Chain-entries (Node B h s) none all ks c in
      elim (Bool-cases (fits_index all)) [
        | inl f ↦
            let (u, t, accepted, kept, node, long, fresh, own) =
              index_page h s [] none e (e' ∷ es) ks (l, c) (inl f, entries) in
            rw (f, build_levels) (u, suc h, t, rw accepted refl, kept, fresh, omega arith, node)
        | inr f ↦
            let fewer = split_index_entries_shrinks all entries (omega arith) in
            let (next, t, accepted, kept, level, n') =
              index-IsLevel B L h [] none all ks s (l, c) in
            let (root, height, t', built, kept', fresh, above, node) =
              IsBuilt-build_levels n (suc h) t next ks (omega (arith, n', fewer, le)) level in
            let differ : (length (split_index_entries all) == length all) ≡ false =
              ground (arith, fewer) in
            let height_same : (suc h % 256 + 1) % 256 ≡ suc (suc h) % 256 = omega arith in
            rw (f, differ, build_levels)
              (
                root,
                height,
                t',
                rw (accepted, height_same, built) refl,
                Keeps-trans B s t t' kept kept',
                fresh,
                omega (arith, above),
                node,
              )
      ]

  -- Over a backend that accepts every write, building index pages over a level of a tree ends with
  -- one root page of a greater height, of which the last eight bits are returned, and the tree
  -- holds the keys of the level.
  pub IsBuilt-build_index_tree :
      (h : ℕ) (s : B.State) (es : List IndexEntry) (ks : List Bytes)
      → IsLevel B h s [] none es ks
      → IsBuilt h s (build_index_tree B es (h % 256) s) ks
  unfolding build_index_tree
  IsBuilt-build_index_tree h s [] ks (l, c) = absurd l
  IsBuilt-build_index_tree h s (e ∷ es) ks (l, c) =
      let all = e ∷ es in
      let entries = Chain-entries (Node B h s) none all ks c in
      elim (Bool-cases (fits_index all)) [
        | inl f ↦
            let (u, t, accepted, kept, node, long, fresh, own) =
              index_page h s [] none e es ks (l, c) (inl f, entries) in
            let height_same : (h % 256 + 1) % 256 ≡ suc h % 256 = omega arith in
            rw (f, build_index_tree)
              (u, suc h, t, rw (accepted, height_same) refl, kept, fresh, omega arith, node)
        | inr f ↦
            let single = split_index_entries-single all entries f in
            let (level, t, accepted, kept, below, n) =
              index-IsLevel B L h [] none all ks s (l, c) in
            let (root, height, t', built, kept', fresh, above, node) =
              IsBuilt-build_levels (length level) (suc h) t level ks (omega arith) below in
            let height_same : (h % 256 + 2) % 256 ≡ suc (suc h) % 256 = omega arith in
            rw (f, single, build_index_tree)
              (
                root,
                height,
                t',
                rw (accepted, height_same, built) refl,
                Keeps-trans B s t t' kept kept',
                fresh,
                omega (arith, above),
                node,
              )
      ]
