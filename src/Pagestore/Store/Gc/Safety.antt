-- ===== src/Pagestore/Store/Gc/Safety.antt =====
-- `GcFull` (go/internal/pagestore/gc.go) deletes nothing that a kept root needs.
use eavt_sql.Prelude.{
  ℕ, ◌+◌, ◌≡◌, ◌≢◌, refl, subst, ◌∙◌, Bool, true, false, Option, none, some, List, [], ◌∷◌, All,
  arith, Bool-cases, Option-cases, inl, inr,
}
use eavt_sql.Bytes.Order.{Bytes}
use eavt_sql.Pagestore.Outcome.{ok}
use eavt_sql.Pagestore.Root.{CfTree, deserialize_root}
use eavt_sql.Pagestore.Store.{Backend, IsDeleting, blob_get, blob_get_root, blob_get_same}
use eavt_sql.Pagestore.Store.Gc.{
  GcReport, report, is_live, classify_roots, collect_roots, delete_roots, delete_blobs, sweep,
  gc_roots, gc_full,
}
use eavt_sql.Pagestore.Store.Gc.Live.{KeepsLive, Covers, KeepsLive-IsIn, AreKeyTrees, trees_covered}

-- The trees of a root and their keys.
abbrev pub RootContent : Type 0
RootContent = List CfTree × List (List Bytes)

module _ (B : Backend) where
  abbrev pub AreHeld : B.State → List RootContent → Type 0
  AreHeld t = All (λ (c : RootContent). AreKeyTrees B t c.0 c.1)

  -- Each root is read, and its trees hold their keys.
  abbrev pub AreReadable : B.State → List Bytes → List RootContent → Type 0
  AreReadable s [] [] = Unit
  AreReadable s [] (c ∷ cs) = ⊥
  AreReadable s (name ∷ names) [] = ⊥
  AreReadable s (name ∷ names) (c ∷ cs) =
      ((d : Bytes) × (blob_get_root B name s ≡ ok (some d))
        × (deserialize_root d ≡ ok c.0)
        × AreKeyTrees B s c.0 c.1)
      × AreReadable s names cs

  roots_covered :
      (s : B.State) (names : List Bytes) (cs : List RootContent) (live : List Bytes)
      → AreReadable s names cs
      → Covers B s (λ t. AreHeld t cs) live (collect_roots B s names live)
  unfolding collect_roots
  roots_covered s [] [] live a = (live, refl, (λ u l. l), λ t k. tt)
  roots_covered s [] (c ∷ cs) live a = absurd a
  roots_covered s (name ∷ names) [] live a = absurd a
  roots_covered s (name ∷ names) (c ∷ cs) live ((d, found, root, held), a) =
      let (live1, did1, inside1, covered1) = trees_covered B s c.0 c.1 live held in
      let (live', did, inside, covered) = roots_covered s names cs live1 a in
      (
        live',
        rw (found, root, did1) did,
        (λ u l. inside u (inside1 u l)),
        λ t k. (covered1 t (KeepsLive-IsIn B s live1 live' t inside k), covered t k),
      )

  module _ (D : IsDeleting B) where
    blob_get-delete_roots :
        (u : Bytes) (names : List Bytes) (s : B.State)
        → blob_get B u (delete_roots B names s) ≡ blob_get B u s
    unfolding delete_roots blob_get
    blob_get-delete_roots u [] s = refl
    blob_get-delete_roots u (name ∷ names) s =
        blob_get-delete_roots u names (B.delete_root name s)
        ∙ blob_get_same B u (B.delete_root name s) s (D.blobs name u s)

    deleted_not_live :
        (u v : Bytes) (live : List Bytes) → is_live u live ≡ false → is_live v live ≡ true → v ≢ u
    deleted_not_live u v live h k e = ground (arith, h, subst (λ x. is_live x live ≡ true) e k)

    delete_blobs-KeepsLive :
        (live us : List Bytes) (n : ℕ) (s : B.State)
        → KeepsLive B live s (delete_blobs B live us n s).1
    unfolding delete_blobs
    delete_blobs-KeepsLive live [] n s = λ v x l found. found
    delete_blobs-KeepsLive live (u ∷ us) n s = elim (Bool-cases (is_live u live)) [
      | inl e ↦ rw (e, delete_blobs) (delete_blobs-KeepsLive live us n s)
      | inr e ↦ elim (Option-cases (B.delete u s)) [
        | inl f ↦ rw (e, f, delete_blobs) (delete_blobs-KeepsLive live us n s)
        | inr (t, f) ↦
            rw (e, f, delete_blobs)
              (λ v x l found. delete_blobs-KeepsLive live us (n + 1) t v x l (
                blob_get_same B v t s (D.others u v s t f (deleted_not_live u v live e l)) ∙ found))
      ]
    ]

    sweep-KeepsLive :
        (dry_run : Bool) (roots remove live : List Bytes) (s : B.State)
        → ((t : B.State) → (all : List Bytes) × (B.list t ≡ ok all))
        → (report : Option GcReport) × (t : B.State) × (sweep B dry_run roots remove live s
            ≡ ok (report, t))
          × KeepsLive B live s t
    unfolding sweep
    sweep-KeepsLive true roots remove live s lists =
        let (all, listed) = lists s in
        (some (report roots remove all 0 live true), s, rw listed refl, λ v x l found. found)
    sweep-KeepsLive false roots remove live s lists =
        let left = delete_roots B remove s in
        let (all, listed) = lists left in
        let swept = delete_blobs B live all 0 left in
        (
          some (report roots remove all swept.0 live false),
          swept.1,
          rw listed refl,
          λ v x l found.
              delete_blobs-KeepsLive live all 0 left v x l
                (blob_get-delete_roots v remove s ∙ found),
        )

    -- Over a backend whose deletions leave the other blobs, when the roots and the blobs can be
    -- listed and every root that is kept is read, with trees that hold their keys, a collection of
    -- a writable store succeeds, and each of those trees then holds the same keys.
    pub gc_full-AreHeld :
        (max_age_secs max_count : ℕ) (dry_run : Bool) (s : B.State) (roots : List Bytes)
        (cs : List RootContent)
        → B.list_roots s ≡ ok roots
        → AreReadable s (classify_roots roots max_age_secs max_count).0 cs
        → ((t : B.State) → (all : List Bytes) × (B.list t ≡ ok all))
        → (report : Option GcReport) × (t : B.State) × (gc_full B false max_age_secs max_count
              dry_run s
            ≡ ok (report, t))
          × AreHeld t cs
    unfolding gc_full gc_roots classify_roots
    gc_full-AreHeld max_age_secs max_count dry_run s [] [] listed a lists =
        (none, s, rw listed refl, tt)
    gc_full-AreHeld max_age_secs max_count dry_run s [] (c ∷ cs) listed a lists = absurd a
    gc_full-AreHeld max_age_secs max_count dry_run s (r ∷ rs) cs listed a lists =
        let split = classify_roots (r ∷ rs) max_age_secs max_count in
        let (live, did, inside, covered) = roots_covered s split.0 cs [] a in
        let (found, t, swept, kept) = sweep-KeepsLive dry_run (r ∷ rs) split.1 live s lists in
        (found, t, rw (listed, did) swept, covered t kept)
