-- ===== src/Pagestore/Store/Levels/Leaf.antt =====
-- `BuildPages` and `putPageList` (go/internal/pagestore/store.go) write a level of leaves.
use eavt_sql.Prelude.{
  ◌≤◌, ◌≡◌, refl, sym, ap, append-nil, subst, true, false, Option, some, List, [], ◌∷◌, ◌++◌, arith,
  length, All, All-map, All-split,
}
use eavt_sql.Bytes.Order.{Bytes}
use eavt_sql.Pagestore.Outcome.{ok}
use eavt_sql.Pagestore.Page.{IndexEntry, serialize_page}
use eavt_sql.Pagestore.Page.Build.{
  split_list, map_list, leaf_page, build_pages, concat, concat-split_list, IsPart,
  split_list-IsPart, split_list-parts,
}
use eavt_sql.Pagestore.Page.Leaves.{IsLeafKey, fits_leaf, part-read, leaf_page-bytes}
use eavt_sql.Pagestore.Range.{lt, AllAtLeast-ascending, below_end-some, lt_irrefl}
use eavt_sql.Pagestore.Store.{Backend, IsLawful, Keeps}
use eavt_sql.Pagestore.Store.Write.{child_end, page_bytes, check_pages, zip_entries, put_page_list}
use eavt_sql.Pagestore.Store.Chain.{IsTreeKey, InRange, Chain, Node, StartsAt, IsLevel}
use eavt_sql.Pagestore.Store.Levels.Pages.{Stored, blob_put_pages-IsPagesPut}

abbrev IsLeaf : List Bytes → Type 0
IsLeaf l = IsPart fits_leaf IsLeafKey l × (1 ≤ length l)

IsLeafKey-tree : (k : Bytes) → IsTreeKey k → IsLeafKey k
IsLeafKey-tree k (a, b) = (a, omega (arith, b))

-- The first key of the rest ends the range of the part before it.
InRange-front :
    (lo : Bytes) (hi : Option Bytes) (xs : List Bytes) (y : Bytes) (ys : List Bytes)
    → InRange lo hi (xs ++ y ∷ ys)
    → InRange lo (some y) xs
InRange-front lo hi [] y ys r = (tt, tt, tt, tt)
InRange-front lo hi (x ∷ xs) y ys (l, b, a, t) =
    let (l', b', a', t') = InRange-front lo hi xs y ys (l.1, b.1, a.1, t.1) in
    let (before, after) = All-split (λ j. lt x j ≡ true) xs (y ∷ ys) a.0 in
    ((l.0, l'), (rw (below_end-some y x) after.0, b'), (before, a'), (t.0, t'))

InRange-back :
    (lo : Bytes) (hi : Option Bytes) (xs ys : List Bytes)
    → InRange lo hi (xs ++ ys)
    → InRange lo hi ys
InRange-back lo hi [] ys r = r
InRange-back lo hi (x ∷ xs) ys (l, b, a, t) = InRange-back lo hi xs ys (l.1, b.1, a.1, t.1)

InRange-self :
    (lo : Bytes) (hi : Option Bytes) (x : Bytes) (xs : List Bytes)
    → InRange lo hi (x ∷ xs)
    → InRange x hi (x ∷ xs)
InRange-self lo hi x xs (l, b, a, t) = ((lt_irrefl x, AllAtLeast-ascending x xs a.0), b, a, t)

parts-IsLeaf :
    (parts : List (List Bytes))
    → All (IsPart fits_leaf IsLeafKey) parts
    → All (λ l. 1 ≤ length l) parts
    → All IsLeaf parts
parts-IsLeaf [] a b = tt
parts-IsLeaf (p ∷ ps) a b = ((a.0, b.0), parts-IsLeaf ps a.1 b.1)

check_leaf_pages :
    (parts : List (List Bytes))
    → All IsLeaf parts
    → check_pages false (map_list leaf_page parts) ≡ ok tt
unfolding check_pages map_list
check_leaf_pages [] a = refl
check_leaf_pages (p ∷ ps) a = rw (leaf_page-bytes p, part-read p a.0.0) (check_leaf_pages ps a.1)

module _ (B : Backend) (L : IsLawful B) where
  leaf-Chain :
      (s : B.State) (lo : Bytes) (hi : Option Bytes) (parts : List (List Bytes)) (us : List Bytes)
      → All IsLeaf parts
      → InRange lo hi (concat parts)
      → Stored B s (map_list page_bytes (map_list leaf_page parts)) us
      → Chain (Node B 0 s) hi (zip_entries (map_list leaf_page parts) us) (concat parts)
  unfolding concat map_list leaf_page zip_entries child_end
  leaf-Chain s lo hi [] [] a r st = refl
  leaf-Chain s lo hi (p ∷ ps) [] a r st = absurd st
  leaf-Chain s lo hi [] (u ∷ us) a r st = absurd st
  leaf-Chain s lo hi ([] ∷ ps) (u ∷ us) a r st = absurd (omega (arith, a.0.1))
  leaf-Chain s lo hi ((k ∷ ks) ∷ []) (u ∷ []) a r (found, long, fresh, st) =
      let whole = ap (λ l. k ∷ l) (append-nil ks) in
      let own = InRange-self lo hi k ks (subst (InRange lo hi) whole r) in
      let (l, b, asc, t) = own in
      (
        k ∷ ks,
        [],
        b.0,
        (t.0.1, long, fresh),
        (serialize_page (k ∷ ks), found, part-read (k ∷ ks) a.0.0, own),
        refl,
        refl,
      )
  leaf-Chain s lo hi ((k ∷ ks) ∷ []) (u ∷ v ∷ us) a r (found, long, fresh, st) = absurd st
  leaf-Chain s lo hi ((k ∷ ks) ∷ p ∷ ps) (u ∷ []) a r (found, long, fresh, st) = absurd st
  leaf-Chain s lo hi ((k ∷ ks) ∷ [] ∷ ps) (u ∷ v ∷ us) a r (found, long, fresh, st) =
      absurd (omega (arith, a.1.0.1))
  leaf-Chain s lo hi ((k ∷ ks) ∷ (j ∷ js) ∷ ps) (u ∷ v ∷ us) a r (found, long, fresh, st) =
      let front =
        InRange-front k hi (k ∷ ks) j (js ++ concat ps)
          (InRange-self lo hi k (ks ++ (j ∷ (js ++ concat ps))) r) in
      let (l, b, asc, t) = front in
      let back = InRange-back lo hi (k ∷ ks) (j ∷ js ++ concat ps) r in
      (
        k ∷ ks,
        concat ((j ∷ js) ∷ ps),
        b.0,
        (t.0.1, long, fresh),
        (serialize_page (k ∷ ks), found, part-read (k ∷ ks) a.0.0, front),
        leaf-Chain s lo hi ((j ∷ js) ∷ ps) (v ∷ us) a.1 back st,
        refl,
      )

  leaf_start :
      (s : B.State) (lo : Bytes) (hi : Option Bytes) (parts : List (List Bytes)) (us : List Bytes)
      → All IsLeaf parts
      → InRange lo hi (concat parts)
      → 1 ≤ length (concat parts)
      → Stored B s (map_list page_bytes (map_list leaf_page parts)) us
      → StartsAt lo (zip_entries (map_list leaf_page parts) us)
  unfolding concat map_list leaf_page zip_entries
  leaf_start s lo hi [] us a r n st = absurd (omega (arith, n))
  leaf_start s lo hi ([] ∷ ps) us a r n st = absurd (omega (arith, a.0.1))
  leaf_start s lo hi ((k ∷ ks) ∷ ps) [] a r n st = absurd st
  leaf_start s lo hi ((k ∷ ks) ∷ ps) (u ∷ us) a r n st = r.0.0

  -- A level of leaves that was written: its entries, the blobs afterwards.
  pub leaf-IsLevel :
      (lo : Bytes) (hi : Option Bytes) (k : Bytes) (ks : List Bytes) (s : B.State)
      → InRange lo hi (k ∷ ks)
      → (es : List IndexEntry) × (t : B.State) × (put_page_list B (build_pages (k ∷ ks)) false s
          ≡ ok (es, t))
        × Keeps B s t
        × IsLevel B 0 t lo hi es (k ∷ ks)
  unfolding put_page_list build_pages
  leaf-IsLevel lo hi k ks s r =
      let keys = k ∷ ks in
      let parts = split_list fits_leaf (length keys) keys in
      let whole : concat parts ≡ keys =
        concat-split_list fits_leaf (length keys) keys (omega arith) in
      let good =
        parts-IsLeaf parts
          (split_list-IsPart fits_leaf IsLeafKey (length keys) keys
            (All-map IsTreeKey IsLeafKey IsLeafKey-tree keys r.3))
          (split_list-parts fits_leaf (length keys) keys (omega arith)) in
      let put = blob_put_pages-IsPagesPut B L (map_list page_bytes (map_list leaf_page parts)) s in
      let c =
        leaf-Chain put.after lo hi parts put.uuids good (subst (InRange lo hi) (sym whole) r)
          put.stored in
      (
        zip_entries (map_list leaf_page parts) put.uuids,
        put.after,
        rw (check_leaf_pages parts good, put.accepted) refl,
        put.kept,
        (
          leaf_start put.after lo hi parts put.uuids good (subst (InRange lo hi) (sym whole) r)
              (subst (λ l. 1 ≤ length l) (sym whole) (omega arith)) put.stored,
          subst (Chain (Node B 0 put.after) hi (zip_entries (map_list leaf_page parts) put.uuids))
              whole c,
        ),
      )
