-- ===== src/Pagestore/Store/Levels/Index.antt =====
-- `SplitIndexEntries`, `putIndexPages` and `writeIndexLevel` (go/internal/pagestore) write a level
-- of index pages over a level of pages.
use eavt_sql.Prelude.{
  ℕ, suc, ◌≡◌, refl, sym, ap, subst, Option, List, [], ◌∷◌, ◌++◌, arith, length, All,
}
use eavt_sql.Bytes.Order.{Bytes}
use eavt_sql.Pagestore.Outcome.{ok}
use eavt_sql.Pagestore.Page.{Pair, IndexEntry, serialize_index_page}
use eavt_sql.Pagestore.Page.Build.{
  split_list, map_list, split_index_entries, concat, concat-split_list,
}
use eavt_sql.Pagestore.Range.{lt_irrefl}
use eavt_sql.Pagestore.Store.{Backend, IsLawful, Keeps}
use eavt_sql.Pagestore.Store.Write.{
  child_end, page_bytes, fits_index, keyed_pages, zip_entries, put_index_pages,
}
use eavt_sql.Pagestore.Store.Chain.{
  Chain, Node, StartsAt, IsLevel, Chain-split, Chain-entries, Chain-first,
}
use eavt_sql.Pagestore.Store.Nodes.{Chain-Keeps}
use eavt_sql.Pagestore.Store.Levels.Pages.{Stored, blob_put_pages-IsPagesPut}
use eavt_sql.Pagestore.Store.Levels.Sizes.{IsIndexPage, page_read, good_parts}

-- The pages with their first keys, as `putIndexPages` reads them.
abbrev keyed : List IndexEntry → Pair
keyed [] = ([], serialize_index_page [])
keyed (e ∷ es) = (e.key, serialize_index_page (e ∷ es))

keyed_parts :
    (parts : List (List IndexEntry))
    → All IsIndexPage parts
    → keyed_pages (map_list serialize_index_page parts) ≡ ok (map_list keyed parts)
unfolding keyed_pages map_list
keyed_parts [] a = refl
keyed_parts ([] ∷ ps) a = absurd (omega (arith, a.0.1))
keyed_parts ((e ∷ es) ∷ ps) a = rw (page_read (e ∷ es) a.0.0, keyed_parts ps a.1) refl

module _ (B : Backend) (L : IsLawful B) (h : ℕ) where
  -- The boundary behind a page is that of the next page, written or not.
  same_end :
      (t : B.State) (hi : Option Bytes) (parts : List (List IndexEntry)) (us : List Bytes)
      → All IsIndexPage parts
      → Stored B t (map_list page_bytes (map_list keyed parts)) us
      → child_end (concat parts) hi ≡ child_end (zip_entries (map_list keyed parts) us) hi
  unfolding child_end concat map_list zip_entries
  same_end t hi [] [] a st = refl
  same_end t hi [] (u ∷ us) a st = absurd st
  same_end t hi ([] ∷ ps) us a st = absurd (omega (arith, a.0.1))
  same_end t hi ((e ∷ es) ∷ ps) [] a st = absurd st
  same_end t hi ((e ∷ es) ∷ ps) (u ∷ us) a st = refl

  index-Chain :
      (t : B.State) (hi : Option Bytes) (parts : List (List IndexEntry)) (us ks : List Bytes)
      → All IsIndexPage parts
      → Chain (Node B h t) hi (concat parts) ks
      → Stored B t (map_list page_bytes (map_list keyed parts)) us
      → Chain (Node B (suc h) t) hi (zip_entries (map_list keyed parts) us) ks
  unfolding concat map_list zip_entries
  index-Chain t hi [] [] ks a c st = c
  index-Chain t hi [] (u ∷ us) ks a c st = absurd st
  index-Chain t hi ([] ∷ ps) us ks a c st = absurd (omega (arith, a.0.1))
  index-Chain t hi ((e ∷ es) ∷ ps) [] ks a c st = absurd st
  index-Chain t hi ((e ∷ es) ∷ ps) (u ∷ us) ks a c (found, long, fresh, st) =
      let (k1, k2, c1, c2, same) = Chain-split (Node B h t) hi (e ∷ es) (concat ps) ks c in
      let stop = same_end t hi ps us a.1 st in
      let c1' = subst (λ o. Chain (Node B h t) o (e ∷ es) k1) stop c1 in
      (
        k1,
        k2,
        Chain-first (Node B h t) (child_end (zip_entries (map_list keyed ps) us) hi) e es k1 c1',
        ((Chain-entries (Node B h t) hi (e ∷ es ++ concat ps) ks c).0.0, long, fresh),
        (
          serialize_index_page (e ∷ es),
          e,
          es,
          found,
          page_read (e ∷ es) a.0.0,
          lt_irrefl e.key,
          c1',
        ),
        index-Chain t hi ps us k2 a.1 c2 st,
        same,
      )

  index_start :
      (t : B.State) (lo : Bytes) (parts : List (List IndexEntry)) (us : List Bytes)
      → All IsIndexPage parts
      → StartsAt lo (concat parts)
      → Stored B t (map_list page_bytes (map_list keyed parts)) us
      → StartsAt lo (zip_entries (map_list keyed parts) us)
  unfolding concat map_list zip_entries
  index_start t lo [] us a l st = absurd l
  index_start t lo ([] ∷ ps) us a l st = absurd (omega (arith, a.0.1))
  index_start t lo ((e ∷ es) ∷ ps) [] a l st = absurd st
  index_start t lo ((e ∷ es) ∷ ps) (u ∷ us) a l st = l

  length-zip_entries :
      (t : B.State) (parts : List (List IndexEntry)) (us : List Bytes)
      → Stored B t (map_list page_bytes (map_list keyed parts)) us
      → length (zip_entries (map_list keyed parts) us)
        ≡ length (map_list serialize_index_page parts)
  unfolding map_list zip_entries
  length-zip_entries t [] us st = refl
  length-zip_entries t (p ∷ ps) [] st = absurd st
  length-zip_entries t (p ∷ ps) (u ∷ us) (found, long, fresh, st) =
      ap suc (length-zip_entries t ps us st)

  -- The level of index pages over a level, and as many entries as pages.
  pub index-IsLevel :
      (lo : Bytes) (hi : Option Bytes) (es : List IndexEntry) (ks : List Bytes) (s : B.State)
      → IsLevel B h s lo hi es ks
      → (next : List IndexEntry) × (t : B.State) × (put_index_pages B (split_index_entries es) s
          ≡ ok (next, t))
        × Keeps B s t
        × IsLevel B (suc h) t lo hi next ks
        × (length next ≡ length (split_index_entries es))
  unfolding put_index_pages split_index_entries
  index-IsLevel lo hi es ks s (l, c) =
      let parts = split_list fits_index (length es) es in
      let whole : concat parts ≡ es = concat-split_list fits_index (length es) es (omega arith) in
      let good = good_parts es (Chain-entries (Node B h s) hi es ks c) in
      let put = blob_put_pages-IsPagesPut B L (map_list page_bytes (map_list keyed parts)) s in
      let kept = Chain-Keeps B h s put.after put.kept hi es ks c in
      (
        zip_entries (map_list keyed parts) put.uuids,
        put.after,
        rw (keyed_parts parts good, put.accepted) refl,
        put.kept,
        (
          index_start put.after lo parts put.uuids good (subst (StartsAt lo) (sym whole) l)
              put.stored,
          index-Chain put.after hi parts put.uuids ks good
              (subst (λ l. Chain (Node B h put.after) hi l ks) (sym whole) kept) put.stored,
        ),
        length-zip_entries put.after parts put.uuids put.stored,
      )
