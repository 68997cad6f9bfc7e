-- ===== src/Tests/Gc.antt =====
-- go/internal/pagestore/gc.go at concrete inputs.
use eavt_sql.Prelude.{
  ◌≤◌, ◌≡◌, refl, sym, ap, subst, false, Option, none, some, ◌++◌, List, [], ◌∷◌, length, arith,
  inl, inr,
}
use eavt_sql.Bytes.Order.{Bytes, cmp_seq}
use eavt_sql.Pagestore.Outcome.{ok}
use eavt_sql.Pagestore.Page.{deserialize_page}
use eavt_sql.Pagestore.Root.{CfTree, empty_tree, deserialize_root}
use eavt_sql.Pagestore.Root.Prefix.{has_prefix}
use eavt_sql.Pagestore.Store.{decompress, blob_get, blob_get_root}
use eavt_sql.Pagestore.Store.Gc.{
  GcReport, parse_root_us, parse_hex, parse_uint, is_removed, classify_from, classify_roots,
  gc_full, gc_roots, report, collect_roots, sweep, delete_roots, delete_blobs,
}
use eavt_sql.Pagestore.Store.Gc.Roots.{classify_roots-newest, length-classify_roots}
use eavt_sql.Pagestore.Store.Gc.Live.{AreKeyTrees}
use eavt_sql.Pagestore.Store.Gc.Safety.{AreReadable, AreHeld, gc_full-AreHeld}
use eavt_sql.Tests.Memory.{
  Memory, uuids_from, memory, zeros, leaf_uuid, memory-IsDeleting, not_nil_uuid, old_keys,
  old_blobs, old_tree, old_keys-InRange,
}

-- Two roots, published four seconds apart: their names hold nanoseconds.
abbrev new_root : Bytes
new_root =
    114 ∷ 111 ∷ 111 ∷ 116 ∷ 95 ∷ 102 ∷ 50 ∷ 49 ∷ 102 ∷ 52 ∷ 57 ∷ 52 ∷ 98 ∷ 54 ∷ 97 ∷ 51 ∷ 48 ∷ 100
    ∷ 56 ∷ 48 ∷ 48 ∷ []

abbrev old_root : Bytes
old_root =
    114 ∷ 111 ∷ 111 ∷ 116 ∷ 95 ∷ 102 ∷ 50 ∷ 49 ∷ 102 ∷ 52 ∷ 57 ∷ 52 ∷ 99 ∷ 53 ∷ 56 ∷ 57 ∷ 99 ∷ 48
    ∷ 48 ∷ 48 ∷ 48 ∷ []

-- With an age of one hour the older root is removed.
four_seconds_old : classify_roots (new_root ∷ old_root ∷ []) 3600 0 ≡ (new_root ∷ [], old_root ∷ [])
unfolding classify_roots classify_from is_removed parse_root_us parse_uint parse_hex has_prefix
four_seconds_old = refl

classify_roots-newest_example :
    (rest : List Bytes) × ((classify_roots (new_root ∷ old_root ∷ []) 3600 1).0 ≡ new_root ∷ rest)
classify_roots-newest_example = classify_roots-newest new_root (old_root ∷ []) 3600 1 (omega arith)

length-classify_roots_example : length (classify_roots (new_root ∷ old_root ∷ []) 3600 1).0 ≤ 1
length-classify_roots_example =
    length-classify_roots (new_root ∷ old_root ∷ []) 3600 1 (omega arith)

abbrev root_data : Bytes
root_data =
    0x45 ∷ 0x56 ∷ 0x54 ∷ 0x31 ∷ 0 ∷ 2 ∷ 0 ∷ 2 ∷ 0 ∷ 0 ∷ 0 ∷ 0 ∷ 0 ∷ 0 ∷ 0 ∷ 0 ∷ 0 ∷ 0 ∷ 0 ∷ 0 ∷ 0
    ∷ 0 ∷ 0 ∷ 0 ∷ 0 ∷ 0 ∷ 0 ∷ 0 ∷ 0 ∷ 1 ∷ 0 ∷ 0 ∷ 0 ∷ 0 ∷ 0 ∷ 0 ∷ 0 ∷ 0 ∷ 0 ∷ 0 ∷ 0 ∷ 0 ∷ 0 ∷ 0 ∷ 0
    ∷ 0 ∷ 0 ∷ 0 ∷ 0 ∷ 1 ∷ []

-- The second blob, which no tree holds.
abbrev stray_uuid : Bytes
stray_uuid = 2 ∷ zeros

abbrev two_roots : Memory
two_roots = record {
  blobs = old_blobs.blobs ++ some (9 ∷ []) ∷ [];
  roots = (new_root, 0x28 ∷ 0xb5 ∷ 0x2f ∷ 0xfd ∷ root_data) ∷ (old_root, []) ∷ [];
}

abbrev root_content : List CfTree × List (List Bytes)
root_content = (empty_tree ∷ old_tree ∷ [], [] ∷ old_keys ∷ [])

kept_trees : AreKeyTrees memory two_roots root_content.0 root_content.1
unfolding deserialize_page blob_get decompress cmp_seq
kept_trees = (
  inl (refl, refl),
  (
    inr (
      not_nil_uuid 0,
      omega arith,
      (
        0 ∷ 2 ∷ 0 ∷ 9 ∷ 1 ∷ 0 ∷ 0 ∷ 0 ∷ 0 ∷ 0 ∷ 0 ∷ 0 ∷ 0 ∷ 0 ∷ 9 ∷ 5 ∷ 0 ∷ 0 ∷ 0 ∷ 0 ∷ 0 ∷ 0 ∷ 0
            ∷ 0 ∷ [],
        refl,
        refl,
        old_keys-InRange,
      ),
    ),
    refl,
  ),
)

kept_roots : AreReadable memory two_roots (new_root ∷ []) (root_content ∷ [])
unfolding blob_get_root decompress deserialize_root cmp_seq
kept_roots = ((root_data, refl, refl, kept_trees), tt)

gc_full-AreHeld_example :
    (report : Option GcReport) × (t : Memory) × (gc_full memory false 3600 0 false two_roots
      ≡ ok (report, t))
    × AreHeld memory t (root_content ∷ [])
gc_full-AreHeld_example =
    gc_full-AreHeld memory memory-IsDeleting 3600 0 false two_roots (new_root ∷ old_root ∷ [])
      (root_content ∷ []) refl
      (subst (λ r. AreReadable memory two_roots r (root_content ∷ []))
        (ap (λ (p : List Bytes × List Bytes). p.0) (sym four_seconds_old)) kept_roots)
      (λ t. (uuids_from 0 t.blobs, refl))

-- The collection deletes the older root and the second blob, which one more collection does not find.
abbrev one_root : Memory
one_root = record {
  blobs = old_blobs.blobs ++ none ∷ [];
  roots = (new_root, 0x28 ∷ 0xb5 ∷ 0x2f ∷ 0xfd ∷ root_data) ∷ [];
}

stray_blob : blob_get memory stray_uuid two_roots ≡ ok (some (9 ∷ []))
unfolding blob_get decompress cmp_seq
stray_blob = refl

stray_blob_is_gone :
    gc_full memory false 3600 0 false two_roots
    ≡ ok (
      some (
          report
            (new_root ∷ old_root ∷ [])
            (old_root ∷ [])
            (leaf_uuid ∷ stray_uuid ∷ [])
            1
            (leaf_uuid ∷ [])
            false),
      one_root,
    )
unfolding gc_full gc_roots classify_roots classify_from is_removed parse_root_us parse_uint
    parse_hex has_prefix collect_roots sweep delete_roots delete_blobs blob_get blob_get_root
    decompress deserialize_root cmp_seq
stray_blob_is_gone = refl
