-- ===== src/Pagestore/Store/Write.antt =====
-- The copy-on-write path (go/internal/pagestore/store.go): pages and index levels written to the
-- blob store, and a tree merged with new keys. An `idx *int` into the new keys is the list of the
-- keys that are left. The pool of `blobPutPages` writes independent blobs: here they are written in
-- order.
use eavt_sql.Prelude.{
  ℕ, zero, suc, ◌+◌, ◌%◌, Bool, true, false, ◌||◌, Option, none, some, List, [], ◌∷◌, ◌++◌, length,
  leb, ◌==◌, get_or,
}
use eavt_sql.Bytes.Order.{Bytes}
use eavt_sql.Pagestore.Outcome.{Outcome, ok, err, panic, ◌>>=◌, leaf_not_found}
use eavt_sql.Pagestore.Page.{
  Pair, IndexEntry, deserialize_page, deserialize_page_kv, serialize_index_page,
  deserialize_index_page,
}
use eavt_sql.Pagestore.Page.Build.{index_page_max_size, map_list, build_pages, split_index_entries}
use eavt_sql.Pagestore.Root.Prefix.{below_end}
use eavt_sql.Pagestore.Store.{Backend, blob_put, blob_get, nil_uuid}
use eavt_sql.Pagestore.Store.Merge.{merge_keys, take_range}

unfoldable pub blob_put_pages :
    (B : Backend) → List Bytes → B.State → Outcome (List Bytes × B.State)
blob_put_pages B [] s = ok ([], s)
blob_put_pages B (p ∷ ps) s = do
  (u, s1) ← blob_put B p s
  (us, s2) ← blob_put_pages B ps s1
  ok (u ∷ us, s2)

-- Each page is decoded before any is written.
unfoldable pub check_pages : Bool → List Pair → Outcome {0} Unit
check_pages kv [] = ok tt
check_pages true ((k, d) ∷ ps) = do pairs ← deserialize_page_kv d; check_pages true ps
check_pages false ((k, d) ∷ ps) = do keys ← deserialize_page d; check_pages false ps

abbrev pub page_bytes : Pair → Bytes
page_bytes p = p.1

unfoldable pub zip_entries : List Pair → List Bytes → List IndexEntry
zip_entries [] us = []
zip_entries (p ∷ ps) [] = []
zip_entries (p ∷ ps) (u ∷ us) = record { key = p.0; uuid = u } ∷ zip_entries ps us

unfoldable pub put_page_list :
    (B : Backend) → List Pair → Bool → B.State → Outcome (List IndexEntry × B.State)
unfolding check_pages blob_put_pages zip_entries
put_page_list B ps kv s = do
  checked ← check_pages kv ps
  (us, s1) ← blob_put_pages B (map_list page_bytes ps) s
  ok (zip_entries ps us, s1)

-- A page without entries is left out.
abbrev keyed_page : List IndexEntry → Bytes → List Pair → List Pair
keyed_page [] d more = more
keyed_page (e ∷ es) d more = (e.key, d) ∷ more

unfoldable pub keyed_pages : List Bytes → Outcome (List Pair)
keyed_pages [] = ok []
keyed_pages (d ∷ ds) = do
  es ← deserialize_index_page d
  more ← keyed_pages ds
  ok (keyed_page es d more)

unfoldable pub put_index_pages :
    (B : Backend) → List Bytes → B.State → Outcome (List IndexEntry × B.State)
unfolding keyed_pages blob_put_pages zip_entries
put_index_pages B ds s = do
  ps ← keyed_pages ds
  (us, s1) ← blob_put_pages B (map_list page_bytes ps) s
  ok (zip_entries ps us, s1)

-- `entries[0].Key`.
unfoldable pub first_key : List IndexEntry → Outcome Bytes
first_key [] = panic
first_key (e ∷ es) = ok e.key

abbrev pub fits_index : List IndexEntry → Bool
fits_index es = leb (length (serialize_index_page es)) index_page_max_size

unfoldable pub put_single_page :
    (B : Backend) → List IndexEntry → B.State → Outcome (List IndexEntry × B.State)
unfolding first_key
put_single_page B es s = do
  (u, s1) ← blob_put B (serialize_index_page es) s
  k ← first_key es
  ok (record { key = k; uuid = u } ∷ [], s1)

unfoldable pub write_index_level :
    (B : Backend) → List IndexEntry → B.State → Outcome (List IndexEntry × B.State)
unfolding put_single_page
write_index_level B es s = elim (fits_index es || leb (length es) 1) [
  | true ↦ put_single_page B es s
  | false ↦ put_index_pages B (split_index_entries es) s
]

-- The loop of `buildIndexTree`. The fuel is the number of entries; running out of it is the last
-- clause's panic. A height is a byte.
unfoldable pub build_levels :
    ℕ → (B : Backend) → List IndexEntry → ℕ → B.State → Outcome ((Bytes × ℕ) × B.State)
build_levels zero B es height s = panic
build_levels (suc n) B es height s = elim (fits_index es) [
  | true ↦ do (u, s1) ← blob_put B (serialize_index_page es) s; ok ((u, height), s1)
  | false ↦ elim (length (split_index_entries es) == length es) [
    | true ↦ do (u, s1) ← blob_put B (serialize_index_page es) s; ok ((u, height), s1)
    | false ↦ do
      (next, s1) ← put_index_pages B (split_index_entries es) s
      build_levels n B next ((height + 1) % 256) s1
  ]
]

unfoldable pub build_index_tree :
    (B : Backend) → List IndexEntry → ℕ → B.State → Outcome ((Bytes × ℕ) × B.State)
unfolding build_levels
build_index_tree B [] child_height s = ok ((nil_uuid, 0), s)
build_index_tree B (e ∷ es) child_height s = elim (fits_index (e ∷ es)) [
  | true ↦ do
    (u, s1) ← blob_put B (serialize_index_page (e ∷ es)) s
    ok ((u, (child_height + 1) % 256), s1)
  | false ↦ elim (length (split_index_entries (e ∷ es)) == 1) [
    | true ↦ do
      (u, s1) ← blob_put B (get_or (split_index_entries (e ∷ es)) 0 []) s
      ok ((u, (child_height + 1) % 256), s1)
    | false ↦ do
      (level, s1) ← put_index_pages B (split_index_entries (e ∷ es)) s
      build_levels (length level) B level ((child_height + 2) % 256) s1
  ]
]

-- What a merge of a node returns: its new entries, unless nothing changed, and the keys left.
abbrev pub Merged : Type 0
Merged = Option (List IndexEntry) × List Bytes

abbrev found_leaf : Option Bytes → Outcome Bytes
found_leaf none = err leaf_not_found
found_leaf (some d) = ok d

unfoldable pub put_merged :
    (B : Backend) → List Bytes → List Bytes → List Bytes → B.State → Outcome (Merged × B.State)
put_merged B existing [] rest s = ok ((none, rest), s)
put_merged B existing (k ∷ taken) rest s = do
  (es, s1) ← put_page_list B (build_pages (merge_keys existing (k ∷ taken))) false s
  ok ((some es, rest), s1)

unfoldable pub merge_leaf :
    (B : Backend) → Option Bytes → Bytes → List Bytes → B.State → Outcome (Merged × B.State)
unfolding put_merged
merge_leaf B hi u new s = do
  found ← blob_get B u s
  d ← found_leaf found
  existing ← deserialize_page d
  put_merged B existing (take_range hi new).0 (take_range hi new).1 s

-- The end of a child's range: the key of the next entry, or the node's own end.
unfoldable pub child_end : List IndexEntry → Option Bytes → Option Bytes
child_end [] hi = hi
child_end (e ∷ es) hi = some e.key

unfoldable pub has_keys : Option Bytes → List Bytes → Bool
has_keys hi [] = false
has_keys hi (k ∷ new) = below_end hi k

abbrev pub child_entries : IndexEntry → Option (List IndexEntry) → List IndexEntry
child_entries e none = e ∷ []
child_entries e (some es) = es

abbrev pub is_some {ℓ} : {A : Type ℓ} → Option A → Bool
is_some none = false
is_some (some a) = true

-- The loop over a node's entries, with the merge of a child: the new entries, whether one changed,
-- and the keys left.
unfoldable pub merge_children :
    (B : Backend)
    → (Option Bytes → Bytes → List Bytes → B.State → Outcome (Merged × B.State))
    → Option Bytes
    → List IndexEntry
    → List Bytes
    → B.State
    → Outcome ((List IndexEntry × Bool × List Bytes) × B.State)
merge_children B merge hi [] new s = ok (([], false, new), s)
merge_children B merge hi (e ∷ es) new s = elim (has_keys (child_end es hi) new) [
  | false ↦ do
    ((more, changed, rest), s1) ← merge_children B merge hi es new s
    ok ((e ∷ more, changed, rest), s1)
  | true ↦ do
    ((res, left), s1) ← merge (child_end es hi) e.uuid new s
    ((more, changed, rest), s2) ← merge_children B merge hi es left s1
    ok ((child_entries e res ++ more, is_some res || changed, rest), s2)
]

unfoldable pub put_node :
    (B : Backend) → List IndexEntry → Bool → List Bytes → B.State → Outcome (Merged × B.State)
put_node B es false rest s = ok ((none, rest), s)
put_node B es true rest s = do
  (written, s1) ← write_index_level B es s
  ok ((some written, rest), s1)

unfoldable pub merge_node :
    (B : Backend)
    → (Option Bytes → Bytes → List Bytes → B.State → Outcome (Merged × B.State))
    → Option Bytes
    → Option Bytes
    → List Bytes
    → B.State
    → Outcome (Merged × B.State)
unfolding merge_children put_node
merge_node B merge hi none new s = ok ((none, new), s)
merge_node B merge hi (some d) new s = do
  es ← deserialize_index_page d
  ((more, changed, rest), s1) ← merge_children B merge hi es new s
  put_node B more changed rest s1

unfoldable pub merge_subtree :
    (B : Backend) → ℕ → Option Bytes → Bytes → List Bytes → B.State → Outcome (Merged × B.State)
unfolding merge_leaf merge_node
merge_subtree B zero hi u new s = merge_leaf B hi u new s
merge_subtree B (suc h) hi u new s = do
  found ← blob_get B u s
  merge_node B (merge_subtree B h) hi found new s
