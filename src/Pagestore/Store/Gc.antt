-- ===== src/Pagestore/Store/Gc.antt =====
-- go/internal/pagestore/gc.go: the roots that are kept, the blobs reachable from them, and the
-- deletion of the rest. A set of identifiers is a list without repetitions. An `int64` is its 64-bit
-- pattern. A maximal count of roots that is not positive is 0.
pub mod Roots
pub mod Live
pub mod Safety
use eavt_sql.Prelude.{
  ℕ, zero, suc, ◌+◌, ◌-◌, ◌*◌, ◌/◌, ◌%◌, ◌^◌, Bool, true, false, ◌&&◌, ◌||◌, Option, none, some,
  List, [], ◌∷◌, ◌++◌, length, drop, ltb, leb, ◌==◌, is_eq, if◌then◌else◌,
}
use eavt_sql.Bytes.Order.{Bytes, cmp_seq}
use eavt_sql.Pagestore.Outcome.{Outcome, ok, err, panic, ◌>>=◌, read_only, root_unreadable}
use eavt_sql.Pagestore.Page.{IndexEntry, deserialize_index_page}
use eavt_sql.Pagestore.Root.{CfTree, deserialize_root}
use eavt_sql.Pagestore.Root.Prefix.{has_prefix}
use eavt_sql.Pagestore.Store.{Backend, blob_get, blob_get_root, nil_uuid}

-- A digit of a number in base 16.
abbrev hex_digit : ℕ → Option ℕ
hex_digit c =
    if leb 48 c && leb c 57
    then some (c - 48)
    else if leb 97 c && leb c 102
    then some (c - 87)
    else if leb 65 c && leb c 70
    then some (c - 55)
    else none

-- `strconv.ParseUint(s, 16, 64)`; any error is `none`.
unfoldable pub parse_hex : ℕ → Bytes → Option ℕ
parse_hex n [] = some n
parse_hex n (c ∷ cs) = elim (hex_digit c) [
  | none ↦ none
  | some d ↦ elim (ltb (n * 16 + d) (2 ^ 64)) [ true ↦ parse_hex (n * 16 + d) cs | false ↦ none ]
]

abbrev pub root_prefix : Bytes
root_prefix = 114 ∷ 111 ∷ 111 ∷ 116 ∷ 95 ∷ []

unfoldable pub parse_uint : Bytes → Option ℕ
unfolding parse_hex
parse_uint [] = none
parse_uint (c ∷ cs) = parse_hex 0 (c ∷ cs)

abbrev negate : Option ℕ → ℕ
negate none = 0
negate (some bits) = (2 ^ 64 - bits) % 2 ^ 64

unfoldable pub parse_root_us : Bytes → ℕ
unfolding parse_uint has_prefix
parse_root_us name = if has_prefix root_prefix name then negate (parse_uint (drop 5 name)) else 0

-- `a - b` and `a > b` of `int64`.
abbrev pub sub64 : ℕ → ℕ → ℕ
sub64 a b = (a + (2 ^ 64 - b)) % 2 ^ 64

abbrev pub gt64 : ℕ → ℕ → Bool
gt64 a b = ltb ((b + 2 ^ 63) % 2 ^ 64) ((a + 2 ^ 63) % 2 ^ 64)

-- Whether the root at an index is removed.
unfoldable pub is_removed : ℕ → ℕ → ℕ → ℕ → Bytes → Bool
is_removed latest max_age max_count i name =
    gt64 (sub64 latest (parse_root_us name)) max_age || (ltb 0 max_count && leb max_count i)

-- The loop over the roots: those kept, those removed.
unfoldable pub classify_from : ℕ → ℕ → ℕ → ℕ → List Bytes → List Bytes × List Bytes
classify_from latest max_age max_count i [] = ([], [])
classify_from latest max_age max_count i (name ∷ names) =
    let rest = classify_from latest max_age max_count (suc i) names in
    elim (is_removed latest max_age max_count i name) [
      | true ↦ (rest.0, name ∷ rest.1)
      | false ↦ (name ∷ rest.0, rest.1)
    ]

unfoldable pub classify_roots : List Bytes → ℕ → ℕ → List Bytes × List Bytes
unfolding classify_from
classify_roots [] max_age_secs max_count = ([], [])
classify_roots (name ∷ names) max_age_secs max_count =
    classify_from (parse_root_us name) (max_age_secs * 1000000 % 2 ^ 64) max_count 0 (name ∷ names)

unfoldable pub is_live : Bytes → List Bytes → Bool
is_live u [] = false
is_live u (v ∷ live) = is_eq (cmp_seq u v) || is_live u live

-- `live[u] = true`.
unfoldable pub add_live : Bytes → List Bytes → List Bytes
add_live u live = elim (is_live u live) [ true ↦ live | false ↦ u ∷ live ]

-- The loop over an index page's entries; the children of the lowest index pages are leaves, which
-- are not visited.
unfoldable pub collect_entries :
    ℕ
    → (Bytes → List Bytes → Outcome (List Bytes))
    → List IndexEntry
    → List Bytes
    → Outcome (List Bytes)
collect_entries h visit [] live = ok live
collect_entries zero visit (e ∷ es) live = collect_entries zero visit es (add_live e.uuid live)
collect_entries (suc h) visit (e ∷ es) live = do
  live1 ← visit e.uuid (add_live e.uuid live)
  collect_entries (suc h) visit es live1

-- A page that cannot be read, or is not decoded, has no children.
abbrev page_entries : Outcome (List IndexEntry) → Outcome (List IndexEntry)
page_entries (ok es) = ok es
page_entries (err e) = ok []
page_entries panic = panic

abbrev found_entries : Outcome (Option Bytes) → Outcome (List IndexEntry)
found_entries (ok (some d)) = page_entries (deserialize_index_page d)
found_entries (ok none) = ok []
found_entries (err e) = ok []
found_entries panic = panic

-- `collectTreeUUIDs`, on the height and the root of the tree.
unfoldable pub collect_tree_uuids :
    (B : Backend) → B.State → ℕ → Bytes → List Bytes → Outcome (List Bytes)
unfolding collect_entries add_live is_live
collect_tree_uuids B s zero u live = elim (is_eq (cmp_seq u nil_uuid)) [
  | true ↦ ok live
  | false ↦ ok (add_live u live)
]
collect_tree_uuids B s (suc h) u live = elim (is_eq (cmp_seq u nil_uuid)) [
  | true ↦ ok live
  | false ↦ do
    es ← found_entries (blob_get B u s)
    collect_entries h (collect_tree_uuids B s h) es (add_live u live)
]

unfoldable pub collect_trees :
    (B : Backend) → B.State → List CfTree → List Bytes → Outcome (List Bytes)
unfolding collect_tree_uuids
collect_trees B s [] live = ok live
collect_trees B s (t ∷ ts) live = do
  live1 ← collect_tree_uuids B s t.height t.root_uuid live
  collect_trees B s ts live1

abbrev pub found_root : Outcome (Option Bytes) → Outcome Bytes
found_root (ok (some d)) = ok d
found_root (ok none) = err root_unreadable
found_root (err e) = err root_unreadable
found_root panic = panic

-- The live set of the roots that are kept.
unfoldable pub collect_roots :
    (B : Backend) → B.State → List Bytes → List Bytes → Outcome (List Bytes)
unfolding collect_trees
collect_roots B s [] live = ok live
collect_roots B s (name ∷ names) live = do
  d ← found_root (blob_get_root B name s)
  ts ← deserialize_root d
  live1 ← collect_trees B s ts live
  collect_roots B s names live1

unfoldable pub delete_roots : (B : Backend) → List Bytes → B.State → B.State
delete_roots B [] s = s
delete_roots B (name ∷ names) s = delete_roots B names (B.delete_root name s)

-- The loop over all blobs: the count of deleted ones and the state.
unfoldable pub delete_blobs : (B : Backend) → List Bytes → List Bytes → ℕ → B.State → ℕ × B.State
unfolding is_live
delete_blobs B live [] n s = (n, s)
delete_blobs B live (u ∷ us) n s = elim (is_live u live) [
  | true ↦ delete_blobs B live us n s
  | false ↦ elim (B.delete u s) [
    | none ↦ delete_blobs B live us n s
    | some t ↦ delete_blobs B live us (n + 1) t
  ]
]

-- The five numbers of the report and its flag.
pub record GcReport : Type 0 where
  pub roots_scanned : ℕ
  pub roots_removed : ℕ
  pub blobs_scanned : ℕ
  pub blobs_removed : ℕ
  pub live_blobs : ℕ
  pub dry_run : Bool

abbrev pub report : List Bytes → List Bytes → List Bytes → ℕ → List Bytes → Bool → GcReport
report roots remove all removed live dry_run = record {
  roots_scanned = length roots;
  roots_removed = length remove;
  blobs_scanned = length all;
  blobs_removed = removed;
  live_blobs = length live;
  dry_run = dry_run;
}

-- What is done once the live set is known.
unfoldable pub sweep :
    (B : Backend)
    → Bool
    → List Bytes
    → List Bytes
    → List Bytes
    → B.State
    → Outcome (Option GcReport × B.State)
unfolding delete_roots delete_blobs
sweep B true roots remove live s = do
  all ← B.list s
  ok (some (report roots remove all 0 live true), s)
sweep B false roots remove live s = do
  all ← B.list (delete_roots B remove s)
  let swept = delete_blobs B live all 0 (delete_roots B remove s)
  ok (some (report roots remove all swept.0 live false), swept.1)

unfoldable pub gc_roots :
    (B : Backend) → ℕ → ℕ → Bool → List Bytes → B.State → Outcome (Option GcReport × B.State)
unfolding classify_roots collect_roots sweep
gc_roots B max_age_secs max_count dry_run [] s = ok (none, s)
gc_roots B max_age_secs max_count dry_run (r ∷ rs) s = do
  live ← collect_roots B s (classify_roots (r ∷ rs) max_age_secs max_count).0 []
  sweep B dry_run (r ∷ rs) (classify_roots (r ∷ rs) max_age_secs max_count).1 live s

unfoldable pub gc_full :
    (B : Backend) → Bool → ℕ → ℕ → Bool → B.State → Outcome (Option GcReport × B.State)
unfolding gc_roots
gc_full B true max_age_secs max_count dry_run s = err read_only
gc_full B false max_age_secs max_count dry_run s = do
  roots ← B.list_roots s
  gc_roots B max_age_secs max_count dry_run roots s

-- An error of the listing is `false`.
unfoldable pub has_old_roots : (B : Backend) → ℕ → ℕ → B.State → Bool
unfolding classify_roots
has_old_roots B max_age_secs max_count s = elim (B.list_roots s) [
  | ok roots ↦ ltb 0 (length (classify_roots roots max_age_secs max_count).1)
  | err e ↦ false
  | panic ↦ false
]
