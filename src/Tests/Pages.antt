-- ===== src/Tests/Pages.antt =====
-- go/internal/pagestore at concrete inputs.
use eavt_sql.Prelude.{
  ◌≤◌, none, ◌^◌, ◌≡◌, refl, some, List, [], ◌∷◌, arith, replicate, length-replicate,
}
use eavt_sql.Bytes.Order.{Bytes}
use eavt_sql.Pagestore.Outcome.{ok, err, panic, map_outcome, truncated_key}
use eavt_sql.Pagestore.Page.{
  Pair, IndexEntry, serialize_page, deserialize_page, deserialize_page_kv, serialize_index_page,
  deserialize_index_page,
}
use eavt_sql.Pagestore.Page.RoundTrip.{deserialize_page-serialize_page, deserialize_page_full}
use eavt_sql.Pagestore.Page.Pairs.{deserialize_index_page-serialize_index_page}
use eavt_sql.Pagestore.Page.Build.{build_pages}
use eavt_sql.Pagestore.Page.Leaves.{read_leaves, read_leaves-build_pages}
use eavt_sql.Pagestore.Flat.{to_flat, decode_page_flat, decode_page_flat-deserialize_page}
use eavt_sql.Pagestore.Root.{CfTree, serialize_root, deserialize_root}
use eavt_sql.Pagestore.Root.RoundTrip.{deserialize_root-serialize_root}
use eavt_sql.Pagestore.Flat.Pairs.{
  pack_pairs, decode_page_kv_flat, decode_page_kv_flat-deserialize_page_kv,
}
use eavt_sql.Pagestore.Cache.{
  PageCache, raw, put_content, find_entry, delete_entry, oldest_from, evict_to_budget,
}
use eavt_sql.Pagestore.Cache.Entries.{IsCounted, total_size}
use eavt_sql.Pagestore.Cache.Invariant.{IsPageCache, IsPageCache-put_content}
use eavt_sql.Pagestore.Cache.Recency.{evict_to_budget-order}

abbrev sample_keys : List Bytes
sample_keys = (1 ∷ 2 ∷ []) ∷ (1 ∷ 2 ∷ 3 ∷ []) ∷ (1 ∷ 4 ∷ []) ∷ []

sample_page : serialize_page sample_keys ≡ 0 ∷ 3 ∷ 0 ∷ 2 ∷ 1 ∷ 2 ∷ 2 ∷ 1 ∷ 3 ∷ 1 ∷ 1 ∷ 4 ∷ []
unfolding serialize_page
sample_page = refl

-- A suffix longer than the page is an error, and a negative one a panic.
bad_pages :
    (deserialize_page (0 ∷ 1 ∷ 0 ∷ 9 ∷ 1 ∷ []) ≡ err truncated_key)
    × (deserialize_page (0 ∷ 1 ∷ 0 ∷ 128 ∷ 128 ∷ 128 ∷ 128 ∷ 128 ∷ 128 ∷ 128 ∷ 128 ∷ 128 ∷ 1 ∷ [])
        ≡ panic)
unfolding deserialize_page
bad_pages = (refl, refl)

deserialize_page-serialize_page_example :
    deserialize_page (serialize_page sample_keys) ≡ ok sample_keys
unfolding serialize_page
deserialize_page-serialize_page_example =
    deserialize_page-serialize_page sample_keys (omega arith) (omega arith) (omega arith)

abbrev nine : Bytes
nine = 1 ∷ 2 ∷ 3 ∷ 4 ∷ 5 ∷ 6 ∷ 7 ∷ 8 ∷ 9 ∷ []

read_leaves-build_pages_example :
    read_leaves (build_pages (nine ∷ (0 ∷ nine) ∷ [])) ≡ ok (nine ∷ (0 ∷ nine) ∷ [])
read_leaves-build_pages_example = read_leaves-build_pages (nine ∷ (0 ∷ nine) ∷ []) (omega arith)

decode_page_flat-deserialize_page_example :
    decode_page_flat (0 ∷ 1 ∷ 0 ∷ 2 ∷ 7 ∷ 8 ∷ [])
    ≡ map_outcome to_flat (deserialize_page (0 ∷ 1 ∷ 0 ∷ 2 ∷ 7 ∷ 8 ∷ []))
decode_page_flat-deserialize_page_example =
    decode_page_flat-deserialize_page (0 ∷ 1 ∷ 0 ∷ 2 ∷ 7 ∷ 8 ∷ [])

abbrev sample_pairs : List Pair
sample_pairs = (1 ∷ 2 ∷ [], 5 ∷ []) ∷ (1 ∷ 3 ∷ [], []) ∷ []

abbrev sample_uuid : Bytes
sample_uuid = replicate 16 7

abbrev sample_entries : List IndexEntry
sample_entries = record { key = 1 ∷ 2 ∷ []; uuid = sample_uuid } ∷ []

deserialize_index_page-serialize_index_page_example :
    deserialize_index_page (serialize_index_page sample_entries) ≡ ok sample_entries
unfolding serialize_index_page
deserialize_index_page-serialize_index_page_example =
    deserialize_index_page-serialize_index_page sample_entries (omega arith) (omega arith)
      (omega arith)

abbrev sample_trees : List CfTree
sample_trees = record { root_uuid = sample_uuid; height = 2; num_leaves = 300 } ∷ []

deserialize_root-serialize_root_example :
    deserialize_root (serialize_root sample_trees) ≡ ok sample_trees
deserialize_root-serialize_root_example =
    deserialize_root-serialize_root sample_trees (omega arith) (omega arith)

deserialize_page_full_example :
    deserialize_page (serialize_page (replicate (2 ^ 16) (1 ∷ []))) ≡ ok []
deserialize_page_full_example =
    deserialize_page_full (replicate (2 ^ 16) (1 ∷ []))
      (length-replicate {A = Bytes} (2 ^ 16) (1 ∷ []))

decode_page_kv_flat-deserialize_page_kv_example :
    decode_page_kv_flat (0 ∷ 1 ∷ 0 ∷ 2 ∷ 7 ∷ 8 ∷ 1 ∷ 5 ∷ [])
    ≡ map_outcome pack_pairs (deserialize_page_kv (0 ∷ 1 ∷ 0 ∷ 2 ∷ 7 ∷ 8 ∷ 1 ∷ 5 ∷ []))
decode_page_kv_flat-deserialize_page_kv_example =
    decode_page_kv_flat-deserialize_page_kv (0 ∷ 1 ∷ 0 ∷ 2 ∷ 7 ∷ 8 ∷ 1 ∷ 5 ∷ [])

-- A budget of ten bytes that holds two entries, the second one used later.
abbrev full_cache : PageCache
full_cache = record {
  m =
      (5, record { content = raw (1 ∷ 2 ∷ 3 ∷ 4 ∷ []); size = 4; order = 2 })
      ∷ (6, record { content = raw (1 ∷ 2 ∷ 3 ∷ 4 ∷ 5 ∷ []); size = 5; order = 1 })
      ∷ [];
  max_bytes = 10;
  cur_bytes = 9;
  next_order = 3;
}

full_cache-IsCounted : IsCounted full_cache
unfolding total_size
full_cache-IsCounted = record { distinct = ((refl, tt), (tt, tt)); counted = refl }

full_cache-IsPageCache : IsPageCache full_cache
full_cache-IsPageCache = record { account = full_cache-IsCounted; budget = omega arith }

IsPageCache-put_content_example : IsPageCache (put_content 7 (raw (8 ∷ [])) 1 full_cache)
IsPageCache-put_content_example =
    IsPageCache-put_content 7 1 full_cache full_cache-IsPageCache (raw (8 ∷ []))

evicted :
    (find_entry 6 (evict_to_budget 2 3 full_cache).m ≡ none)
    × (find_entry 5 (evict_to_budget 2 3 full_cache).m
        ≡ some (record { content = raw (1 ∷ 2 ∷ 3 ∷ 4 ∷ []); size = 4; order = 2 }))
unfolding evict_to_budget find_entry delete_entry oldest_from
evicted = (refl, refl)

evict_to_budget-order_example : 1 ≤ 2
evict_to_budget-order_example =
    evict_to_budget-order 2 3 full_cache 5 6
      (record { content = raw (1 ∷ 2 ∷ 3 ∷ 4 ∷ []); size = 4; order = 2 })
      (record { content = raw (1 ∷ 2 ∷ 3 ∷ 4 ∷ 5 ∷ []); size = 5; order = 1 }) full_cache-IsCounted
      evicted.1 (unfold find_entry in refl) evicted.0
