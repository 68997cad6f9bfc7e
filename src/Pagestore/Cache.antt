-- ===== src/Pagestore/Cache.antt =====
-- go/internal/pagestore/cache.go: the page cache, which evicts the least recently used entry. A
-- map is an association list of identifiers; what an entry holds is a parameter of each kind. The
-- counter of uses is below 2 ^ 63. The mutex makes each operation one step.
pub mod Entries
pub mod Eviction
pub mod Invariant
pub mod Recency
use eavt_sql.Prelude.{
  ℕ, zero, suc, ◌+◌, ◌-◌, ◌*◌, ◌^◌, ◌<◌, ◌≤◌, ◌≡◌, List, [], ◌∷◌, leb, ltb, ◌==◌, Option, none,
  some, if◌then◌else◌, length, Bool, true, false, is_eq,
}
use eavt_sql.Bytes.Order.{Bytes, cmp_seq}
use eavt_sql.Pagestore.Page.{IndexEntry}
use eavt_sql.Pagestore.Flat.{FlatLeaf, byte_size}
use eavt_sql.Pagestore.Flat.Pairs.{FlatLeafKv, kv_byte_size}

-- The kind and the content of an entry.
pub data Content : Type 0 where
  raw : Bytes → Content
  index : List IndexEntry → Content
  leaf_keys : FlatLeaf → Content
  leaf_kv : FlatLeafKv → Content

pub record CacheEntry : Type 0 where
  pub content : Content
  pub size : ℕ
  pub order : ℕ

abbrev pub Slot : Type 0
Slot = ℕ × CacheEntry

-- An identifier is the number that its 16 bytes spell.
pub record PageCache : Type 0 where
  pub m : List Slot
  pub max_bytes : ℕ
  pub cur_bytes : ℕ
  pub next_order : ℕ

unfoldable pub new_page_cache : ℕ → PageCache
new_page_cache max = record { m = []; max_bytes = max; cur_bytes = 0; next_order = 1 }

-- `c.m[u]`.
unfoldable pub find_entry : ℕ → List Slot → Option CacheEntry
find_entry u [] = none
find_entry u (s ∷ m) = let rest = find_entry u m in if u == s.0 then some s.1 else rest

-- `delete(c.m, u)`.
unfoldable pub delete_entry : ℕ → List Slot → List Slot
delete_entry u [] = []
delete_entry u (s ∷ m) = let rest = delete_entry u m in if u == s.0 then rest else s ∷ rest

-- The loop for the smallest order; `min_slot` is what it has found so far.
unfoldable pub oldest_from : Slot → List Slot → Slot
oldest_from min_slot [] = min_slot
oldest_from min_slot (s ∷ m) =
    oldest_from (if ltb s.1.order min_slot.1.order then s else min_slot) m

-- `evictToBudget`; the fuel is the number of entries.
unfoldable pub evict_to_budget : ℕ → ℕ → PageCache → PageCache
evict_to_budget zero incoming c = c
evict_to_budget (suc fuel) incoming c = elim c.m [
  | [] ↦ c
  | s ∷ m ↦
      let oldest = oldest_from s m in
      if leb (c.cur_bytes + incoming) c.max_bytes
      then c
      else evict_to_budget fuel incoming
          (record c { m = delete_entry oldest.0 c.m; cur_bytes = c.cur_bytes - oldest.1.size })
]

unfoldable pub remove_entry : ℕ → PageCache → PageCache
unfolding find_entry delete_entry
remove_entry u c = elim (find_entry u c.m) [
  | none ↦ c
  | some e ↦ record c { m = delete_entry u c.m; cur_bytes = c.cur_bytes - e.size }
]

unfoldable pub slot_for : ℕ → ℕ → PageCache → PageCache × Bool
unfolding evict_to_budget remove_entry
slot_for u sz c =
    let c' = remove_entry u c in
    let c'' = evict_to_budget (length c'.m) sz c' in (c'', leb sz c''.max_bytes)

-- The part that the four `put` methods share.
unfoldable pub put_content : ℕ → Content → ℕ → PageCache → PageCache
unfolding slot_for
put_content u content sz c =
    let r = slot_for u sz c in
    if r.1
    then record r.0 {
      m = (u, record { content = content; size = sz; order = r.0.next_order }) ∷ r.0.m;
      cur_bytes = r.0.cur_bytes + sz;
      next_order = r.0.next_order + 1;
    }
    else r.0

unfoldable pub put_bytes : ℕ → Bytes → PageCache → PageCache
unfolding put_content
put_bytes u bs c = put_content u (raw bs) (length bs) c

unfoldable pub index_size : List IndexEntry → ℕ
index_size [] = 0
index_size (e ∷ es) = length e.key + 16 + 32 + index_size es

unfoldable pub put_index : ℕ → List IndexEntry → PageCache → PageCache
unfolding put_content index_size
put_index u entries c = put_content u (index entries) (index_size entries) c

unfoldable pub put_leaf_keys : ℕ → FlatLeaf → PageCache → PageCache
unfolding put_content byte_size
put_leaf_keys u leaf c = put_content u (leaf_keys leaf) (byte_size leaf) c

unfoldable pub put_leaf_kv : ℕ → FlatLeafKv → PageCache → PageCache
unfolding put_content kv_byte_size
put_leaf_kv u leaf c = put_content u (leaf_kv leaf) (kv_byte_size leaf) c

-- The entry that `c.m[u]` points to gets another order.
unfoldable pub set_order : ℕ → ℕ → List Slot → List Slot
set_order u n [] = []
set_order u n (s ∷ m) =
    let rest = set_order u n m in if u == s.0 then (s.0, record s.1 { order = n }) ∷ m else s ∷ rest

unfoldable pub touch : ℕ → PageCache → PageCache
unfolding set_order
touch u c = record c { m = set_order u c.next_order c.m; next_order = c.next_order + 1 }

-- What each `get` method reads out of an entry of its kind.
unfoldable pub as_bytes : Content → Option Bytes
as_bytes (raw bs) = some bs
as_bytes (index es) = none
as_bytes (leaf_keys l) = none
as_bytes (leaf_kv l) = none

unfoldable pub as_index : Content → Option (List IndexEntry)
as_index (raw bs) = none
as_index (index es) = some es
as_index (leaf_keys l) = none
as_index (leaf_kv l) = none

unfoldable pub as_leaf_keys : Content → Option FlatLeaf
as_leaf_keys (raw bs) = none
as_leaf_keys (index es) = none
as_leaf_keys (leaf_keys l) = some l
as_leaf_keys (leaf_kv l) = none

unfoldable pub as_leaf_kv : Content → Option FlatLeafKv
as_leaf_kv (raw bs) = none
as_leaf_kv (index es) = none
as_leaf_kv (leaf_keys l) = none
as_leaf_kv (leaf_kv l) = some l

-- The part that the four `get` methods share: a hit of the right kind is touched.
unfoldable pub get_as : {A : Type 0} → (Content → Option A) → ℕ → PageCache → PageCache × Option A
unfolding find_entry touch
get_as read u c = elim (find_entry u c.m) [
  | none ↦ (c, none)
  | some e ↦ elim (read e.content) [ none ↦ (c, none) | some a ↦ (touch u c, some a) ]
]

unfoldable pub get_bytes : ℕ → PageCache → PageCache × Option Bytes
unfolding get_as as_bytes
get_bytes u c = get_as as_bytes u c

unfoldable pub get_index : ℕ → PageCache → PageCache × Option (List IndexEntry)
unfolding get_as as_index
get_index u c = get_as as_index u c

unfoldable pub get_leaf_keys : ℕ → PageCache → PageCache × Option FlatLeaf
unfolding get_as as_leaf_keys
get_leaf_keys u c = get_as as_leaf_keys u c

unfoldable pub get_leaf_kv : ℕ → PageCache → PageCache × Option FlatLeafKv
unfolding get_as as_leaf_kv
get_leaf_kv u c = get_as as_leaf_kv u c
