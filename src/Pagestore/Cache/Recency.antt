-- ===== src/Pagestore/Cache/Recency.antt =====
-- What the page cache evicts, and what a read finds after a put (cache.go).
use eavt_sql.Prelude.{
  ℕ, zero, suc, ◌+◌, ◌≤◌, ◌≡◌, List, [], ◌∷◌, leb, ltb, ◌==◌, none, some, if◌then◌else◌, length,
  All, Bool-cases, inl, inr, arith, subst,
}
use eavt_sql.Bytes.Order.{Bytes}
use eavt_sql.Pagestore.Cache.{
  CacheEntry, raw, Slot, PageCache, find_entry, delete_entry, oldest_from, evict_to_budget,
  put_bytes, get_bytes, as_bytes,
}
use eavt_sql.Pagestore.Cache.Entries.{
  IsCounted, IsCounted-without, find_entry-oldest_from, find_entry-delete_entry,
}
use eavt_sql.Pagestore.Cache.Eviction.{cache_of}
use eavt_sql.Pagestore.Cache.Invariant.{get_as-put_content}

-- After a put of bytes, a read of the same identifier gives them if they fit into the budget by
-- themselves, and nothing otherwise.
pub get_bytes-put_bytes :
    (u : ℕ) (bs : Bytes) (c : PageCache)
    → (get_bytes u (put_bytes u bs c)).1 ≡ (if leb (length bs) c.max_bytes then some bs else none)
unfolding get_bytes put_bytes as_bytes
get_bytes-put_bytes u bs c = get_as-put_content as_bytes u (length bs) (raw bs) c

-- The slot that the loop finds has the smallest order.
oldest_from-least :
    (k : ℕ) (s : Slot) (m : List Slot)
    → k ≤ (oldest_from s m).1.order
    → All (λ t. k ≤ t.1.order) (s ∷ m)
unfolding oldest_from
oldest_from-least k s [] h = (h, tt)
oldest_from-least k s (t ∷ m) h = elim (Bool-cases (ltb t.1.order s.1.order)) [
  | inl e ↦
      let ih = oldest_from-least k t m (rw (e, oldest_from) at h) in (ground (arith, ih.0), ih)
  | inr e ↦
      let ih = oldest_from-least k s m (rw (e, oldest_from) at h) in
      (ih.0, (ground (arith, ih.0), ih.1))
]

All-find_entry {κ} :
    (Q : CacheEntry → Type κ) (u : ℕ) (m : List Slot) (e : CacheEntry)
    → All (λ t. Q t.1) m
    → find_entry u m ≡ some e
    → Q e
unfolding find_entry
All-find_entry Q u [] e a h = ground arith
All-find_entry Q u (s ∷ m) e a h = elim (Bool-cases (u == s.0)) [
  | inl t ↦ subst Q (ground arith) a.0
  | inr t ↦ All-find_entry Q u m e a.1 (ground arith)
]

-- An entry that survives an eviction was there before.
find_entry-evict_to_budget :
    (u fuel incoming : ℕ) (c : PageCache) (e : CacheEntry)
    → find_entry u (evict_to_budget fuel incoming c).m ≡ some e
    → find_entry u c.m ≡ some e
unfolding evict_to_budget
find_entry-evict_to_budget u fuel incoming c e h =
    go fuel c.m c.max_bytes c.cur_bytes c.next_order h
  where
    go :
        (fuel : ℕ) (m : List Slot) (max cur next : ℕ)
        → find_entry u (evict_to_budget fuel incoming (cache_of m max cur next)).m ≡ some e
        → find_entry u m ≡ some e
    go zero m max cur next h = h
    go (suc fuel) [] max cur next h = h
    go (suc fuel) (s ∷ m) max cur next h = elim (Bool-cases (leb (cur + incoming) max)) [
      | inl t ↦ rw t at h
      | inr t ↦
          let ih = go fuel _ max _ next (rw t at h) in
          ground (arith, ih, find_entry-delete_entry (oldest_from s m).0 u (s ∷ m))
    ]

-- In a cache whose account is right, eviction takes the least recently used entries: one that is
-- gone is no newer than one that stays.
pub evict_to_budget-order :
    (fuel incoming : ℕ) (c : PageCache) (u v : ℕ) (kept gone : CacheEntry)
    → IsCounted c
    → find_entry u (evict_to_budget fuel incoming c).m ≡ some kept
    → find_entry v c.m ≡ some gone
    → find_entry v (evict_to_budget fuel incoming c).m ≡ none
    → gone.order ≤ kept.order
unfolding evict_to_budget
evict_to_budget-order fuel incoming c u v kept gone i h k l =
    go fuel c.m c.max_bytes c.cur_bytes c.next_order i h k l
  where
    go :
        (fuel : ℕ) (m : List Slot) (max cur next : ℕ)
        → IsCounted (cache_of m max cur next)
        → find_entry u (evict_to_budget fuel incoming (cache_of m max cur next)).m ≡ some kept
        → find_entry v m ≡ some gone
        → find_entry v (evict_to_budget fuel incoming (cache_of m max cur next)).m ≡ none
        → gone.order ≤ kept.order
    go zero m max cur next i h k l = ground arith
    go (suc fuel) [] max cur next i h k l = ground arith
    go (suc fuel) (s ∷ m) max cur next i h k l = elim (Bool-cases (leb (cur + incoming) max)) [
      | inl t ↦ let l' : find_entry v (s ∷ m) ≡ none = rw t at l in ground arith
      | inr t ↦
          let o = oldest_from s m in
          let found = find_entry-oldest_from s m i.distinct in
          let h' = rw t at h in
          let l' = rw t at l in
          let stays : find_entry u (delete_entry o.0 (s ∷ m)) ≡ some kept =
            find_entry-evict_to_budget u fuel incoming _ kept h' in
          let was : find_entry u (s ∷ m) ≡ some kept =
            ground (arith, stays, find_entry-delete_entry o.0 u (s ∷ m)) in
          let newer : o.1.order ≤ kept.order =
            All-find_entry (λ x. o.1.order ≤ x.order) u (s ∷ m) kept
              (oldest_from-least o.1.order s m (omega arith)) was in
          elim (Bool-cases (o.0 == v)) [
            | inl w ↦ ground (arith, newer, found)
            | inr w ↦
                let still : find_entry v (delete_entry o.0 (s ∷ m)) ≡ some gone =
                  ground (arith, find_entry-delete_entry o.0 v (s ∷ m)) in
                go fuel _ max _ next (IsCounted-without _ _ (cache_of (s ∷ m) max cur next) found i)
                  h' still l'
          ]
    ]
