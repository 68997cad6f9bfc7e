-- ===== src/Pagestore/Cache/Eviction.antt =====
-- The loop that evicts entries, and the removal of one entry (cache.go).
use eavt_sql.Prelude.{
  ℕ, zero, suc, ◌+◌, ◌≤◌, ◌≡◌, List, [], ◌∷◌, leb, none, length, Bool-cases, Option-cases, inl, inr,
  arith, leb→le,
}
use eavt_sql.Pagestore.Cache.{
  Slot, PageCache, find_entry, oldest_from, evict_to_budget, remove_entry,
}
use eavt_sql.Pagestore.Cache.Entries.{
  total_size, IsCounted, without, IsCounted-without, find_entry-oldest_from,
  find_entry-delete_entry, length-delete_entry,
}

-- The state of these four parts.
abbrev pub cache_of : List Slot → ℕ → ℕ → ℕ → PageCache
cache_of m max cur next = record { m = m; max_bytes = max; cur_bytes = cur; next_order = next }

-- A property that every deletion of an oldest entry keeps holds after the eviction.
evict_to_budget_induction {κ} :
    (P : PageCache → Type κ)
    → ((s : Slot) (m : List Slot) (max cur next : ℕ)
        → P (cache_of (s ∷ m) max cur next)
        → P (without (oldest_from s m).0 (oldest_from s m).1 (cache_of (s ∷ m) max cur next)))
    → (fuel incoming : ℕ) (c : PageCache) → P c
    → P (evict_to_budget fuel incoming c)
unfolding evict_to_budget
evict_to_budget_induction P step fuel incoming c h =
    go fuel c.m c.max_bytes c.cur_bytes c.next_order h
  where
    go :
        (fuel : ℕ) (m : List Slot) (max cur next : ℕ)
        → P (cache_of m max cur next)
        → P (evict_to_budget fuel incoming (cache_of m max cur next))
    go zero m max cur next h = h
    go (suc fuel) [] max cur next h = h
    go (suc fuel) (s ∷ m) max cur next h = elim (Bool-cases (leb (cur + incoming) max)) [
      | inl e ↦ rw e h
      | inr e ↦ rw e (go fuel _ max _ next (step s m max cur next h))
    ]

pub IsCounted-evict_to_budget :
    (fuel incoming : ℕ) (c : PageCache) → IsCounted c → IsCounted (evict_to_budget fuel incoming c)
IsCounted-evict_to_budget = evict_to_budget_induction IsCounted λ s m max cur next i.
    IsCounted-without _ _ (cache_of (s ∷ m) max cur next) (find_entry-oldest_from s m i.distinct) i

pub max_bytes-evict_to_budget :
    (n fuel incoming : ℕ) (c : PageCache)
    → c.max_bytes ≡ n
    → (evict_to_budget fuel incoming c).max_bytes ≡ n
max_bytes-evict_to_budget n =
    evict_to_budget_induction (λ c. c.max_bytes ≡ n) λ s m max cur next e. e

-- With one unit of fuel for each entry, the eviction makes room for what fits at all.
pub evict_to_budget-room :
    (fuel incoming : ℕ) (c : PageCache)
    → IsCounted c
    → length c.m ≤ fuel
    → incoming ≤ c.max_bytes
    → (evict_to_budget fuel incoming c).cur_bytes + incoming ≤ c.max_bytes
unfolding evict_to_budget total_size
evict_to_budget-room fuel incoming c i h k = go fuel c.m c.max_bytes c.cur_bytes c.next_order i h k
  where
    go :
        (fuel : ℕ) (m : List Slot) (max cur next : ℕ)
        → IsCounted (cache_of m max cur next)
        → length m ≤ fuel
        → incoming ≤ max
        → (evict_to_budget fuel incoming (cache_of m max cur next)).cur_bytes + incoming ≤ max
    go zero [] max cur next i h k = omega (arith, i.counted)
    go zero (s ∷ m) max cur next i h k = omega arith
    go (suc fuel) [] max cur next i h k = omega (arith, i.counted)
    go (suc fuel) (s ∷ m) max cur next i h k = elim (Bool-cases (leb (cur + incoming) max)) [
      | inl e ↦ rw e (leb→le (cur + incoming) max e)
      | inr e ↦
          let found = find_entry-oldest_from s m i.distinct in
          rw e (
            go fuel _ max _ next (IsCounted-without _ _ (cache_of (s ∷ m) max cur next) found i)
              (omega (arith, h, length-delete_entry _ (s ∷ m) _ found)) k)
    ]

pub IsCounted-remove_entry : (u : ℕ) (c : PageCache) → IsCounted c → IsCounted (remove_entry u c)
unfolding remove_entry
IsCounted-remove_entry u c i = elim (Option-cases (find_entry u c.m)) [
  | inl e ↦ rw (e, remove_entry) i
  | inr (e, h) ↦ rw (h, remove_entry) (IsCounted-without u e c h i)
]

pub max_bytes-remove_entry : (u : ℕ) (c : PageCache) → (remove_entry u c).max_bytes ≡ c.max_bytes
unfolding remove_entry
max_bytes-remove_entry u c = ground arith

pub cur_bytes-remove_entry : (u : ℕ) (c : PageCache) → (remove_entry u c).cur_bytes ≤ c.cur_bytes
unfolding remove_entry
cur_bytes-remove_entry u c = ground arith

-- The identifier is gone from the map when its entry is put.
pub find_entry-remove_entry : (u : ℕ) (c : PageCache) → find_entry u (remove_entry u c).m ≡ none
unfolding remove_entry
find_entry-remove_entry u c = ground (arith, find_entry-delete_entry u u c.m)

pub find_entry-evict_to_budget-eq-none :
    (u fuel incoming : ℕ) (c : PageCache)
    → find_entry u c.m ≡ none
    → find_entry u (evict_to_budget fuel incoming c).m ≡ none
find_entry-evict_to_budget-eq-none u =
    evict_to_budget_induction (λ c. find_entry u c.m ≡ none)
      λ s m max cur next e. ground (arith, find_entry-delete_entry (oldest_from s m).0 u (s ∷ m))

pub cur_bytes-evict_to_budget :
    (n fuel incoming : ℕ) (c : PageCache)
    → c.cur_bytes ≤ n
    → (evict_to_budget fuel incoming c).cur_bytes ≤ n
cur_bytes-evict_to_budget n =
    evict_to_budget_induction (λ c. c.cur_bytes ≤ n) λ s m max cur next e. omega arith
