-- ===== src/Pagestore/Cache/Invariant.antt =====
-- The account of the page cache is kept by every operation: no identifier twice, the counted bytes
-- those of the entries, and within the budget (cache.go).
use eavt_sql.Prelude.{
  ℕ, ◌+◌, ◌≤◌, ◌≡◌, refl, ◌∙◌, sym, List, [], ◌∷◌, leb, ◌==◌, Option, none, if◌then◌else◌, length,
  false, All, Bool-cases, Option-cases, inl, inr, arith, leb→le,
}
use eavt_sql.Pagestore.Cache.{
  Content, Slot, PageCache, new_page_cache, find_entry, remove_entry, slot_for, put_content,
  set_order, touch, get_as,
}
use eavt_sql.Pagestore.Cache.Entries.{AreDistinct, total_size, IsCounted, All-absent}
use eavt_sql.Pagestore.Cache.Eviction.{
  IsCounted-evict_to_budget, max_bytes-evict_to_budget, evict_to_budget-room,
  IsCounted-remove_entry, max_bytes-remove_entry, cur_bytes-remove_entry, find_entry-remove_entry,
  find_entry-evict_to_budget-eq-none, cur_bytes-evict_to_budget,
}

-- The counted bytes also keep to the budget.
pub record IsPageCache (c : PageCache) : Type 0 where
  pub account : IsCounted c
  pub budget : c.cur_bytes ≤ c.max_bytes

-- The state in which `put_content` leaves the map before it stores the entry.
abbrev cleared : ℕ → ℕ → PageCache → PageCache
cleared u sz c = (slot_for u sz c).0

module _ (u sz : ℕ) (c : PageCache) where
  max_bytes-cleared : (cleared u sz c).max_bytes ≡ c.max_bytes
  unfolding slot_for
  max_bytes-cleared =
      max_bytes-evict_to_budget c.max_bytes _ sz (remove_entry u c) (max_bytes-remove_entry u c)

  find_entry-cleared : find_entry u (cleared u sz c).m ≡ none
  unfolding slot_for
  find_entry-cleared =
      find_entry-evict_to_budget-eq-none u _ sz (remove_entry u c) (find_entry-remove_entry u c)

  module _ (i : IsPageCache c) where
    IsCounted-cleared : IsCounted (cleared u sz c)
    unfolding slot_for
    IsCounted-cleared =
        IsCounted-evict_to_budget _ sz (remove_entry u c) (IsCounted-remove_entry u c i.account)

    cleared-budget : (cleared u sz c).cur_bytes ≤ (cleared u sz c).max_bytes
    unfolding slot_for
    cleared-budget =
        let small =
          cur_bytes-evict_to_budget c.cur_bytes (length (remove_entry u c).m) sz (remove_entry u c)
            (cur_bytes-remove_entry u c) in
        omega (arith, small, i.budget, max_bytes-cleared)

    cleared-room : sz ≤ c.max_bytes → (cleared u sz c).cur_bytes + sz ≤ (cleared u sz c).max_bytes
    unfolding slot_for
    cleared-room h =
        let same = max_bytes-remove_entry u c in
        let room =
          evict_to_budget-room (length (remove_entry u c).m) sz (remove_entry u c)
            (IsCounted-remove_entry u c i.account) (omega arith) (omega (arith, same, h)) in
        omega (arith, room, same, max_bytes-cleared)

    -- Putting an entry keeps the account and the budget.
    pub IsPageCache-put_content : (x : Content) → IsPageCache (put_content u x sz c)
    unfolding put_content slot_for total_size
    IsPageCache-put_content x = elim (Bool-cases (leb sz (cleared u sz c).max_bytes)) [
      | inr e ↦
          rw (e, put_content, slot_for)
            (record { account = IsCounted-cleared; budget = cleared-budget })
      | inl e ↦
          rw (e, put_content, slot_for)
            (record {
              account = record {
                distinct = (All-absent u _ find_entry-cleared, IsCounted-cleared.distinct);
                counted = omega (arith, IsCounted-cleared.counted);
              };
              budget =
                  cleared-room
                    (omega (arith, leb→le sz (cleared u sz c).max_bytes e, max_bytes-cleared));
            })
    ]

total_size-set_order : (u n : ℕ) (m : List Slot) → total_size (set_order u n m) ≡ total_size m
unfolding total_size set_order
total_size-set_order u n [] = refl
total_size-set_order u n (s ∷ m) = ground (arith, total_size-set_order u n m)

All-set_order :
    (v u n : ℕ) (m : List Slot)
    → All (λ t. (v == t.0) ≡ false) m
    → All (λ t. (v == t.0) ≡ false) (set_order u n m)
unfolding set_order
All-set_order v u n [] a = tt
All-set_order v u n (s ∷ m) a = elim (Bool-cases (u == s.0)) [
  | inl e ↦ rw e a
  | inr e ↦ rw e (a.0, All-set_order v u n m a.1)
]

AreDistinct-set_order : (u n : ℕ) (m : List Slot) → AreDistinct m → AreDistinct (set_order u n m)
unfolding set_order
AreDistinct-set_order u n [] d = tt
AreDistinct-set_order u n (s ∷ m) d = elim (Bool-cases (u == s.0)) [
  | inl e ↦ rw e d
  | inr e ↦ rw e (All-set_order s.0 u n m d.0, AreDistinct-set_order u n m d.1)
]

IsPageCache-touch : (u : ℕ) (c : PageCache) → IsPageCache c → IsPageCache (touch u c)
unfolding touch
IsPageCache-touch u c i = record {
  account = record {
    distinct = AreDistinct-set_order u c.next_order c.m i.account.distinct;
    counted = i.account.counted ∙ sym (total_size-set_order u c.next_order c.m);
  };
  budget = i.budget;
}

-- Reading an entry keeps the account and the budget.
pub IsPageCache-get_as :
    {A : Type 0} (read : Content → Option A) (u : ℕ) (c : PageCache)
    → IsPageCache c
    → IsPageCache (get_as read u c).0
unfolding get_as
IsPageCache-get_as {A} read u c i = elim (Option-cases (find_entry u c.m)) [
  | inl e ↦ rw (e, get_as) i
  | inr (x, e) ↦ elim (Option-cases (read x.content)) [
    | inl f ↦ rw (e, get_as, f) i
    | inr (a, f) ↦ rw (e, get_as, f) (IsPageCache-touch u c i)
  ]
]

pub IsPageCache-new_page_cache : (max : ℕ) → IsPageCache (new_page_cache max)
unfolding new_page_cache total_size
IsPageCache-new_page_cache max = record {
  account = record { distinct = tt; counted = refl };
  budget = omega arith;
}

-- After a put, a read of the same identifier finds the content if it fits into the budget by
-- itself, and nothing otherwise.
pub get_as-put_content :
    {A : Type 0} (read : Content → Option A) (u sz : ℕ) (x : Content) (c : PageCache)
    → (get_as read u (put_content u x sz c)).1 ≡ (if leb sz c.max_bytes then read x else none)
unfolding get_as put_content find_entry slot_for
get_as-put_content {A} read u sz x c = elim (Bool-cases (leb sz c.max_bytes)) [
  | inl e ↦ ground (arith, max_bytes-cleared u sz c, find_entry-cleared u sz c)
  | inr e ↦ ground (arith, max_bytes-cleared u sz c, find_entry-cleared u sz c)
]
