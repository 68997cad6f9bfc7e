-- ===== src/Pagestore/Cache/Entries.antt =====
-- The entries of the page cache: finding, deleting and counting them (cache.go).
use eavt_sql.Prelude.{
  ℕ, ◌+◌, ◌-◌, ◌<◌, ◌≤◌, ◌≡◌, refl, List, [], ◌∷◌, ltb, ◌==◌, none, some, if◌then◌else◌, length,
  true, false, All, Bool-cases, inl, inr, arith,
}
use eavt_sql.Pagestore.Cache.{CacheEntry, Slot, PageCache, find_entry, delete_entry, oldest_from}

-- No identifier stands twice.
abbrev pub AreDistinct : List Slot → Type 0
AreDistinct [] = Unit
AreDistinct (s ∷ m) = All (λ t. (s.0 == t.0) ≡ false) m × AreDistinct m

unfoldable pub total_size : List Slot → ℕ
total_size [] = 0
total_size (s ∷ m) = s.1.size + total_size m

-- The counted bytes are those of the entries.
pub record IsCounted (c : PageCache) : Type 0 where
  pub distinct : AreDistinct c.m
  pub counted : c.cur_bytes ≡ total_size c.m

All-delete_entry {κ} :
    (P : Slot → Type κ) (u : ℕ) (m : List Slot) → All P m → All P (delete_entry u m)
unfolding delete_entry
All-delete_entry P u [] a = tt
All-delete_entry P u (s ∷ m) a = elim (Bool-cases (u == s.0)) [
  | inl e ↦ rw e (All-delete_entry P u m a.1)
  | inr e ↦ rw e (a.0, All-delete_entry P u m a.1)
]

AreDistinct-delete_entry : (u : ℕ) (m : List Slot) → AreDistinct m → AreDistinct (delete_entry u m)
unfolding delete_entry
AreDistinct-delete_entry u [] d = tt
AreDistinct-delete_entry u (s ∷ m) d = elim (Bool-cases (u == s.0)) [
  | inl e ↦ rw e (AreDistinct-delete_entry u m d.1)
  | inr e ↦
      rw e (All-delete_entry (λ t. (s.0 == t.0) ≡ false) u m d.0, AreDistinct-delete_entry u m d.1)
]

delete_entry_absent :
    (u v : ℕ) (m : List Slot)
    → (u == v) ≡ true
    → All (λ t. (v == t.0) ≡ false) m
    → delete_entry u m ≡ m
unfolding delete_entry
delete_entry_absent u v [] e a = refl
delete_entry_absent u v (s ∷ m) e a = ground (arith, delete_entry_absent u v m e a.1)

-- Deleting an entry takes its size off the total.
total_size-delete_entry :
    (u : ℕ) (m : List Slot) (e : CacheEntry)
    → AreDistinct m
    → find_entry u m ≡ some e
    → total_size (delete_entry u m) + e.size ≡ total_size m
unfolding total_size delete_entry find_entry
total_size-delete_entry u [] e d h = ground arith
total_size-delete_entry u (s ∷ m) e d h = elim (Bool-cases (u == s.0)) [
  | inl t ↦ ground (arith, delete_entry_absent u s.0 m t d.0)
  | inr t ↦ ground (arith, total_size-delete_entry u m e d.1)
]

pub find_entry-delete_entry :
    (u v : ℕ) (m : List Slot)
    → find_entry v (delete_entry u m) ≡ (if u == v then none else find_entry v m)
unfolding find_entry delete_entry
find_entry-delete_entry u v [] = ground arith
find_entry-delete_entry u v (s ∷ m) = ground (arith, find_entry-delete_entry u v m)

find_own : (m : List Slot) → AreDistinct m → All (λ t. find_entry t.0 m ≡ some t.1) m
unfolding find_entry
find_own [] d = tt
find_own (s ∷ m) d = (ground arith, later m (find_own m d.1) d.0)
  where
    later :
        (l : List Slot)
        → All (λ t. find_entry t.0 m ≡ some t.1) l
        → All (λ t. (s.0 == t.0) ≡ false) l
        → All (λ t. find_entry t.0 (s ∷ m) ≡ some t.1) l
    later [] a b = tt
    later (t ∷ l) a b = (ground (arith, a.0, b.0), later l a.1 b.1)

All-oldest_from {κ} :
    (P : Slot → Type κ) (s : Slot) (m : List Slot) → P s → All P m → P (oldest_from s m)
unfolding oldest_from
All-oldest_from P s [] h a = h
All-oldest_from P s (t ∷ m) h a = elim (Bool-cases (ltb t.1.order s.1.order)) [
  | inl e ↦ rw e (All-oldest_from P t m a.0 a.1)
  | inr e ↦ rw e (All-oldest_from P s m h a.1)
]

pub find_entry-oldest_from :
    (s : Slot) (m : List Slot)
    → AreDistinct (s ∷ m)
    → find_entry (oldest_from s m).0 (s ∷ m) ≡ some (oldest_from s m).1
find_entry-oldest_from s m d =
    let own = find_own (s ∷ m) d in
    All-oldest_from (λ t. find_entry t.0 (s ∷ m) ≡ some t.1) s m own.0 own.1

length-delete_entry_le : (u : ℕ) (m : List Slot) → length (delete_entry u m) ≤ length m
unfolding delete_entry
length-delete_entry_le u [] = omega arith
length-delete_entry_le u (s ∷ m) = ground (arith, length-delete_entry_le u m)

-- An entry that is found makes the map shorter when it is deleted.
pub length-delete_entry :
    (u : ℕ) (m : List Slot) (e : CacheEntry)
    → find_entry u m ≡ some e
    → length (delete_entry u m) < length m
unfolding delete_entry find_entry
length-delete_entry u [] e h = ground arith
length-delete_entry u (s ∷ m) e h =
    ground (arith, length-delete_entry u m e, length-delete_entry_le u m)

-- The state after one entry is deleted.
abbrev pub without : ℕ → CacheEntry → PageCache → PageCache
without u e c = record c { m = delete_entry u c.m; cur_bytes = c.cur_bytes - e.size }

pub IsCounted-without :
    (u : ℕ) (e : CacheEntry) (c : PageCache)
    → find_entry u c.m ≡ some e
    → IsCounted c
    → IsCounted (without u e c)
IsCounted-without u e c h i = record {
  distinct = AreDistinct-delete_entry u c.m i.distinct;
  counted = omega (arith, total_size-delete_entry u c.m e i.distinct h, i.counted);
}

pub All-absent : (u : ℕ) (m : List Slot) → find_entry u m ≡ none → All (λ t. (u == t.0) ≡ false) m
unfolding find_entry
All-absent u [] h = tt
All-absent u (s ∷ m) h = (ground arith, All-absent u m (ground arith))
