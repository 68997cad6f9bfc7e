-- ===== src/Memtable/Run/Merge.antt =====
-- Merging ascending runs keeps the newest record of every key.
use eavt_sql.Prelude.{
  ℕ, suc, ◌<◌, ◌≡◌, refl, ap, ◌∙◌, List, [], ◌∷◌, ◌++◌, arith, Ordering, All, All-append,
}
use eavt_sql.Bytes.Order.{Bytes}
use eavt_sql.Memtable.Record.{cmp_rec}
use eavt_sql.Memtable.Order.{latest, IsAscending}
use eavt_sql.Memtable.Run.{Run, Tagged, sort_slice, keep_last, tag_all, tag_runs}
use eavt_sql.Memtable.Run.Sort.{records_of, IsLater, IsTagged, latest-sort_slice, latest-keep_last}

-- Records of one ascending run share no key, and later runs have larger tags.
All-IsLater-same :
    (ri : ℕ) (p : Bytes) (ps : List Bytes)
    → All (λ q. cmp_rec p q ≡ Ordering.lt) ps
    → All (IsLater (p, ri)) (tag_all ri ps)
unfolding tag_all
All-IsLater-same ri p [] a = tt
All-IsLater-same ri p (q ∷ ps) a = ((λ e. ground arith), All-IsLater-same ri p ps a.1)

All-IsLater-tag_all :
    (n ri : ℕ) (p : Bytes) (ps : List Bytes) → n < ri → All (IsLater (p, n)) (tag_all ri ps)
unfolding tag_all
All-IsLater-tag_all n ri p [] h = tt
All-IsLater-tag_all n ri p (q ∷ ps) h = ((λ e. h), All-IsLater-tag_all n ri p ps h)

All-IsLater-tag_runs :
    (n ri : ℕ) (p : Bytes) (rs : List Run) → n < ri → All (IsLater (p, n)) (tag_runs ri rs)
unfolding tag_runs
All-IsLater-tag_runs n ri p [] h = tt
All-IsLater-tag_runs n ri p (r ∷ rs) h =
    All-append (IsLater (p, n)) (tag_all ri r.records) (tag_runs (suc ri) rs)
      (All-IsLater-tag_all n ri p r.records h) (All-IsLater-tag_runs n (suc ri) p rs (omega arith))

IsTagged-run :
    (ri : ℕ) (ps : List Bytes) (rs : List Run)
    → IsAscending ps
    → IsTagged (tag_runs (suc ri) rs)
    → IsTagged (tag_all ri ps ++ tag_runs (suc ri) rs)
unfolding tag_all
IsTagged-run ri [] rs a t = t
IsTagged-run ri (p ∷ ps) rs a t = (
  All-append (IsLater (p, ri)) (tag_all ri ps) (tag_runs (suc ri) rs) (All-IsLater-same ri p ps a.0)
      (All-IsLater-tag_runs ri (suc ri) p rs (omega arith)),
  IsTagged-run ri ps rs a.1 t,
)

abbrev pub AreAscending : List Run → Type 0
AreAscending rs = All (λ r. IsAscending r.records) rs

IsTagged-tag_runs : (ri : ℕ) (rs : List Run) → AreAscending rs → IsTagged (tag_runs ri rs)
unfolding tag_runs
IsTagged-tag_runs ri [] a = tt
IsTagged-tag_runs ri (r ∷ rs) a =
    IsTagged-run ri r.records rs a.0 (IsTagged-tag_runs (suc ri) rs a.1)

-- All the records of some runs, the oldest first.
unfoldable pub flatten : List Run → List Bytes
flatten [] = []
flatten (r ∷ rs) = r.records ++ flatten rs

records_of-tag_all :
    (ri : ℕ) (ps : List Bytes) (l : List Tagged)
    → records_of (tag_all ri ps ++ l) ≡ ps ++ records_of l
unfolding tag_all
records_of-tag_all ri [] l = refl
records_of-tag_all ri (p ∷ ps) l = ap (◌∷◌ p) (records_of-tag_all ri ps l)

records_of-tag_runs : (ri : ℕ) (rs : List Run) → records_of (tag_runs ri rs) ≡ flatten rs
unfolding tag_runs flatten
records_of-tag_runs ri [] = refl
records_of-tag_runs ri (r ∷ rs) =
    records_of-tag_all ri r.records (tag_runs (suc ri) rs)
    ∙ ap (λ l. r.records ++ l) (records_of-tag_runs (suc ri) rs)

-- Merging runs keeps the newest record of every key.
pub latest-merged_runs :
    (key : Bytes) (rs : List Run)
    → AreAscending rs
    → latest key (keep_last (sort_slice (tag_runs 0 rs))) ≡ latest key (flatten rs)
latest-merged_runs key rs a =
    latest-keep_last key (sort_slice (tag_runs 0 rs))
    ∙ latest-sort_slice key (tag_runs 0 rs) (IsTagged-tag_runs 0 rs a)
    ∙ ap (latest key) (records_of-tag_runs 0 rs)
