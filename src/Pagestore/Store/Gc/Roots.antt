-- ===== src/Pagestore/Store/Gc/Roots.antt =====
-- `ClassifyRoots` (go/internal/pagestore/gc.go): which roots are kept.
use eavt_sql.Prelude.{
  ℕ, suc, ◌*◌, ◌%◌, ◌-◌, drop, Option-cases, ◌<◌, ◌≤◌, ◌^◌, ◌≡◌, refl, false, List, [], ◌∷◌, ◌++◌,
  length, arith, Bool-cases, inl, inr,
}
use mathlib.Core.List.{Perm, perm_middle}
use mathlib.Core.List.Perm
use eavt_sql.Pagestore.Root.Prefix.{has_prefix}
use eavt_sql.Bytes.Order.{Bytes}
use eavt_sql.Pagestore.Store.Gc.{
  parse_uint, root_prefix, sub64, parse_root_us, is_removed, classify_from, classify_roots,
}

module _ (latest max_age max_count : ℕ) where
  classify_from-Perm :
      (i : ℕ) (names : List Bytes)
      → Perm
          ((classify_from latest max_age max_count i names).0
            ++ (classify_from latest max_age max_count i names).1)
          names
  unfolding classify_from
  classify_from-Perm i [] = Perm.rfl
  classify_from-Perm i (name ∷ names) =
      let rest = classify_from latest max_age max_count (suc i) names in
      let more = classify_from-Perm (suc i) names in
      elim (Bool-cases (is_removed latest max_age max_count i name)) [
        | inl e ↦
            rw (e, classify_from) (Perm.trans (perm_middle rest.0 rest.1) (Perm.cons name more))
        | inr e ↦ rw (e, classify_from) (Perm.cons name more)
      ]

  -- From the index on at most as many roots are kept as the count allows.
  length-classify_from :
      (i : ℕ) (names : List Bytes)
      → 0 < max_count
      → length (classify_from latest max_age max_count i names).0 ≤ max_count - i
  unfolding classify_from is_removed
  length-classify_from i [] h = omega arith
  length-classify_from i (name ∷ names) h =
      let more = length-classify_from (suc i) names h in
      elim (Bool-cases (is_removed latest max_age max_count i name)) [
        | inl e ↦ rw (e, classify_from) (omega (arith, more))
        | inr e ↦
            let below : i < max_count = ground (arith, e, h) in
            rw (e, classify_from) (omega (arith, more, below))
      ]

-- The roots are split, and none is lost.
pub classify_roots-Perm :
    (roots : List Bytes) (max_age_secs max_count : ℕ)
    → Perm
        ((classify_roots roots max_age_secs max_count).0
          ++ (classify_roots roots max_age_secs max_count).1)
        roots
unfolding classify_roots
classify_roots-Perm [] max_age_secs max_count = Perm.rfl
classify_roots-Perm (name ∷ names) max_age_secs max_count =
    classify_from-Perm _ _ max_count 0 (name ∷ names)

-- With a positive count no more roots are kept than the count.
pub length-classify_roots :
    (roots : List Bytes) (max_age_secs max_count : ℕ)
    → 0 < max_count
    → length (classify_roots roots max_age_secs max_count).0 ≤ max_count
unfolding classify_roots
length-classify_roots [] max_age_secs max_count h = omega arith
length-classify_roots (name ∷ names) max_age_secs max_count h =
    let kept =
      length-classify_from (parse_root_us name) (max_age_secs * 1000000 % 2 ^ 64) max_count 0
        (name ∷ names) h in
    omega (arith, kept)

parse_root_us_lt : (name : Bytes) → parse_root_us name < 2 ^ 64
unfolding parse_root_us
parse_root_us_lt name = elim (Bool-cases (has_prefix root_prefix name)) [
  | inl e ↦
      rw (e, parse_root_us)
        (elim (Option-cases (parse_uint (drop 5 name))) [
          | inl n ↦ rw (n, parse_root_us) (omega arith)
          | inr (bits, n) ↦ rw (n, parse_root_us) (omega arith)
        ])
  | inr e ↦ rw (e, parse_root_us) (omega arith)
]

newest_kept :
    (name : Bytes) (max_age max_count : ℕ)
    → max_age < 2 ^ 63
    → is_removed (parse_root_us name) max_age max_count 0 name ≡ false
unfolding is_removed
newest_kept name max_age max_count h =
    let none_old : sub64 (parse_root_us name) (parse_root_us name) ≡ 0 =
      omega (arith, parse_root_us_lt name) in
    rw none_old (ground (arith, h))

-- With an age of fewer than 2 ^ 63 microseconds the first root is kept, as the first of the kept
-- ones.
pub classify_roots-newest :
    (name : Bytes) (names : List Bytes) (max_age_secs max_count : ℕ)
    → max_age_secs * 1000000 < 2 ^ 63
    → (rest : List Bytes) × ((classify_roots (name ∷ names) max_age_secs max_count).0 ≡ name ∷ rest)
unfolding classify_roots classify_from
classify_roots-newest name names max_age_secs max_count h =
    let max_age = max_age_secs * 1000000 % 2 ^ 64 in
    let kept = newest_kept name max_age max_count (omega (arith, h)) in
    (
      (classify_from (parse_root_us name) max_age max_count 1 names).0,
      rw (kept, classify_from) refl,
    )
