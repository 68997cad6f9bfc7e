-- ===== src/Prelude/Search.antt =====
-- The loop `for lo < hi { mid := (lo + hi) >> 1; if p(mid) { lo = mid + 1 } else { hi = mid } }`,
-- which the program writes out at each binary search. The fuel is a bound on `hi - lo`.
use Prim.Native.Nat.{ℕ, zero, suc, ◌+◌, ◌-◌, ◌/◌, ◌≤◌, ◌<◌}
use mathlib.Core.Path.{◌≡◌}
use mathlib.Core.Logic.{inl, inr}
use mathlib.Core.Bool.{Bool, true, false}
use native.Mathlib.Omega.{arith}
use eavt_sql.Prelude.Tests.{ltb, leb, ltb→lt, leb→le, Bool-cases}

unfoldable pub lower_bound : ℕ → (ℕ → Bool) → ℕ → ℕ → ℕ
lower_bound zero p lo hi = lo
lower_bound (suc fuel) p lo hi = elim (ltb lo hi) [
  | false ↦ lo
  | true ↦ elim (p ((lo + hi) / 2)) [
    | true ↦ lower_bound fuel p ((lo + hi) / 2 + 1) hi
    | false ↦ lower_bound fuel p lo ((lo + hi) / 2)
  ]
]

-- Below `n` the test holds up to some index and fails from there on.
abbrev pub IsMonotone : (ℕ → Bool) → ℕ → Type 0
IsMonotone p n = (i j : ℕ) → i ≤ j → j < n → p j ≡ true → p i ≡ true

pub record IsBoundary (p : ℕ → Bool) (lo hi r : ℕ) : Type 0 where
  pub above : lo ≤ r
  pub below : r ≤ hi
  pub passed : (i : ℕ) → lo ≤ i → i < r → p i ≡ true
  pub failed : (i : ℕ) → r ≤ i → i < hi → p i ≡ false

module _ (p : ℕ → Bool) (n : ℕ) (mono : IsMonotone p n) where
  fails_above : (i j : ℕ) → i ≤ j → j < n → p i ≡ false → p j ≡ false
  fails_above i j h b e = elim (Bool-cases (p j)) [
    | inl t ↦ ground (arith, mono i j h b t)
    | inr f ↦ f
  ]

  widen_left :
      (lo hi mid : ℕ) {r : ℕ}
      → lo ≤ mid
      → mid < n
      → p mid ≡ true
      → IsBoundary p (mid + 1) hi r
      → IsBoundary p lo hi r
  widen_left lo hi mid {r} h small t b = record {
    above = omega (arith, b.above);
    below = b.below;
    passed = λ i a k. elim (Bool-cases (leb i mid)) [
      | inl e ↦ mono i mid (leb→le i mid e) small t
      | inr e ↦ b.passed i (ground arith) k
    ];
    failed = b.failed;
  }

  widen_right :
      (lo hi mid : ℕ) {r : ℕ}
      → mid < hi
      → hi ≤ n
      → p mid ≡ false
      → IsBoundary p lo mid r
      → IsBoundary p lo hi r
  widen_right lo hi mid {r} h small f b = record {
    above = b.above;
    below = omega (arith, b.below);
    passed = b.passed;
    failed = λ i a k. elim (Bool-cases (ltb i mid)) [
      | inl e ↦ b.failed i a (ltb→lt i mid e)
      | inr e ↦ fails_above mid i (ground arith) (omega arith) f
    ];
  }

  -- With enough fuel the loop ends at the boundary.
  pub lower_bound-IsBoundary :
      (fuel lo hi : ℕ)
      → lo ≤ hi
      → hi ≤ n
      → hi - lo ≤ fuel
      → IsBoundary p lo hi (lower_bound fuel p lo hi)
  unfolding lower_bound
  lower_bound-IsBoundary zero lo hi h small k = record {
    above = omega arith;
    below = h;
    passed = λ i a b. absurd (omega arith);
    failed = λ i a b. absurd (omega arith);
  }
  lower_bound-IsBoundary (suc fuel) lo hi h small k = elim (Bool-cases (ltb lo hi)) [
    | inr e ↦
        rw (e, lower_bound)
          (record {
            above = omega arith;
            below = h;
            passed = λ i a b. absurd (omega arith);
            failed = λ i a b. absurd (ground arith);
          })
    | inl e ↦
        rw (e, lower_bound)
          (elim (Bool-cases (p ((lo + hi) / 2))) [
            | inl t ↦
                rw (t, lower_bound)
                  (widen_left lo hi ((lo + hi) / 2) (ground arith) (ground arith) t (
                    lower_bound-IsBoundary fuel ((lo + hi) / 2 + 1) hi (ground arith) small
                      (ground arith)))
            | inr f ↦
                rw (f, lower_bound)
                  (widen_right lo hi ((lo + hi) / 2) (ground arith) small f (
                    lower_bound-IsBoundary fuel lo ((lo + hi) / 2) (ground arith) (ground arith)
                      (ground arith)))
          ])
  ]
