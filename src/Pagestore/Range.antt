-- ===== src/Pagestore/Range.antt =====
-- The order that `CmpSeq` (go/internal/pagestore/types.go) gives the keys, and ranges of keys with
-- an optional end.
use eavt_sql.Prelude.{
  ◌≡◌, refl, sym, Bool, true, false, Option, none, some, List, [], ◌∷◌, arith, is_lt, All, All-map,
  Bool-cases, inl, inr,
}
use eavt_sql.Bytes.Order.{Bytes, cmp_seq}
use eavt_sql.Pagestore.Root.Prefix.{below_end}

unfoldable pub lt : Bytes → Bytes → Bool
lt a b = is_lt (cmp_seq a b)

pub nil-lt : (a : Bytes) → lt a [] ≡ false
unfolding lt cmp_seq
nil-lt [] = refl
nil-lt (x ∷ a) = refl

pub lt_trans : (a b c : Bytes) → lt a b ≡ true → lt b c ≡ true → lt a c ≡ true
unfolding lt cmp_seq
lt_trans [] [] c h k = ground arith
lt_trans [] (b ∷ bs) [] h k = ground arith
lt_trans [] (b ∷ bs) (c ∷ cs) h k = refl
lt_trans (a ∷ as') [] c h k = ground arith
lt_trans (a ∷ as') (b ∷ bs) [] h k = ground arith
lt_trans (a ∷ as') (b ∷ bs) (c ∷ cs) h k = ground (arith, lt_trans as' bs cs)

pub lt_asymm : (a b : Bytes) → lt a b ≡ true → lt b a ≡ false
unfolding lt cmp_seq
lt_asymm [] [] h = ground arith
lt_asymm [] (b ∷ bs) h = refl
lt_asymm (a ∷ as') [] h = ground arith
lt_asymm (a ∷ as') (b ∷ bs) h = ground (arith, lt_asymm as' bs)

pub lt_of_lt_of_le : (a b c : Bytes) → lt a b ≡ true → lt c b ≡ false → lt a c ≡ true
unfolding lt cmp_seq
lt_of_lt_of_le [] [] c h k = ground arith
lt_of_lt_of_le [] (b ∷ bs) [] h k = ground arith
lt_of_lt_of_le [] (b ∷ bs) (c ∷ cs) h k = refl
lt_of_lt_of_le (a ∷ as') [] c h k = ground arith
lt_of_lt_of_le (a ∷ as') (b ∷ bs) [] h k = ground arith
lt_of_lt_of_le (a ∷ as') (b ∷ bs) (c ∷ cs) h k = ground (arith, lt_of_lt_of_le as' bs cs)

pub lt_of_le_of_lt : (a b c : Bytes) → lt b a ≡ false → lt b c ≡ true → lt a c ≡ true
unfolding lt cmp_seq
lt_of_le_of_lt a [] [] h k = ground arith
lt_of_le_of_lt [] [] (c ∷ cs) h k = refl
lt_of_le_of_lt (a ∷ as') [] (c ∷ cs) h k = ground arith
lt_of_le_of_lt a (b ∷ bs) [] h k = ground arith
lt_of_le_of_lt [] (b ∷ bs) (c ∷ cs) h k = refl
lt_of_le_of_lt (a ∷ as') (b ∷ bs) (c ∷ cs) h k = ground (arith, lt_of_le_of_lt as' bs cs)

pub eq_of_le_of_le : (a b : Bytes) → lt a b ≡ false → lt b a ≡ false → a ≡ b
unfolding lt cmp_seq
eq_of_le_of_le [] [] h k = refl
eq_of_le_of_le [] (b ∷ bs) h k = ground arith
eq_of_le_of_le (a ∷ as') [] h k = ground arith
eq_of_le_of_le (a ∷ as') (b ∷ bs) h k = ground (arith, eq_of_le_of_le as' bs)

pub lt_irrefl : (a : Bytes) → lt a a ≡ false
unfolding lt cmp_seq
lt_irrefl [] = refl
lt_irrefl (a ∷ as') = ground (arith, lt_irrefl as')

pub le_trans : (a b c : Bytes) → lt b a ≡ false → lt c b ≡ false → lt c a ≡ false
le_trans a b c h k = elim (Bool-cases (lt c a)) [
  | inl e ↦ ground (arith, lt_of_lt_of_le c a b e h)
  | inr e ↦ e
]

abbrev pub AllAtLeast : Bytes → List Bytes → Type 0
AllAtLeast lo = All (λ k. lt k lo ≡ false)

abbrev pub AllBelow : Option Bytes → List Bytes → Type 0
AllBelow hi = All (λ k. below_end hi k ≡ true)

pub below_end-some : (b k : Bytes) → below_end (some b) k ≡ lt k b
unfolding below_end lt
below_end-some b k = refl

-- An end that a bound is below is above everything below that bound.
pub below_end_trans :
    (hi : Option Bytes) (b k : Bytes)
    → below_end hi b ≡ true
    → lt k b ≡ true
    → below_end hi k ≡ true
unfolding below_end lt
below_end_trans none b k h e = refl
below_end_trans (some c) b k h e = unfold lt in lt_trans k b c e h

-- Strictly ascending keys.
abbrev pub IsAscending : List Bytes → Type 0
IsAscending [] = Unit
IsAscending (k ∷ ks) = All (λ j. lt k j ≡ true) ks × IsAscending ks

pub AllAtLeast-trans :
    (lo lo' : Bytes) (ks : List Bytes) → lt lo' lo ≡ false → AllAtLeast lo' ks → AllAtLeast lo ks
AllAtLeast-trans lo lo' [] h a = tt
AllAtLeast-trans lo lo' (k ∷ ks) h a = (le_trans lo lo' k h a.0, AllAtLeast-trans lo lo' ks h a.1)

pub AllBelow-trans :
    (hi : Option Bytes) (b : Bytes) (ks : List Bytes)
    → below_end hi b ≡ true
    → AllBelow (some b) ks
    → AllBelow hi ks
AllBelow-trans hi b [] h a = tt
AllBelow-trans hi b (k ∷ ks) h a =
    (below_end_trans hi b k h (rw (sym (below_end-some b k)) a.0), AllBelow-trans hi b ks h a.1)

pub AllAtLeast-ascending :
    (k : Bytes) (ks : List Bytes) → All (λ j. lt k j ≡ true) ks → AllAtLeast k ks
AllAtLeast-ascending k ks =
    All-map (λ j. lt k j ≡ true) (λ j. lt j k ≡ false) (λ j. lt_asymm k j) ks
