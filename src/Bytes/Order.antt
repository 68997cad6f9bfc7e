-- ===== src/Bytes/Order.antt =====
-- Byte-lexicographic comparison: `CmpKeys` (go/internal/memtable/memtable.go) and `CmpSeq`
-- (go/internal/pagestore/types.go). The results -1, 0 and 1 are the three orderings. The loop over
-- the common length and the switch on the lengths are one recursion on both slices.
use eavt_sql.Prelude.{ℕ, ◌≡◌, refl, List, [], ◌∷◌, arith, Ordering, ltb, ◌==◌, if◌then◌else◌}

abbrev pub Bytes : Type 0
Bytes = List ℕ

unfoldable pub cmp_keys : Bytes → Bytes → Ordering
cmp_keys [] [] = Ordering.eq
cmp_keys [] (b ∷ bs) = Ordering.lt
cmp_keys (a ∷ as') [] = Ordering.gt
cmp_keys (a ∷ as') (b ∷ bs) =
    if a == b then cmp_keys as' bs else if ltb a b then Ordering.lt else Ordering.gt

unfoldable pub cmp_seq : Bytes → Bytes → Ordering
cmp_seq [] [] = Ordering.eq
cmp_seq [] (b ∷ bs) = Ordering.lt
cmp_seq (a ∷ as') [] = Ordering.gt
cmp_seq (a ∷ as') (b ∷ bs) =
    let rest = cmp_seq as' bs in
    if ltb a b then Ordering.lt else if ltb b a then Ordering.gt else rest

-- The two packages compare alike.
pub cmp_keys-eq-cmp_seq : (a b : Bytes) → cmp_keys a b ≡ cmp_seq a b
unfolding cmp_keys cmp_seq
cmp_keys-eq-cmp_seq [] [] = refl
cmp_keys-eq-cmp_seq [] (b ∷ bs) = refl
cmp_keys-eq-cmp_seq (a ∷ as') [] = refl
cmp_keys-eq-cmp_seq (a ∷ as') (b ∷ bs) = ground (arith, cmp_keys-eq-cmp_seq as' bs)

pub cmp_keys_refl : (a : Bytes) → cmp_keys a a ≡ Ordering.eq
unfolding cmp_keys
cmp_keys_refl [] = refl
cmp_keys_refl (a ∷ as') = ground (arith, cmp_keys_refl as')

pub eq_of_cmp_keys : (a b : Bytes) → cmp_keys a b ≡ Ordering.eq → a ≡ b
unfolding cmp_keys
eq_of_cmp_keys [] [] h = refl
eq_of_cmp_keys [] (b ∷ bs) h = ground arith
eq_of_cmp_keys (a ∷ as') [] h = ground arith
eq_of_cmp_keys (a ∷ as') (b ∷ bs) h = ground (arith, eq_of_cmp_keys as' bs)

abbrev pub flip : Ordering → Ordering
flip Ordering.lt = Ordering.gt
flip Ordering.eq = Ordering.eq
flip Ordering.gt = Ordering.lt

pub cmp_keys-flip : (a b : Bytes) → cmp_keys b a ≡ flip (cmp_keys a b)
unfolding cmp_keys
cmp_keys-flip [] [] = refl
cmp_keys-flip [] (b ∷ bs) = refl
cmp_keys-flip (a ∷ as') [] = refl
cmp_keys-flip (a ∷ as') (b ∷ bs) = ground (arith, cmp_keys-flip as' bs)

pub cmp_keys_trans :
    (a b c : Bytes)
    → cmp_keys a b ≡ Ordering.lt
    → cmp_keys b c ≡ Ordering.lt
    → cmp_keys a c ≡ Ordering.lt
unfolding cmp_keys
cmp_keys_trans [] [] c h k = ground arith
cmp_keys_trans [] (b ∷ bs) [] h k = ground arith
cmp_keys_trans [] (b ∷ bs) (c ∷ cs) h k = refl
cmp_keys_trans (a ∷ as') [] c h k = ground arith
cmp_keys_trans (a ∷ as') (b ∷ bs) [] h k = ground arith
cmp_keys_trans (a ∷ as') (b ∷ bs) (c ∷ cs) h k = ground (arith, cmp_keys_trans as' bs cs)
