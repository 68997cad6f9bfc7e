-- ===== src/Pagestore/Root/Prefix.antt =====
-- `PrefixEnd` bounds exactly the keys that have the prefix.
use eavt_sql.Prelude.{
  ◌<◌, ◌≡◌, refl, Bool, true, false, ◌&&◌, not, Option, none, some, [], ◌∷◌, arith, is_lt, ltb,
  ◌==◌, All, Bool-cases, Option-cases, inl, inr,
}
use eavt_sql.Bytes.Order.{Bytes, cmp_seq}
use eavt_sql.Pagestore.Root.{prefix_end}

unfoldable pub has_prefix : Bytes → Bytes → Bool
has_prefix [] key = true
has_prefix (p ∷ ps) [] = false
has_prefix (p ∷ ps) (k ∷ ks) = p == k && has_prefix ps ks

abbrev pub AreBytes : Bytes → Type 0
AreBytes = All (λ b. b < 256)

-- `e` bounds the prefix: a key has the prefix exactly when it is not below it and below `e`.
unfoldable pub below_end : Option Bytes → Bytes → Bool
below_end none key = true
below_end (some e) key = is_lt (cmp_seq key e)

cmp_seq-nil : (ks : Bytes) → is_lt (cmp_seq ks []) ≡ false
unfolding cmp_seq
cmp_seq-nil [] = refl
cmp_seq-nil (k ∷ ks) = refl

-- A key has the prefix exactly when it is not below the prefix and, if the prefix has an end,
-- below that end.
pub prefix_end-bounds :
    (prefix key : Bytes)
    → AreBytes prefix
    → AreBytes key
    → has_prefix prefix key ≡ not (is_lt (cmp_seq key prefix)) && below_end (prefix_end prefix) key
unfolding has_prefix below_end prefix_end cmp_seq
prefix_end-bounds [] [] a b = refl
prefix_end-bounds [] (k ∷ ks) a b = refl
prefix_end-bounds (p ∷ ps) [] a b = ground arith
prefix_end-bounds (p ∷ ps) (k ∷ ks) a b = elim (Option-cases (prefix_end ps)) [
  | inl e ↦ elim (Bool-cases (ltb p 255)) [
    | inl f ↦ rw (e, f) (ground (arith, prefix_end-bounds ps ks a.1 b.1, cmp_seq-nil ks))
    | inr f ↦ rw (e, f) (ground (arith, prefix_end-bounds ps ks a.1 b.1, cmp_seq-nil ks))
  ]
  | inr (x, e) ↦ rw e (ground (arith, prefix_end-bounds ps ks a.1 b.1, cmp_seq-nil ks))
]
