-- ===== src/Memtable/Drain/Skip.antt =====
-- The heads of a drain after a round: the records of the winner's key are gone (memtable.go).
use eavt_sql.Prelude.{
  ℕ, suc, ◌<◌, ◌≡◌, refl, ap, ap₂, ◌∙◌, sym, true, false, Option, none, some, List, [], ◌∷◌, ◌==◌,
  is_eq, Ordering, or_else, length, All, All-map, All-split, Bool-cases, Ordering-cases, ◌⊎◌, inl,
  inr, arith, subst, length-append,
}
use eavt_sql.Bytes.Order.{Bytes, cmp_keys, cmp_keys-flip, cmp_keys_refl, eq_of_cmp_keys}
use eavt_sql.Memtable.Record.{rec_key, cmp_rec}
use eavt_sql.Memtable.Order.{latest, latest-append, IsAscending, not_gt, cmp_keys-lt_of_not_gt}
use eavt_sql.Memtable.Drain.{Heads, choose, pick, skip_equal, past_head, advance_heads}
use eavt_sql.Memtable.Drain.Pick.{
  records_in, IsBefore, IsBefore-suc, IsBefore-choose, choose-cases, pick-before,
}
use eavt_sql.Memtable.Drain.Winner.{AllFrom}

abbrev pub AllAbove : Bytes → List Bytes → Type 0
AllAbove w ps = All (λ q. cmp_rec w q ≡ Ordering.lt) ps

skip_equal_above : (w : Bytes) (ps : List Bytes) → AllAbove w ps → skip_equal w ps ≡ ps
unfolding skip_equal cmp_rec
skip_equal_above w [] a = refl
skip_equal_above w (q ∷ ps) a = ground (arith, cmp_keys-flip (rec_key w) (rec_key q), a.0)

module _ (w : Bytes) where
  AllAbove-skip_equal : (h : List Bytes) → IsAscending h → AllFrom w h → AllAbove w (skip_equal w h)
  unfolding skip_equal cmp_rec
  AllAbove-skip_equal [] a l = tt
  AllAbove-skip_equal (p ∷ ps) a l = elim (Bool-cases (is_eq (cmp_rec p w))) [
    | inl e ↦ rw e (AllAbove-skip_equal ps a.1 l.1)
    | inr e ↦
        let lt : cmp_keys (rec_key w) (rec_key p) ≡ Ordering.lt =
          ground (arith, cmp_keys-flip (rec_key w) (rec_key p), l.0) in
        rw e (
          lt,
          All-map {A = Bytes} (λ q. cmp_rec p q ≡ Ordering.lt) (λ q. cmp_rec w q ≡ Ordering.lt)
              (λ q m. cmp_keys-lt_of_not_gt (rec_key w) (rec_key p) (rec_key q) lt (ground arith))
              ps a.0,
        )
  ]

  pub All-skip_equal {κ} : (P : Bytes → Type κ) (h : List Bytes) → All P h → All P (skip_equal w h)
  unfolding skip_equal
  All-skip_equal P [] a = tt
  All-skip_equal P (p ∷ ps) a = elim (Bool-cases (is_eq (cmp_rec p w))) [
    | inl e ↦ rw e (All-skip_equal P ps a.1)
    | inr e ↦ rw e a
  ]

  pub IsAscending-skip_equal : (h : List Bytes) → IsAscending h → IsAscending (skip_equal w h)
  unfolding skip_equal
  IsAscending-skip_equal [] a = tt
  IsAscending-skip_equal (p ∷ ps) a = elim (Bool-cases (is_eq (cmp_rec p w))) [
    | inl e ↦ rw e (IsAscending-skip_equal ps a.1)
    | inr e ↦ rw e a
  ]

  latest_above : (h : List Bytes) → AllAbove w h → latest (rec_key w) h ≡ none
  unfolding latest cmp_rec
  latest_above [] a = refl
  latest_above (q ∷ ps) a =
      ground (arith, latest_above ps a.1, a.0, cmp_keys-flip (rec_key w) (rec_key q))

  -- Skipping takes the records of the winner's key away, and no other.
  latest-skip_equal :
      (k : Bytes) (h : List Bytes)
      → is_eq (cmp_keys (rec_key w) k) ≡ false
      → latest k (skip_equal w h) ≡ latest k h
  unfolding latest skip_equal cmp_rec
  latest-skip_equal k [] e = refl
  latest-skip_equal k (p ∷ ps) e = elim (Ordering-cases (cmp_rec p w)) [
    | inl f ↦ ground arith
    | inr (inl f) ↦
        let same = ap (λ x. cmp_keys x k) (eq_of_cmp_keys (rec_key p) (rec_key w) f) in
        ground (arith, latest-skip_equal k ps e, same)
    | inr (inr f) ↦ ground arith
  ]

  -- The heads after a round.
  unfoldable pub skip_all : Heads → Heads
  unfolding skip_equal
  skip_all [] = []
  skip_all (h ∷ hs) = skip_equal w h ∷ skip_all hs

  length-skip_equal : (h : List Bytes) → (length (skip_equal w h) < length h) ⊎ (skip_equal w h ≡ h)
  unfolding skip_equal
  length-skip_equal [] = inr refl
  length-skip_equal (p ∷ ps) = elim (Bool-cases (is_eq (cmp_rec p w))) [
    | inl e ↦
        inl (elim (length-skip_equal ps) [
          | inl l ↦ ground arith
          | inr l ↦ ground (arith, ap length l)
        ])
    | inr e ↦ inr (ground arith)
  ]

skip_equal_own :
    (w : Bytes) (ps : List Bytes)
    → All (λ q. cmp_rec w q ≡ Ordering.lt) ps
    → skip_equal w (w ∷ ps) ≡ ps
unfolding skip_equal cmp_rec
skip_equal_own w ps a = ground (arith, cmp_keys_refl (rec_key w), skip_equal_above w ps a)

-- The best run moves past the winner alone, which is all that it has with that key.
pub advance_heads-skip_all :
    (i : ℕ) (best : Option (ℕ × Bytes)) (hs : Heads) (b : ℕ) (w : Bytes)
    → IsBefore best i
    → All IsAscending hs
    → pick i best hs ≡ some (b, w)
    → advance_heads i b w hs ≡ skip_all w hs
unfolding advance_heads skip_all pick past_head
advance_heads-skip_all i best [] b w h a e = refl
advance_heads-skip_all i best ([] ∷ hs) b w h a e =
    let ih = advance_heads-skip_all (suc i) best hs b w (IsBefore-suc best i h) a.1 e in
    unfold skip_equal in ground (arith, ih)
advance_heads-skip_all i best ((p ∷ ps) ∷ hs) b w h a e =
    let ih =
      advance_heads-skip_all (suc i) (choose i p best) hs b w (IsBefore-choose i p best h) a.1 e in
    elim (Bool-cases (i == b)) [
      | inr t ↦ ground (arith, ih)
      | inl t ↦
          let here = pick-before (suc i) (choose i p best) hs b w e (ground arith) in
          elim (choose-cases i p best) [
            | inl c ↦
                let same : p ≡ w = ground (arith, c, here) in
                let own : skip_equal w (p ∷ ps) ≡ ps =
                  subst (λ x. skip_equal x (p ∷ ps) ≡ ps) same (skip_equal_own p ps a.0.0) in
                ground (arith, ih, own)
            | inr c ↦
                let early : b < i = subst (λ o. IsBefore o i) (sym c ∙ here) h in
                absurd (ground arith)
          ]
    ]

pub All-skip_all {κ} :
    (P : List Bytes → Type κ) (w : Bytes) (hs : Heads)
    → ((h : List Bytes) → P h → P (skip_equal w h))
    → All P hs
    → All P (skip_all w hs)
unfolding skip_all
All-skip_all P w [] f a = tt
All-skip_all P w (h ∷ hs) f a = (f h a.0, All-skip_all P w hs f a.1)

pub AllAbove-skip_all :
    (w : Bytes) (hs : Heads)
    → All IsAscending hs
    → AllFrom w (records_in hs)
    → All (AllAbove w) (skip_all w hs)
unfolding skip_all records_in
AllAbove-skip_all w [] a l = tt
AllAbove-skip_all w (h ∷ hs) a l =
    let parts = All-split (λ q. not_gt (cmp_rec w q) ≡ true) h (records_in hs) l in
    (AllAbove-skip_equal w h a.0 parts.0, AllAbove-skip_all w hs a.1 parts.1)

pub latest-skip_all :
    (w k : Bytes) (hs : Heads)
    → is_eq (cmp_keys (rec_key w) k) ≡ false
    → latest k (records_in (skip_all w hs)) ≡ latest k (records_in hs)
unfolding skip_all records_in
latest-skip_all w k [] e = refl
latest-skip_all w k (h ∷ hs) e =
    latest-append k (skip_equal w h) (records_in (skip_all w hs))
    ∙ ap₂ or_else (latest-skip_all w k hs e) (latest-skip_equal w k h e)
    ∙ sym (latest-append k h (records_in hs))

pub latest_own :
    (w : Bytes) (hs : Heads) → All (AllAbove w) hs → latest (rec_key w) (records_in hs) ≡ none
unfolding records_in
latest_own w [] a = unfold latest in refl
latest_own w (h ∷ hs) a =
    ground (
      arith,
      latest-append (rec_key w) h (records_in hs),
      latest_own w hs a.1,
      latest_above w h a.0,
    )

pub length-skip_all :
    (w : Bytes) (hs : Heads)
    → (length (records_in (skip_all w hs)) < length (records_in hs)) ⊎ (skip_all w hs ≡ hs)
unfolding skip_all records_in
length-skip_all w [] = inr refl
length-skip_all w (h ∷ hs) =
    let sum = length-append h (records_in hs) in
    let sum' = length-append (skip_equal w h) (records_in (skip_all w hs)) in
    elim (length-skip_equal w h) [
      | inl l ↦ elim (length-skip_all w hs) [
        | inl m ↦ inl (omega arith)
        | inr m ↦ inl (omega (arith, ap (λ x. length (records_in x)) m))
      ]
      | inr l ↦ elim (length-skip_all w hs) [
        | inl m ↦ inl (omega (arith, ap length l))
        | inr m ↦ inr (ap₂ (◌∷◌) l m)
      ]
    ]
