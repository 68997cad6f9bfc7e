-- ===== src/Memtable/Drain/Pick.antt =====
-- The loop of a drain for the best head: where its result comes from (memtable.go).
use eavt_sql.Prelude.{
  ℕ, suc, ◌<◌, ◌≤◌, ◌≡◌, refl, ◌∙◌, sym, Option, none, some, List, [], ◌∷◌, ◌++◌, ltb, All,
  Bool-cases, Ordering-cases, ◌⊎◌, inl, inr, arith, subst,
}
use eavt_sql.Bytes.Order.{Bytes}
use eavt_sql.Memtable.Record.{cmp_rec}
use eavt_sql.Memtable.Drain.{Heads, choose, pick}

-- All the records that are still to come, the oldest run first.
unfoldable pub records_in : Heads → List Bytes
records_in [] = []
records_in (h ∷ hs) = h ++ records_in hs

pub choose-cases :
    (i : ℕ) (p : Bytes) (best : Option (ℕ × Bytes))
    → (choose i p best ≡ some (i, p)) ⊎ (choose i p best ≡ best)
unfolding choose
choose-cases i p none = inl refl
choose-cases i p (some (b, q)) = elim (Ordering-cases (cmp_rec p q)) [
  | inl e ↦ inl (ground arith)
  | inr (inl e) ↦ elim (Bool-cases (ltb b i)) [
    | inl t ↦ inl (ground arith)
    | inr t ↦ inr (ground arith)
  ]
  | inr (inr e) ↦ inr (ground arith)
]

-- A winner that stands before the runs looked at is the one found before.
pub pick-before :
    (j : ℕ) (best : Option (ℕ × Bytes)) (hs : Heads) (b : ℕ) (w : Bytes)
    → pick j best hs ≡ some (b, w)
    → b < j
    → best ≡ some (b, w)
unfolding pick
pick-before j best [] b w e h = e
pick-before j best ([] ∷ hs) b w e h = pick-before (suc j) best hs b w e (omega arith)
pick-before j best ((p ∷ ps) ∷ hs) b w e h =
    let ih = pick-before (suc j) (choose j p best) hs b w e (omega arith) in
    elim (choose-cases j p best) [ inl c ↦ ground (arith, c, ih) | inr c ↦ sym c ∙ ih ]

no_choice : (i : ℕ) (p : Bytes) (best : Option (ℕ × Bytes)) → choose i p best ≡ none → 1 ≤ 0
unfolding choose
no_choice i p none e = ground arith
no_choice i p (some (b, q)) e = ground arith

-- There is no winner only when no record is left.
pub pick-none :
    (i : ℕ) (best : Option (ℕ × Bytes)) (hs : Heads) → pick i best hs ≡ none → records_in hs ≡ []
unfolding pick records_in
pick-none i best [] e = refl
pick-none i best ([] ∷ hs) e = pick-none (suc i) best hs e
pick-none i best ((p ∷ ps) ∷ hs) e =
    absurd (omega (arith, no_choice i p best (never (suc i) (choose i p best) hs e)))
  where
    never : (j : ℕ) (o : Option (ℕ × Bytes)) (l : Heads) → pick j o l ≡ none → o ≡ none
    never j o [] e = e
    never j o ([] ∷ l) e = never (suc j) o l e
    never j o ((q ∷ qs) ∷ l) e =
        absurd (omega (arith, no_choice j q o (never (suc j) (choose j q o) l e)))

-- The record found so far.
abbrev pub found : Option (ℕ × Bytes) → List Bytes
found none = []
found (some (b, q)) = q ∷ []

abbrev pub IsBefore : Option (ℕ × Bytes) → ℕ → Type 0
IsBefore none i = Unit
IsBefore (some (b, q)) i = b < i

-- Every winner is one of the records.
pub pick-All {κ} :
    (P : Bytes → Type κ) (i : ℕ) (best : Option (ℕ × Bytes)) (hs : Heads) (b : ℕ) (w : Bytes)
    → All P (found best)
    → All (All P) hs
    → pick i best hs ≡ some (b, w)
    → P w
unfolding pick
pick-All P i best [] b w h a e = (subst (λ o. All P (found o)) e h).0
pick-All P i best ([] ∷ hs) b w h a e = pick-All P (suc i) best hs b w h a.1 e
pick-All P i best ((p ∷ ps) ∷ hs) b w h a e =
    let chosen : All P (found (choose i p best)) = elim (choose-cases i p best) [
      | inl c ↦ subst (λ o. All P (found o)) (sym c) (a.0.0, tt)
      | inr c ↦ subst (λ o. All P (found o)) (sym c) h
    ] in
    pick-All P (suc i) (choose i p best) hs b w chosen a.1 e

pub IsBefore-suc : (best : Option (ℕ × Bytes)) (i : ℕ) → IsBefore best i → IsBefore best (suc i)
IsBefore-suc none i h = tt
IsBefore-suc (some x) i h = omega arith

pub IsBefore-choose :
    (i : ℕ) (p : Bytes) (best : Option (ℕ × Bytes))
    → IsBefore best i
    → IsBefore (choose i p best) (suc i)
IsBefore-choose i p best h = elim (choose-cases i p best) [
  | inl c ↦ subst (λ o. IsBefore o (suc i)) (sym c) (omega arith)
  | inr c ↦ subst (λ o. IsBefore o (suc i)) (sym c) (IsBefore-suc best i h)
]
