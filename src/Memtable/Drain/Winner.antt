-- ===== src/Memtable/Drain/Winner.antt =====
-- The winner of a round of the drain: the newest record of the least key (memtable.go).
use eavt_sql.Prelude.{
  ℕ, suc, ◌≡◌, ◌∙◌, sym, true, Option, none, some, List, [], ◌∷◌, ◌++◌, Ordering, All, All-append,
  All-map, Ordering-cases, inl, inr, arith, subst,
}
use eavt_sql.Bytes.Order.{
  Bytes, cmp_keys, cmp_keys-flip, cmp_keys_refl, cmp_keys_trans, eq_of_cmp_keys,
}
use eavt_sql.Memtable.Record.{rec_key, cmp_rec}
use eavt_sql.Memtable.Order.{latest, latest-append, IsAscending, not_gt, not_gt_trans}
use eavt_sql.Memtable.Run.Search.{latest_of_head}
use eavt_sql.Memtable.Drain.{Heads, choose, pick}
use eavt_sql.Memtable.Drain.Pick.{records_in, found, IsBefore, IsBefore-suc, IsBefore-choose}

-- No record of the list is below `w`.
abbrev pub AllFrom : Bytes → List Bytes → Type 0
AllFrom w ps = All (λ q. not_gt (cmp_rec w q) ≡ true) ps

AllFrom-run :
    (w p : Bytes) (ps : List Bytes)
    → not_gt (cmp_rec w p) ≡ true
    → All (λ q. cmp_rec p q ≡ Ordering.lt) ps
    → AllFrom w ps
unfolding cmp_rec
AllFrom-run w p ps h a =
    All-map {A = Bytes} (λ q. cmp_rec p q ≡ Ordering.lt) (λ q. not_gt (cmp_rec w q) ≡ true)
      (λ q l. not_gt_trans (rec_key w) (rec_key p) (rec_key q) h (ground arith)) ps a

pub latest-run :
    (w p : Bytes) (ps rest : List Bytes)
    → not_gt (cmp_rec w p) ≡ true
    → All (λ q. cmp_rec p q ≡ Ordering.lt) ps
    → latest (rec_key w) (p ∷ (ps ++ rest)) ≡ latest (rec_key w) (p ∷ rest)
unfolding latest cmp_rec
latest-run w p ps rest h a =
    let flip = cmp_keys-flip (rec_key w) (rec_key p) in
    ground (
      arith,
      latest-append (rec_key w) ps rest,
      latest_of_head p (rec_key w) ps a (ground (arith, flip)),
    )

-- What makes a record the winner among some: none is below it, and it is the newest of its key.
pub record IsWinner (w : Bytes) (ps : List Bytes) : Type 0 where
  pub least : AllFrom w ps
  pub newest : latest (rec_key w) ps ≡ some w

IsWinner-alone : (w : Bytes) → IsWinner w (w ∷ [])
unfolding latest cmp_rec
IsWinner-alone w = record {
  least = (ground (arith, cmp_keys_refl (rec_key w)), tt);
  newest = ground (arith, cmp_keys_refl (rec_key w));
}

-- A run in front of the others adds nothing above its first record.
IsWinner-run :
    (w p : Bytes) (ps rest : List Bytes)
    → All (λ q. cmp_rec p q ≡ Ordering.lt) ps
    → IsWinner w (p ∷ rest)
    → IsWinner w (p ∷ (ps ++ rest))
IsWinner-run w p ps rest a i = record {
  least = (
    i.least.0,
    All-append (λ q. not_gt (cmp_rec w q) ≡ true) ps rest (AllFrom-run w p ps i.least.0 a)
        i.least.1,
  );
  newest = latest-run w p ps rest i.least.0 a ∙ i.newest;
}

-- An older record that is not below the winner changes nothing.
IsWinner-older :
    (w p q : Bytes) (ps : List Bytes)
    → not_gt (cmp_rec p q) ≡ true
    → IsWinner w (p ∷ ps)
    → IsWinner w (q ∷ p ∷ ps)
unfolding latest cmp_rec
IsWinner-older w p q ps h i = record {
  least = (not_gt_trans (rec_key w) (rec_key p) (rec_key q) i.least.0 h, i.least);
  newest = ground (arith, i.newest);
}

cmp_keys-lt_of_lt :
    (a b c : Bytes)
    → not_gt (cmp_keys a b) ≡ true
    → cmp_keys b c ≡ Ordering.lt
    → cmp_keys a c ≡ Ordering.lt
cmp_keys-lt_of_lt a b c h k = elim (Ordering-cases (cmp_keys a b)) [
  | inl e ↦ cmp_keys_trans a b c e k
  | inr (inl e) ↦ subst (λ x. cmp_keys x c ≡ Ordering.lt) (sym (eq_of_cmp_keys a b e)) k
  | inr (inr e) ↦ ground arith
]

-- A run above the record found so far changes nothing.
IsWinner-above :
    (w p q : Bytes) (ps rest : List Bytes)
    → cmp_rec q p ≡ Ordering.lt
    → All (λ r. cmp_rec p r ≡ Ordering.lt) ps
    → IsWinner w (q ∷ rest)
    → IsWinner w (q ∷ p ∷ (ps ++ rest))
unfolding latest cmp_rec
IsWinner-above w p q ps rest h a i =
    let low : not_gt (cmp_keys (rec_key w) (rec_key p)) ≡ true =
      not_gt_trans (rec_key w) (rec_key q) (rec_key p) i.least.0 (ground arith) in
    let above : cmp_keys (rec_key w) (rec_key p) ≡ Ordering.lt =
      cmp_keys-lt_of_lt (rec_key w) (rec_key q) (rec_key p) i.least.0 h in
    record {
      least = (
        i.least.0,
        (
          low,
          All-append (λ q. not_gt (cmp_rec w q) ≡ true) ps rest (AllFrom-run w p ps low a)
              i.least.1,
        ),
      );
      newest = ground (
        arith,
        i.newest,
        latest-run w p ps rest low a,
        above,
        cmp_keys-flip (rec_key w) (rec_key p),
      );
    }

pub pick-IsWinner :
    (i : ℕ) (best : Option (ℕ × Bytes)) (hs : Heads) (b : ℕ) (w : Bytes)
    → IsBefore best i
    → All IsAscending hs
    → pick i best hs ≡ some (b, w)
    → IsWinner w (found best ++ records_in hs)
unfolding pick records_in choose
pick-IsWinner i best [] b w h a e =
    subst (λ o. IsWinner w (found o ++ [])) (sym e) (IsWinner-alone w)
pick-IsWinner i best ([] ∷ hs) b w h a e =
    pick-IsWinner (suc i) best hs b w (IsBefore-suc best i h) a.1 e
pick-IsWinner i none ((p ∷ ps) ∷ hs) b w h a e =
    IsWinner-run w p ps (records_in hs) a.0.0
      (pick-IsWinner (suc i) (some (i, p)) hs b w (omega arith) a.1 e)
pick-IsWinner i (some (c, q)) ((p ∷ ps) ∷ hs) b w h a e =
    let ih =
      pick-IsWinner (suc i) (choose i p (some (c, q))) hs b w (IsBefore-choose i p (some (c, q)) h)
        a.1 e in
    let taken : choose i p (some (c, q)) ≡ some (i, p)
        → not_gt (cmp_rec p q) ≡ true
        → IsWinner w (q ∷ p ∷ (ps ++ records_in hs)) =
      λ t l. IsWinner-older w p q (ps ++ records_in hs) l (
        IsWinner-run w p ps (records_in hs) a.0.0
          (subst (λ o. IsWinner w (found o ++ records_in hs)) t ih)) in
    elim (Ordering-cases (cmp_rec p q)) [
      | inl f ↦ taken (ground arith) (ground arith)
      | inr (inl f) ↦ taken (ground arith) (ground arith)
      | inr (inr f) ↦
          let t : choose i p (some (c, q)) ≡ some (c, q) = ground arith in
          IsWinner-above w p q ps (records_in hs)
            (unfold cmp_rec in ground (arith, cmp_keys-flip (rec_key p) (rec_key q))) a.0.0
            (subst (λ o. IsWinner w (found o ++ records_in hs)) t ih)
    ]
