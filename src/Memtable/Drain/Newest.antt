-- ===== src/Memtable/Drain/Newest.antt =====
-- A drain keeps the newest record of every key, in ascending order (memtable.go).
use eavt_sql.Prelude.{
  ℕ, zero, suc, ◌<◌, ◌≤◌, ◌≡◌, refl, ap, ◌∙◌, sym, none, some, List, [], ◌∷◌, ◌++◌, is_eq, Ordering,
  length, All, Bool-cases, Option-cases, inl, inr, arith, subst,
}
use eavt_sql.Bytes.Order.{Bytes, cmp_keys, eq_of_cmp_keys}
use eavt_sql.Memtable.Record.{rec_key, cmp_rec}
use eavt_sql.Memtable.Order.{latest, IsAscending}
use eavt_sql.Memtable.Run.{Run}
use eavt_sql.Memtable.Run.Merge.{flatten, AreAscending}
use eavt_sql.Memtable.Drain.{Heads, pick, advance_heads, winners, heads_of, drain_winners}
use eavt_sql.Memtable.Drain.Pick.{records_in, pick-none, pick-All}
use eavt_sql.Memtable.Drain.Winner.{IsWinner, pick-IsWinner}
use eavt_sql.Memtable.Drain.Skip.{
  AllAbove, skip_all, All-skip_equal, IsAscending-skip_equal, advance_heads-skip_all, All-skip_all,
  AllAbove-skip_all, latest-skip_all, latest_own, length-skip_all,
}

module _ (hs : Heads) (b : ℕ) (w : Bytes) (a : All IsAscending hs)
    (e : pick 0 none hs ≡ some (b, w)) where
  won : IsWinner w (records_in hs)
  won = pick-IsWinner 0 none hs b w tt a e

  advanced : advance_heads 0 b w hs ≡ skip_all w hs
  advanced = advance_heads-skip_all 0 none hs b w tt a e

  above : All (AllAbove w) (skip_all w hs)
  above = AllAbove-skip_all w hs a won.least

  AreAscending-round : All IsAscending (skip_all w hs)
  AreAscending-round = All-skip_all IsAscending w hs (IsAscending-skip_equal w) a

  -- Each round has fewer records left.
  length-round : length (records_in (skip_all w hs)) < length (records_in hs)
  length-round = elim (length-skip_all w hs) [
    | inl l ↦ l
    | inr l ↦
        let gone = latest_own w (skip_all w hs) above in
        let still = ap (λ x. latest (rec_key w) (records_in x)) l in
        ground (arith, gone, still, won.newest)
  ]

winners-All {κ} :
    (P : Bytes → Type κ) (fuel : ℕ) (hs : Heads)
    → All IsAscending hs
    → All (All P) hs
    → All P (winners fuel hs)
unfolding winners
winners-All P zero hs a p = tt
winners-All P (suc fuel) hs a p = elim (Option-cases (pick 0 none hs)) [
  | inl e ↦ rw (e, winners) tt
  | inr ((b, w), e) ↦
      rw (e, winners, advanced hs b w a e)
        (
          pick-All P 0 none hs b w tt p e,
          winners-All P fuel (skip_all w hs) (AreAscending-round hs b w a e)
              (All-skip_all (All P) w hs (All-skip_equal w P) p),
        )
]

winners-IsAscending : (fuel : ℕ) (hs : Heads) → All IsAscending hs → IsAscending (winners fuel hs)
unfolding winners
winners-IsAscending zero hs a = tt
winners-IsAscending (suc fuel) hs a = elim (Option-cases (pick 0 none hs)) [
  | inl e ↦ rw (e, winners) tt
  | inr ((b, w), e) ↦
      let rest = AreAscending-round hs b w a e in
      rw (e, winners, advanced hs b w a e)
        (
          winners-All (λ q. cmp_rec w q ≡ Ordering.lt) fuel (skip_all w hs) rest (above hs b w a e),
          winners-IsAscending fuel (skip_all w hs) rest,
        )
]

nil_of_length : (xs : List Bytes) → length xs ≤ 0 → xs ≡ []
nil_of_length [] h = refl
nil_of_length (x ∷ xs) h = absurd (omega arith)

latest-winners :
    (fuel : ℕ) (hs : Heads)
    → All IsAscending hs
    → length (records_in hs) ≤ fuel
    → (k : Bytes) → latest k (winners fuel hs) ≡ latest k (records_in hs)
unfolding winners latest
latest-winners zero hs a h k = ap (latest k) (sym (nil_of_length (records_in hs) h))
latest-winners (suc fuel) hs a h k = elim (Option-cases (pick 0 none hs)) [
  | inl e ↦ ground (arith, pick-none 0 none hs e)
  | inr ((b, w), e) ↦
      let less = length-round hs b w a e in
      let ih =
        latest-winners fuel (skip_all w hs) (AreAscending-round hs b w a e) (omega arith) k in
      rw (e, winners, advanced hs b w a e)
        (elim (Bool-cases (is_eq (cmp_keys (rec_key w) k))) [
          | inr f ↦ ground (arith, ih, latest-skip_all w k hs f)
          | inl f ↦
              let same : rec_key w ≡ k = eq_of_cmp_keys (rec_key w) k (ground arith) in
              let gone : latest k (records_in (skip_all w hs)) ≡ none =
                subst (λ x. latest x (records_in (skip_all w hs)) ≡ none) same
                  (latest_own w (skip_all w hs) (above hs b w a e)) in
              let newest : latest k (records_in hs) ≡ some w =
                subst (λ x. latest x (records_in hs) ≡ some w) same (won hs b w a e).newest in
              ground (arith, ih, gone, newest)
        ])
]

records_in-heads_of : (rs : List Run) → records_in (heads_of rs) ≡ flatten rs
unfolding records_in flatten
records_in-heads_of [] = refl
records_in-heads_of (r ∷ rs) = ap (λ l. r.records ++ l) (records_in-heads_of rs)

AreAscending-heads_of : (rs : List Run) → AreAscending rs → All IsAscending (heads_of rs)
AreAscending-heads_of [] a = tt
AreAscending-heads_of (r ∷ rs) a = (a.0, AreAscending-heads_of rs a.1)

-- One strictly ascending list of records that says of every key what the newest record of the runs
-- says.
pub record IsMergeOf (rs : List Run) (ws : List Bytes) : Type 0 where
  pub ascending : IsAscending ws
  pub newest : (k : Bytes) → latest k ws ≡ latest k (flatten rs)

-- The winning records are a merge of the runs.
pub IsMergeOf-drain_winners : (rs : List Run) → AreAscending rs → IsMergeOf rs (drain_winners rs)
unfolding drain_winners
IsMergeOf-drain_winners rs a =
    let heads = AreAscending-heads_of rs a in
    let same = records_in-heads_of rs in
    let fuel = length (flatten rs) in
    record {
      ascending = winners-IsAscending fuel (heads_of rs) heads;
      newest = λ k.
          latest-winners fuel (heads_of rs) heads (omega (arith, ap length same)) k
          ∙ ap (latest k) same;
    }
