-- ===== src/Memtable/Cursor/Walk.antt =====
-- A walk over a run gives its records in order (run_cursor.go).
use eavt_sql.Prelude.{
  ℕ, zero, suc, ◌<◌, ◌≤◌, ◌≡◌, refl, sym, ap, ◌∙◌, true, false, Option, none, some, List, [], ◌∷◌,
  if◌then◌else◌, length, get_elem?, drop, arith, Bool-cases, inl, inr, length-drop,
}
use eavt_sql.Bytes.Order.{Bytes}
use eavt_sql.Memtable.Record.{rec_deleted}
use eavt_sql.Memtable.Pairs.{deleted_keys, keys_in}
use eavt_sql.Memtable.Run.{Run}
use eavt_sql.Memtable.Cursor.{
  RunCursor, new_run_cursor, advance, peek, next, skip_live, next_deleted,
}

-- A cursor that is not at the end stands at a record.
abbrev pub IsRunCursor : RunCursor → Type 0
IsRunCursor c = c.at_end ≡ false → c.pos < length c.run.records

-- The records that are still to come.
unfoldable pub remaining : RunCursor → List Bytes
remaining c = if c.at_end then [] else drop c.pos c.run.records

abbrev pub head? {ℓ} : {A : Type ℓ} → List A → Option A
head? [] = none
head? (x ∷ xs) = some x

abbrev pub tail {ℓ} : {A : Type ℓ} → List A → List A
tail [] = []
tail (x ∷ xs) = xs

drop_at :
    (xs : List Bytes) (i : ℕ)
    → i < length xs
    → (p : Bytes) × (get_elem? xs i ≡ some p) × (drop i xs ≡ p ∷ drop (suc i) xs)
drop_at [] i h = absurd (omega arith)
drop_at (x ∷ xs) zero h = (x, refl, refl)
drop_at (x ∷ xs) (suc i) h = let r = drop_at xs i (omega arith) in (r.0, r.1, r.2)

pub drop_all : (xs : List Bytes) (i : ℕ) → length xs ≤ i → drop i xs ≡ []
drop_all [] zero h = refl
drop_all [] (suc i) h = refl
drop_all (x ∷ xs) zero h = absurd (omega arith)
drop_all (x ∷ xs) (suc i) h = drop_all xs i (omega arith)

IsRunCursor-advance : (c : RunCursor) → IsRunCursor c → IsRunCursor (advance c)
unfolding advance
IsRunCursor-advance c i = λ f. ground arith

remaining-cons :
    (c : RunCursor)
    → IsRunCursor c
    → c.at_end ≡ false
    → (p : Bytes) × (get_elem? c.run.records c.pos ≡ some p)
      × (remaining c ≡ p ∷ remaining (advance c))
unfolding remaining advance
remaining-cons c i e =
    let r = drop_at c.run.records c.pos (i e) in
    (r.0, r.1, ground (arith, r.2, drop_all c.run.records (suc c.pos)))

pub IsRunCursor-new_run_cursor : (r : Run) → IsRunCursor (new_run_cursor r)
unfolding new_run_cursor
IsRunCursor-new_run_cursor r = λ e. ground arith

remaining-at_end : (c : RunCursor) → c.at_end ≡ true → remaining c ≡ []
unfolding remaining
remaining-at_end c e = rw e refl

-- A step that gives the first of what is to come, without a panic, and goes past it.
pub record Leaves {ℓ} {A : Type ℓ} (todo : List Bytes → List A) (c : RunCursor)
    (result : Option (RunCursor × Option A)) : Type ℓ where
  pub cursor : RunCursor
  pub ends : result ≡ some (cursor, head? (todo (remaining c)))
  pub invariant : IsRunCursor cursor
  pub rest : todo (remaining cursor) ≡ tail (todo (remaining c))

-- Each `Next` of a well placed cursor gives the key of the first record to come, a tombstone or
-- not, and leaves the records after it.
pub next-Leaves : (c : RunCursor) → IsRunCursor c → Leaves keys_in c (some (next c))
unfolding next peek keys_in
next-Leaves c i = elim (Bool-cases c.at_end) [
  | inl e ↦ record {
    cursor = c;
    ends = ground (arith, remaining-at_end c e);
    invariant = i;
    rest = ground (arith, remaining-at_end c e);
  }
  | inr e ↦
      let r = remaining-cons c i e in
      record {
        cursor = advance c;
        ends = ground (arith, r.1, r.2);
        invariant = IsRunCursor-advance c i;
        rest = rw r.2 refl;
      }
]

skip_live-Leaves :
    (fuel : ℕ) (c : RunCursor)
    → IsRunCursor c
    → length (remaining c) < fuel
    → Leaves deleted_keys c (skip_live fuel c)
unfolding skip_live deleted_keys
skip_live-Leaves zero c i h = absurd (omega arith)
skip_live-Leaves (suc fuel) c i h = elim (Bool-cases c.at_end) [
  | inl e ↦ record {
    cursor = c;
    ends = ground (arith, remaining-at_end c e);
    invariant = i;
    rest = ground (arith, remaining-at_end c e);
  }
  | inr e ↦
      let r = remaining-cons c i e in
      let less : length (remaining (advance c)) < fuel = omega (arith, ap length r.2) in
      elim (Bool-cases (rec_deleted r.0)) [
        | inr d ↦
            let ih = skip_live-Leaves fuel (advance c) (IsRunCursor-advance c i) less in
            let same : deleted_keys (remaining c) ≡ deleted_keys (remaining (advance c)) =
              ground (arith, r.2) in
            record {
              cursor = ih.cursor;
              ends = ground (arith, r.1, ih.ends, same);
              invariant = ih.invariant;
              rest = ih.rest ∙ ap tail (sym same);
            }
        | inl d ↦ record {
          cursor = advance c;
          ends = ground (arith, r.1, r.2);
          invariant = IsRunCursor-advance c i;
          rest = ground (arith, r.2);
        }
      ]
]

length-remaining : (c : RunCursor) → length (remaining c) < suc (length c.run.records)
unfolding remaining
length-remaining c = ground (arith, length-drop c.pos c.run.records)

-- Each `NextDeleted` of a well placed cursor gives, without a panic, the key of the first tombstone
-- to come, and leaves the tombstones after it.
pub next_deleted-Leaves : (c : RunCursor) → IsRunCursor c → Leaves deleted_keys c (next_deleted c)
unfolding next_deleted
next_deleted-Leaves c i = skip_live-Leaves (suc (length c.run.records)) c i (length-remaining c)
