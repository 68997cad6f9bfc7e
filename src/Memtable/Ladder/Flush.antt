-- ===== src/Memtable/Ladder/Flush.antt =====
-- Freezing the ladder for a flush, and publishing after it.
use eavt_sql.Prelude.{
  ℕ, zero, suc, ◌<◌, ◌≡◌, refl, ap, ◌∙◌, Option, none, some, [], ◌++◌, arith, or_else,
  if◌then◌else◌, ltb, ◌==◌, Bool-cases, inl, inr, lt→ltb,
}
use eavt_sql.Bytes.Order.{Bytes}
use eavt_sql.Memtable.Order.{latest}
use eavt_sql.Memtable.Run.Merge.{flatten}
use eavt_sql.Memtable.Ladder.{
  Column, MemTable, absent, is_kv, materialize_column, merge_column, settle, each_cf,
  materialize_all, drain_column, start_drain, freeze_all_capture, drop_draining, publish,
  freeze_buffer,
}
use eavt_sql.Memtable.Ladder.Read.{lookup_kv}
use eavt_sql.Memtable.Ladder.Lookup.{IsLadder, history, kind_of?}
use eavt_sql.Memtable.Ladder.Writes.{
  newest_of, newest_of-parts, IsLadder-materialize_column, IsLadder-merge_column,
}
use eavt_sql.Memtable.Ladder.Table.{
  IsMemTable, SameNewest, SameNewest-trans, settle-SameNewest, IsMemTable-settle,
  columns-materialize_locked, columns-maybe_merge_locked, lookup_kv-newest,
}
use eavt_sql.Memtable.Ladder.Answers.{SameAnswers, SameAnswers-of-newest}

-- A step that replaces one family's column, done for every family below a bound.
each_cf-columns :
    (f : ℕ → MemTable → MemTable) (g : ℕ → Column → Column)
    → ((cf : ℕ) (mt : MemTable) (j : ℕ)
        → (f cf mt).columns j ≡ (if cf == j then g cf (mt.columns cf) else mt.columns j))
    → (n : ℕ) (mt : MemTable) (j : ℕ)
    → (each_cf n f mt).columns j ≡ (if ltb j n then g j (mt.columns j) else mt.columns j)
unfolding each_cf
each_cf-columns f g step zero mt j = ground arith
each_cf-columns f g step (suc n) mt j = ground (
  arith,
  step n (each_cf n f mt) j,
  each_cf-columns f g step n mt j,
  each_cf-columns f g step n mt n,
)

abbrev settle_column : ℕ → Column → Column
settle_column cf c = merge_column (is_kv cf) (materialize_column (is_kv cf) c)

settle-columns :
    (cf : ℕ) (mt : MemTable) (j : ℕ)
    → (settle cf mt).columns j
      ≡ (if cf == j then settle_column cf (mt.columns cf) else mt.columns j)
unfolding settle
settle-columns cf mt j = ground (
  arith,
  columns-maybe_merge_locked cf _ j,
  columns-materialize_locked cf mt j,
  columns-materialize_locked cf mt cf,
)

settled :
    (cf : ℕ) (c : Column)
    → ((settle_column cf c).buf ≡ []) × ((settle_column cf c).draining ≡ c.draining)
unfolding merge_column materialize_column freeze_buffer
settled cf c = ground arith

each_cf-num_cf :
    (f : ℕ → MemTable → MemTable)
    → ((cf : ℕ) (mt : MemTable) → (f cf mt).num_cf ≡ mt.num_cf)
    → (n : ℕ) (mt : MemTable) → (each_cf n f mt).num_cf ≡ mt.num_cf
unfolding each_cf
each_cf-num_cf f step zero mt = refl
each_cf-num_cf f step (suc n) mt = step n _ ∙ each_cf-num_cf f step n mt

each_settled :
    (n : ℕ) (mt : MemTable)
    → IsMemTable mt
    → SameNewest mt (each_cf n settle mt) × IsMemTable (each_cf n settle mt)
unfolding each_cf
each_settled zero mt h = (record { families = refl; newest = λ cf key. refl }, h)
each_settled (suc n) mt h =
    let (s, k) = each_settled n mt h in
    (SameNewest-trans s (settle-SameNewest n _ k), IsMemTable-settle n _ k)

-- Materializing every family changes no answer.
pub materialize_all-SameAnswers :
    (mt : MemTable) → IsMemTable mt → SameAnswers mt (materialize_all mt)
unfolding materialize_all
materialize_all-SameAnswers mt h =
    let (s, k) = each_settled mt.num_cf mt h in SameAnswers-of-newest mt _ h k s

or_else-none {ℓ} : {A : Type ℓ} (o : Option A) → or_else o none ≡ o
or_else-none none = refl
or_else-none (some a) = refl

drain_column-newest :
    (c : Column) (key : Bytes)
    → c.buf ≡ []
    → c.draining ≡ []
    → newest_of (drain_column c) key ≡ newest_of c key
drain_column-newest c key b d =
    newest_of-parts (drain_column c) key
    ∙ unfold latest flatten in
      ground (arith, newest_of-parts c key, or_else-none (latest key (flatten c.runs)))

freeze_all_capture-columns :
    (mt : MemTable) (j : ℕ)
    → (freeze_all_capture mt).columns j
      ≡ (if ltb j mt.num_cf then drain_column (settle_column j (mt.columns j)) else mt.columns j)
unfolding freeze_all_capture materialize_all start_drain
freeze_all_capture-columns mt j =
    each_cf-columns start_drain (λ cf c. drain_column c) (λ cf t i. refl) mt.num_cf
      (each_cf mt.num_cf settle mt) j
    ∙ ground (arith, each_cf-columns settle settle_column settle-columns mt.num_cf mt j)

pub freeze_all_capture-num_cf :
    (mt : MemTable) → IsMemTable mt → (freeze_all_capture mt).num_cf ≡ mt.num_cf
unfolding freeze_all_capture materialize_all start_drain
freeze_all_capture-num_cf mt h =
    each_cf-num_cf start_drain (λ cf t. refl) mt.num_cf (each_cf mt.num_cf settle mt)
    ∙ (each_settled mt.num_cf mt h).0.families

IsLadder-drained : (cf : ℕ) (c : Column) → IsLadder c → IsLadder (drain_column (settle_column cf c))
IsLadder-drained cf c l =
    let l' = IsLadder-merge_column (is_kv cf) _ (IsLadder-materialize_column (is_kv cf) c l) in
    record { active = tt; drained = l'.active }

pub IsMemTable-freeze_all_capture :
    (mt : MemTable) → IsMemTable mt → IsMemTable (freeze_all_capture mt)
IsMemTable-freeze_all_capture mt h j =
    rw (freeze_all_capture-columns mt j) (elim (Bool-cases (ltb j mt.num_cf)) [
      | inl e ↦ rw e (IsLadder-drained j (mt.columns j) (h j))
      | inr e ↦ rw e (h j)
    ])

settle_column-newest :
    (j : ℕ) (mt : MemTable) (key : Bytes)
    → IsMemTable mt
    → newest_of (settle_column j (mt.columns j)) key ≡ newest_of (mt.columns j) key
settle_column-newest j mt key h = ground (
  arith,
  (settle-SameNewest j mt h).newest j key,
  settle-columns j mt j,
  ap (λ c. newest_of c key) (settle-columns j mt j),
)

freeze_all_capture-SameNewest :
    (mt : MemTable)
    → IsMemTable mt
    → ((cf : ℕ) → (mt.columns cf).draining ≡ [])
    → SameNewest mt (freeze_all_capture mt)
freeze_all_capture-SameNewest mt h idle = record {
  families = freeze_all_capture-num_cf mt h;
  newest = λ j key.
      let c = settle_column j (mt.columns j) in
      let s = settled j (mt.columns j) in
      rw (freeze_all_capture-columns mt j) (elim (Bool-cases (ltb j mt.num_cf)) [
        | inl e ↦
            rw e (drain_column-newest c key s.0 (s.1 ∙ idle j) ∙ settle_column-newest j mt key h)
        | inr e ↦ rw e
      ]);
}

-- When no flush is running, freezing the ladder changes no answer, and leaves every family with
-- an empty buffer, no active run and size 0.
pub freeze_all_capture-SameAnswers :
    (mt : MemTable)
    → IsMemTable mt
    → ((cf : ℕ) → (mt.columns cf).draining ≡ [])
    → SameAnswers mt (freeze_all_capture mt)
      × ((cf : ℕ)
          → cf < mt.num_cf
          → (((freeze_all_capture mt).columns cf).runs ≡ [])
            × (((freeze_all_capture mt).columns cf).buf ≡ [])
            × (((freeze_all_capture mt).columns cf).cf_size ≡ 0))
freeze_all_capture-SameAnswers mt h idle = (
  SameAnswers-of-newest mt (freeze_all_capture mt) h (IsMemTable-freeze_all_capture mt h)
      (freeze_all_capture-SameNewest mt h idle),
  λ cf known. rw (freeze_all_capture-columns mt cf, lt→ltb cf mt.num_cf known) (refl, refl, refl),
)

publish-columns :
    (mt : MemTable) (j : ℕ)
    → (publish mt).columns j
      ≡ (if ltb j mt.num_cf then record (mt.columns j) { draining = [] } else mt.columns j)
unfolding publish drop_draining
publish-columns mt j =
    each_cf-columns drop_draining (λ cf c. record c { draining = [] }) (λ cf t i. refl) mt.num_cf mt
      j

IsMemTable-publish : (mt : MemTable) → IsMemTable mt → IsMemTable (publish mt)
IsMemTable-publish mt h j = rw (publish-columns mt j) (elim (Bool-cases (ltb j mt.num_cf)) [
  | inl e ↦ rw e (record { active = (h j).active; drained = tt })
  | inr e ↦ rw e (h j)
])

publish-num_cf : (mt : MemTable) → (publish mt).num_cf ≡ mt.num_cf
unfolding publish drop_draining
publish-num_cf mt = each_cf-num_cf drop_draining (λ cf t. refl) mt.num_cf mt

-- After a publish a lookup in a known family answers by the active runs and the buffer alone.
pub publish-lookup_kv :
    (mt : MemTable)
    → IsMemTable mt
    → (cf : ℕ) (key : Bytes) → cf < mt.num_cf
    → lookup_kv cf key (publish mt)
      ≡ some (kind_of? (latest key (flatten (mt.columns cf).runs ++ (mt.columns cf).buf)))
publish-lookup_kv mt h cf key known =
    lookup_kv-newest cf key (publish mt) (IsMemTable-publish mt h)
    ∙ rw
        (
          publish-num_cf mt,
          lt→ltb cf mt.num_cf known,
          publish-columns mt cf,
          lt→ltb cf mt.num_cf known,
        )
        (unfold newest_of history flatten in refl)

-- Every key frozen by a flush is gone from the table once the flush is published.
pub publish-freeze_all_capture :
    (mt : MemTable)
    → IsMemTable mt
    → (cf : ℕ) (key : Bytes) → cf < mt.num_cf
    → lookup_kv cf key (publish (freeze_all_capture mt)) ≡ some absent
publish-freeze_all_capture mt h cf key known =
    publish-lookup_kv (freeze_all_capture mt) (IsMemTable-freeze_all_capture mt h) cf key
      (rw (freeze_all_capture-num_cf mt h) known)
    ∙ rw (freeze_all_capture-columns mt cf, lt→ltb cf mt.num_cf known)
        (unfold latest flatten in refl)
