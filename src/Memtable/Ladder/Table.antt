-- ===== src/Memtable/Ladder/Table.antt =====
-- The operations on the whole table, through the newest record of each key in each family.
use eavt_sql.Prelude.{
  ℕ, ◌<◌, ◌^◌, ◌≡◌, refl, ◌∙◌, Bool, none, some, arith, if◌then◌else◌, length, leb, ltb, is_eq,
  ◌==◌, ◌&&◌, Bool-cases, inl, inr,
}
use eavt_sql.Bytes.Order.{Bytes, cmp_keys}
use eavt_sql.Memtable.Record.{make_rec}
use eavt_sql.Memtable.Ladder.{
  MemTable, max_buf_entries, set_column, is_kv, materialize_column, materialize_locked,
  merge_column, maybe_merge_locked, settle, append_column, append_rec_locked,
}
use eavt_sql.Memtable.Ladder.Read.{lookup_kv, get_value}
use eavt_sql.Memtable.Ladder.Lookup.{
  IsLadder, kind_of?, value_of?, lookup_kv_locked-newest, get_value_locked-newest,
}
use eavt_sql.Memtable.Ladder.Writes.{
  newest_of, materialize_column-newest, merge_column-newest, append_column-newest,
  IsLadder-materialize_column, IsLadder-merge_column, IsLadder-append_column,
}

abbrev pub IsMemTable : MemTable → Type 0
IsMemTable mt = (cf : ℕ) → IsLadder (mt.columns cf)

-- The same families, and the same newest record of each key in each of them.
pub record SameNewest (mt mt' : MemTable) : Type 0 where
  pub families : mt'.num_cf ≡ mt.num_cf
  pub newest :
      (cf : ℕ) (key : Bytes) → newest_of (mt'.columns cf) key ≡ newest_of (mt.columns cf) key

pub SameNewest-trans :
    {mt mt' mt'' : MemTable} → SameNewest mt mt' → SameNewest mt' mt'' → SameNewest mt mt''
SameNewest-trans s t = record {
  families = t.families ∙ s.families;
  newest = λ cf key. t.newest cf key ∙ s.newest cf key;
}

pub columns-materialize_locked :
    (cf : ℕ) (mt : MemTable) (j : ℕ)
    → (materialize_locked cf mt).columns j
      ≡ (if cf == j then materialize_column (is_kv cf) (mt.columns cf) else mt.columns j)
unfolding materialize_locked
columns-materialize_locked cf mt j = ground arith

pub columns-maybe_merge_locked :
    (cf : ℕ) (mt : MemTable) (j : ℕ)
    → (maybe_merge_locked cf mt).columns j
      ≡ (if cf == j then merge_column (is_kv cf) (mt.columns cf) else mt.columns j)
unfolding maybe_merge_locked
columns-maybe_merge_locked cf mt j = ground arith

materialize_locked-SameNewest : (cf : ℕ) (mt : MemTable) → SameNewest mt (materialize_locked cf mt)
materialize_locked-SameNewest cf mt = record {
  families = unfold materialize_locked in ground arith;
  newest = λ j key.
      rw (columns-materialize_locked cf mt j)
        (ground (arith, materialize_column-newest (is_kv cf) (mt.columns cf) key));
}

IsMemTable-materialize_locked :
    (cf : ℕ) (mt : MemTable) → IsMemTable mt → IsMemTable (materialize_locked cf mt)
IsMemTable-materialize_locked cf mt h j =
    rw (columns-materialize_locked cf mt j) (elim (Bool-cases (cf == j)) [
      | inl e ↦ rw e (IsLadder-materialize_column (is_kv cf) (mt.columns cf) (h cf))
      | inr e ↦ rw e (h j)
    ])

maybe_merge_locked-SameNewest :
    (cf : ℕ) (mt : MemTable) → IsMemTable mt → SameNewest mt (maybe_merge_locked cf mt)
maybe_merge_locked-SameNewest cf mt h = record {
  families = unfold maybe_merge_locked in ground arith;
  newest = λ j key.
      rw (columns-maybe_merge_locked cf mt j)
        (ground (arith, merge_column-newest (is_kv cf) (mt.columns cf) key (h cf)));
}

IsMemTable-maybe_merge_locked :
    (cf : ℕ) (mt : MemTable) → IsMemTable mt → IsMemTable (maybe_merge_locked cf mt)
IsMemTable-maybe_merge_locked cf mt h j =
    rw (columns-maybe_merge_locked cf mt j) (elim (Bool-cases (cf == j)) [
      | inl e ↦ rw e (IsLadder-merge_column (is_kv cf) (mt.columns cf) (h cf))
      | inr e ↦ rw e (h j)
    ])

pub settle-SameNewest : (cf : ℕ) (mt : MemTable) → IsMemTable mt → SameNewest mt (settle cf mt)
unfolding settle
settle-SameNewest cf mt h = SameNewest-trans (materialize_locked-SameNewest cf mt) (
    maybe_merge_locked-SameNewest cf (materialize_locked cf mt)
      (IsMemTable-materialize_locked cf mt h))

pub IsMemTable-settle : (cf : ℕ) (mt : MemTable) → IsMemTable mt → IsMemTable (settle cf mt)
unfolding settle
IsMemTable-settle cf mt h =
    IsMemTable-maybe_merge_locked cf (materialize_locked cf mt)
      (IsMemTable-materialize_locked cf mt h)

-- The table right after the record is in the buffer.
abbrev appended : ℕ → Bool → Bytes → Bytes → MemTable → MemTable
appended cf del key val mt = set_column mt cf (append_column (is_kv cf) del key val (mt.columns cf))

IsMemTable-appended :
    (cf : ℕ) (del : Bool) (key val : Bytes) (mt : MemTable)
    → IsMemTable mt
    → IsMemTable (appended cf del key val mt)
IsMemTable-appended cf del key val mt h j = elim (Bool-cases (cf == j)) [
  | inl e ↦ rw e (IsLadder-append_column (is_kv cf) del key val (mt.columns cf) (h cf))
  | inr e ↦ rw e (h j)
]

pub IsMemTable-append_rec_locked :
    (cf : ℕ) (del : Bool) (key val : Bytes) (mt : MemTable)
    → IsMemTable mt
    → IsMemTable (append_rec_locked cf del key val mt)
unfolding append_rec_locked
IsMemTable-append_rec_locked cf del key val mt h =
    elim (Bool-cases (leb max_buf_entries (length ((appended cf del key val mt).columns cf).buf))) [
      | inl e ↦ rw e (
          IsMemTable-settle cf (appended cf del key val mt)
            (IsMemTable-appended cf del key val mt h))
      | inr e ↦ rw e (IsMemTable-appended cf del key val mt h)
    ]

append_rec_locked-settled :
    (cf : ℕ) (del : Bool) (key val : Bytes) (mt : MemTable)
    → IsMemTable mt
    → SameNewest (appended cf del key val mt) (append_rec_locked cf del key val mt)
unfolding append_rec_locked
append_rec_locked-settled cf del key val mt h =
    elim (Bool-cases (leb max_buf_entries (length ((appended cf del key val mt).columns cf).buf))) [
      | inl e ↦ rw e (
          settle-SameNewest cf (appended cf del key val mt)
            (IsMemTable-appended cf del key val mt h))
      | inr e ↦ rw e (record { families = refl; newest = λ j k. refl })
    ]

-- The record written becomes the newest of its key in its family; all else stays.
pub append_rec_locked-newest :
    (cf : ℕ) (del : Bool) (key val : Bytes) (mt : MemTable)
    → IsMemTable mt
    → length key < 2 ^ 32
    → (j : ℕ) (k : Bytes)
    → newest_of ((append_rec_locked cf del key val mt).columns j) k ≡ (
        if cf == j && is_eq (cmp_keys key k)
        then some (make_rec (is_kv cf) del key val)
        else newest_of (mt.columns j) k)
append_rec_locked-newest cf del key val mt h fits j k =
    (append_rec_locked-settled cf del key val mt h).newest j k
    ∙ ground (arith, append_column-newest (is_kv cf) del key val (mt.columns cf) k fits)

pub num_cf-append_rec_locked :
    (cf : ℕ) (del : Bool) (key val : Bytes) (mt : MemTable)
    → IsMemTable mt
    → (append_rec_locked cf del key val mt).num_cf ≡ mt.num_cf
num_cf-append_rec_locked cf del key val mt h =
    (append_rec_locked-settled cf del key val mt h).families

-- A lookup through the newest record.
pub lookup_kv-newest :
    (cf : ℕ) (key : Bytes) (mt : MemTable)
    → IsMemTable mt
    → lookup_kv cf key mt
      ≡ (if ltb cf mt.num_cf then some (kind_of? (newest_of (mt.columns cf) key)) else none)
unfolding lookup_kv newest_of
lookup_kv-newest cf key mt h = rw (lookup_kv_locked-newest (mt.columns cf) key (h cf))

pub get_value-newest :
    (cf : ℕ) (key : Bytes) (mt : MemTable)
    → IsMemTable mt
    → get_value cf key mt
      ≡ (if ltb cf mt.num_cf then some (value_of? (newest_of (mt.columns cf) key)) else none)
unfolding get_value newest_of
get_value-newest cf key mt h = rw (get_value_locked-newest (mt.columns cf) key (h cf))
