-- ===== src/Memtable/Ladder/Writes.antt =====
-- What writes, freezes and merges do to the newest record of each key, one column at a time.
use eavt_sql.Prelude.{
  ◌<◌, ◌^◌, ◌≡◌, refl, sym, ap, ◌∙◌, Bool, Option, none, some, List, [], ◌∷◌, ◌++◌, arith, or_else,
  if◌then◌else◌, length, leb, is_eq, append-nil, append_assoc, All-append, Bool-cases, inl, inr,
}
use eavt_sql.Bytes.Order.{Bytes, cmp_keys}
use eavt_sql.Memtable.Record.{make_rec, rec_key-make_rec}
use eavt_sql.Memtable.Order.{latest, latest-append, IsAscending}
use eavt_sql.Memtable.Run.{Run, enumerate, tag_runs, sort_slice, keep_last}
use eavt_sql.Memtable.Run.Sort.{IsAscending-frozen, latest-frozen_buffer}
use eavt_sql.Memtable.Run.Merge.{flatten, latest-merged_runs}
use eavt_sql.Memtable.Ladder.{
  Column, max_active_runs, freeze_buffer, materialize_column, merge_column, append_column,
}
use eavt_sql.Memtable.Ladder.Lookup.{IsLadder, history}

-- The newest record of a key.
unfoldable pub newest_of : Column → Bytes → Option Bytes
newest_of c key = latest key (history c)

pub newest_of-parts :
    (c : Column) (key : Bytes)
    → newest_of c key
      ≡ or_else
          (latest key c.buf)
          (or_else (latest key (flatten c.runs)) (latest key (flatten c.draining)))
unfolding newest_of history
newest_of-parts c key = ground (
  arith,
  latest-append key (flatten c.runs) c.buf,
  latest-append key (flatten c.draining) (flatten c.runs ++ c.buf),
)

flatten-append : (rs qs : List Run) → flatten (rs ++ qs) ≡ flatten rs ++ flatten qs
unfolding flatten
flatten-append [] qs = refl
flatten-append (r ∷ rs) qs =
    ap (λ l. r.records ++ l) (flatten-append rs qs)
    ∙ sym (append_assoc r.records (flatten rs) (flatten qs))

latest-one_run : (key : Bytes) (r : Run) → latest key (flatten (r ∷ [])) ≡ latest key r.records
unfolding flatten
latest-one_run key r = ap (latest key) (append-nil r.records)

pub latest-nil : (key : Bytes) → latest key [] ≡ none
unfolding latest
latest-nil key = refl

pub freeze_buffer-newest :
    (kv : Bool) (c : Column) (key : Bytes) → newest_of (freeze_buffer kv c) key ≡ newest_of c key
unfolding freeze_buffer
freeze_buffer-newest kv c key =
    let frozen : Run = record { records = keep_last (sort_slice (enumerate 0 c.buf)); kv = kv } in
    newest_of-parts (freeze_buffer kv c) key
    ∙ (ground (
      arith,
      latest-nil key,
      ap (latest key) (flatten-append c.runs (frozen ∷ [])),
      latest-append key (flatten c.runs) (flatten (frozen ∷ [])),
      latest-one_run key frozen,
      latest-frozen_buffer key c.buf,
      newest_of-parts c key,
    ))

pub materialize_column-newest :
    (kv : Bool) (c : Column) (key : Bytes)
    → newest_of (materialize_column kv c) key ≡ newest_of c key
unfolding materialize_column
materialize_column-newest kv c key = ground (arith, freeze_buffer-newest kv c key)

pub merge_column-newest :
    (kv : Bool) (c : Column) (key : Bytes)
    → IsLadder c
    → newest_of (merge_column kv c) key ≡ newest_of c key
unfolding merge_column
merge_column-newest kv c key l = elim (Bool-cases (leb (length c.runs) max_active_runs)) [
  | inl e ↦ rw e
  | inr e ↦
      let merged : Run = record { records = keep_last (sort_slice (tag_runs 0 c.runs)); kv = kv } in
      rw e (
        newest_of-parts (record c { runs = merged ∷ [] }) key
        ∙ ground (
          arith,
          latest-one_run key merged,
          latest-merged_runs key c.runs l.active,
          newest_of-parts c key,
        ))
]

latest-one :
    (kv del : Bool) (key val k : Bytes)
    → length key < 2 ^ 32
    → latest k (make_rec kv del key val ∷ [])
      ≡ (if is_eq (cmp_keys key k) then some (make_rec kv del key val) else none)
unfolding latest
latest-one kv del key val k fits = rw (rec_key-make_rec kv del key val fits)

-- A write makes its record the newest of its key and touches no other key.
pub append_column-newest :
    (kv del : Bool) (key val : Bytes) (c : Column) (k : Bytes)
    → length key < 2 ^ 32
    → newest_of (append_column kv del key val c) k
      ≡ (if is_eq (cmp_keys key k) then some (make_rec kv del key val) else newest_of c k)
unfolding append_column
append_column-newest kv del key val c k fits =
    newest_of-parts (append_column kv del key val c) k
    ∙ ground (
      arith,
      latest-append k c.buf (make_rec kv del key val ∷ []),
      latest-one kv del key val k fits,
      newest_of-parts c k,
    )

IsLadder-freeze_buffer : (kv : Bool) (c : Column) → IsLadder c → IsLadder (freeze_buffer kv c)
unfolding freeze_buffer
IsLadder-freeze_buffer kv c l = record {
  active =
      All-append (λ r. IsAscending r.records) c.runs _ l.active
        (IsAscending-frozen (enumerate 0 c.buf), tt);
  drained = l.drained;
}

pub IsLadder-materialize_column :
    (kv : Bool) (c : Column) → IsLadder c → IsLadder (materialize_column kv c)
unfolding materialize_column
IsLadder-materialize_column kv c l = go c.buf
  where
    go : (b : List Bytes) → IsLadder (elim b [ [] ↦ c | p ∷ ps ↦ freeze_buffer kv c ])
    go [] = l
    go (p ∷ ps) = IsLadder-freeze_buffer kv c l

pub IsLadder-merge_column : (kv : Bool) (c : Column) → IsLadder c → IsLadder (merge_column kv c)
unfolding merge_column
IsLadder-merge_column kv c l = elim (Bool-cases (leb (length c.runs) max_active_runs)) [
  | inl e ↦ rw e l
  | inr e ↦
      rw e (record { active = (IsAscending-frozen (tag_runs 0 c.runs), tt); drained = l.drained })
]

pub IsLadder-append_column :
    (kv del : Bool) (key val : Bytes) (c : Column)
    → IsLadder c
    → IsLadder (append_column kv del key val c)
unfolding append_column
IsLadder-append_column kv del key val c l = record { active = l.active; drained = l.drained }
