-- ===== src/Memtable/Drain/Flush.antt =====
-- What a flush drains is what the lookups say (memtable.go).
use eavt_sql.Prelude.{ℕ, ◌<◌, ◌≡◌, refl, sym, ap, ◌∙◌, some, [], lt→ltb, append-nil}
use eavt_sql.Bytes.Order.{Bytes}
use eavt_sql.Memtable.Order.{latest, IsAscending}
use eavt_sql.Memtable.Run.Merge.{flatten}
use eavt_sql.Memtable.Ladder.{Column, MemTable, freeze_all_capture}
use eavt_sql.Memtable.Ladder.Read.{lookup_kv, lookup_kv_locked}
use eavt_sql.Memtable.Ladder.Lookup.{history, kind_of?, lookup_kv_locked-newest}
use eavt_sql.Memtable.Ladder.Table.{IsMemTable}
use eavt_sql.Memtable.Ladder.Flush.{
  freeze_all_capture-SameAnswers, IsMemTable-freeze_all_capture, freeze_all_capture-num_cf,
}
use eavt_sql.Memtable.Drain.{drain_winners}
use eavt_sql.Memtable.Drain.Newest.{IsMergeOf-drain_winners}

history-drained : (c : Column) → c.runs ≡ [] → c.buf ≡ [] → history c ≡ flatten c.draining
unfolding history
history-drained c r b = rw (r, b) (unfold flatten in append-nil (flatten c.draining))

-- In a table with sorted runs in which no flush is running, the records that a flush of a known
-- family drains after the freeze are in strictly ascending order of their keys, and the one of a
-- key says what a lookup said before the freeze: live, deleted, or absent if there is none.
pub drain_winners-lookup_kv :
    (mt : MemTable)
    → IsMemTable mt
    → ((cf : ℕ) → (mt.columns cf).draining ≡ [])
    → (cf : ℕ) (key : Bytes) → cf < mt.num_cf
    → IsAscending (drain_winners ((freeze_all_capture mt).columns cf).draining)
      × (lookup_kv cf key mt
          ≡ some
              (kind_of? (latest key (drain_winners ((freeze_all_capture mt).columns cf).draining))))
drain_winners-lookup_kv mt h idle cf key known =
    let after = freeze_all_capture mt in
    let sorted = IsMemTable-freeze_all_capture mt h in
    let (same, left) = freeze_all_capture-SameAnswers mt h idle in
    let merge = IsMergeOf-drain_winners (after.columns cf).draining (sorted cf).drained in
    let (runs, buf, size) = left cf known in
    let here : lookup_kv cf key after ≡ some (lookup_kv_locked (after.columns cf) key) =
      unfold lookup_kv in rw (freeze_all_capture-num_cf mt h, lt→ltb cf mt.num_cf known) refl in
    (
      merge.ascending,
      sym (same cf key).0
          ∙ here
          ∙ ap some (
              lookup_kv_locked-newest (after.columns cf) key (sorted cf)
              ∙ ap (λ l. kind_of? (latest key l)) (history-drained (after.columns cf) runs buf)
              ∙ ap kind_of? (sym (merge.newest key))),
    )
