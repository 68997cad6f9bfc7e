-- ===== src/Memtable/Ladder/Answers.antt =====
-- What the exported operations of the ladder do to the answers of its lookups.
use eavt_sql.Prelude.{
  ℕ, ◌≤◌, ◌<◌, ◌^◌, ◌≡◌, ap, ◌∙◌, Bool, true, false, Option, none, some, [], arith, if◌then◌else◌,
  length, is_eq, ◌==◌, ◌&&◌, lt→ltb,
}
use eavt_sql.Bytes.Order.{Bytes, cmp_keys}
use eavt_sql.Memtable.Record.{make_rec, rec_deleted-make_rec, rec_value-make_rec}
use eavt_sql.Memtable.Ladder.{
  MemTable, KvLookup, deleted, value, is_kv, append_rec_locked, size_locked, put_kv, delete_kv,
}
use eavt_sql.Memtable.Ladder.Read.{lookup_kv, get_value}
use eavt_sql.Memtable.Ladder.Lookup.{kind_of?, value_of?}
use eavt_sql.Memtable.Ladder.Table.{
  IsMemTable, SameNewest, append_rec_locked-newest, IsMemTable-append_rec_locked,
  num_cf-append_rec_locked, lookup_kv-newest, get_value-newest,
}

-- Both lookups answer alike on every family and key.
abbrev pub SameAnswers : MemTable → MemTable → Type 0
SameAnswers mt mt' =
    (cf : ℕ) (key : Bytes)
    → (lookup_kv cf key mt' ≡ lookup_kv cf key mt) × (get_value cf key mt' ≡ get_value cf key mt)

pub SameAnswers-of-newest :
    (mt mt' : MemTable) → IsMemTable mt → IsMemTable mt' → SameNewest mt mt' → SameAnswers mt mt'
SameAnswers-of-newest mt mt' h h' s cf key = (
  rw (lookup_kv-newest cf key mt' h', lookup_kv-newest cf key mt h, s.families, s.newest cf key),
  rw (get_value-newest cf key mt' h', get_value-newest cf key mt h, s.families, s.newest cf key),
)

-- A table with sorted runs and a good state answers `hit` on the key just written.
abbrev pub AnswersAfter : ℕ → Bytes → KvLookup → Option Bytes → MemTable → MemTable → Type 0
AnswersAfter cf key kind val mt mt' =
    (j : ℕ) (k : Bytes)
    → (lookup_kv j k mt'
        ≡ (if cf == j && is_eq (cmp_keys key k) then some kind else lookup_kv j k mt))
      × (get_value j k mt'
          ≡ (if cf == j && is_eq (cmp_keys key k) then some val else get_value j k mt))

module _ (cf : ℕ) (key val : Bytes) (mt : MemTable) (h : IsMemTable mt) (known : cf < mt.num_cf)
    (fits : length key < 2 ^ 32) where
  written : Bool → MemTable
  written del = append_rec_locked cf del key val mt

  written-IsMemTable : (del : Bool) → IsMemTable (written del)
  unfolding written
  written-IsMemTable del = IsMemTable-append_rec_locked cf del key val mt h

  answers :
      (del : Bool) (kind : KvLookup) (found : Option Bytes)
      → kind_of? (some (make_rec (is_kv cf) del key val)) ≡ kind
      → value_of? (some (make_rec (is_kv cf) del key val)) ≡ found
      → AnswersAfter cf key kind found mt (written del)
  unfolding written
  answers del kind found e f j k = (
    lookup_kv-newest j k (written del) (written-IsMemTable del)
        ∙ ground (
          arith,
          num_cf-append_rec_locked cf del key val mt h,
          lookup_kv-newest j k mt h,
          append_rec_locked-newest cf del key val mt h fits j k,
          ap (λ o. kind_of? o) (append_rec_locked-newest cf del key val mt h fits j k),
        ),
    get_value-newest j k (written del) (written-IsMemTable del)
        ∙ ground (
          arith,
          num_cf-append_rec_locked cf del key val mt h,
          get_value-newest j k mt h,
          append_rec_locked-newest cf del key val mt h fits j k,
        ),
  )

-- In a table with sorted runs a put of a pair in a key-value family that the table has, with a key
-- and a value shorter than 2 ^ 32 bytes, succeeds, keeps the runs sorted, makes the key a live one
-- with that value, and changes no answer for any other key or family.
pub put_kv-get_value :
    (cf : ℕ) (key val : Bytes) (mt : MemTable)
    → IsMemTable mt
    → cf < mt.num_cf
    → 10 ≤ cf
    → length key < 2 ^ 32
    → length val < 2 ^ 32
    → (mt' : MemTable) × (put_kv cf key val mt ≡ some (mt', size_locked mt'))
      × IsMemTable mt'
      × AnswersAfter cf key value (some val) mt mt'
unfolding written
put_kv-get_value cf key val mt h known kv fits vfits =
    let mt' = written cf key val mt h known fits false in
    (
      mt',
      unfold put_kv in rw (lt→ltb cf mt.num_cf known),
      written-IsMemTable cf key val mt h known fits false,
      answers cf key val mt h known fits false value (some val)
          (ground (arith, rec_deleted-make_rec (is_kv cf) false key val fits))
          (ground (
            arith,
            rec_deleted-make_rec (is_kv cf) false key val fits,
            rec_value-make_rec false key val fits vfits,
          )),
    )

-- In a table with sorted runs a tombstone in a family that the table has, with a key shorter than 2
-- ^ 32 bytes, is written, keeps the runs sorted, makes the key a deleted one without a value, and
-- changes no answer for any other key or family.
pub delete_kv-lookup_kv :
    (cf : ℕ) (key : Bytes) (mt : MemTable)
    → IsMemTable mt
    → cf < mt.num_cf
    → length key < 2 ^ 32
    → (mt' : MemTable) × (delete_kv cf key mt ≡ some mt')
      × IsMemTable mt'
      × AnswersAfter cf key deleted none mt mt'
unfolding written
delete_kv-lookup_kv cf key mt h known fits =
    let mt' = written cf key [] mt h known fits true in
    (
      mt',
      unfold delete_kv in rw (lt→ltb cf mt.num_cf known),
      written-IsMemTable cf key [] mt h known fits true,
      answers cf key [] mt h known fits true deleted none
          (ground (arith, rec_deleted-make_rec (is_kv cf) true key [] fits))
          (ground (arith, rec_deleted-make_rec (is_kv cf) true key [] fits)),
    )
