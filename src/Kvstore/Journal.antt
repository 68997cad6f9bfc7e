-- ===== src/Kvstore/Journal.antt =====
-- The journal format of go/internal/kvstore/kvstore.go: `journalRecord` writes a record, and
-- `ParseJournalRecords` reads a file of them. A position in the data is the list of the bytes from
-- there on. A Go `int` is 64 bits wide, so four bytes never make a negative length.
pub mod RoundTrip
use eavt_sql.Prelude.{
  ℕ, zero, suc, ◌+◌, ◌-◌, ◌*◌, ◌/◌, ◌%◌, ◌^◌, Bool, true, false, ◌||◌, ◌&&◌, Option, none, some,
  List, [], ◌∷◌, ◌++◌, ltb, leb, if◌then◌else◌, length, get_or, take, drop,
}
use eavt_sql.Bytes.Order.{Bytes}
use eavt_sql.Memtable.Ladder.{CfKey}

abbrev pub max_journal_key_len : ℕ
max_journal_key_len = 65536

abbrev pub max_journal_val_len : ℕ
max_journal_val_len = 65536

abbrev pub journal_resync : ℕ
journal_resync = 3

-- Four big-endian bytes at an index.
unfoldable pub be32_at : Bytes → ℕ → ℕ
be32_at bs i =
    get_or bs i 0 * 2 ^ 24
    + get_or bs (i + 1) 0 * 2 ^ 16
    + get_or bs (i + 2) 0 * 2 ^ 8
    + get_or bs (i + 3) 0

-- The length of the record in front, or `none` for the code's -1.
unfoldable pub journal_record_len : Bytes → Option ℕ
unfolding be32_at
journal_record_len bs =
    let n = length bs in
    let klen = be32_at bs 0 in
    let vlen = be32_at bs (4 + klen) in
    if ltb n 10
    then none
    else if ltb klen 1 || ltb max_journal_key_len klen
    then none
    else if ltb n (4 + klen + 4)
    then none
    else if ltb 63 (get_or bs 4 0)
    then none
    else if ltb max_journal_val_len vlen
    then none
    else if ltb n (4 + klen + 4 + vlen)
    then none
    else some (4 + klen + 4 + vlen)

-- The inner loop of `journalResyncFrom`: the number of records in a row, and what follows them.
-- The fuel is the number of bytes.
unfoldable pub journal_chain : ℕ → Bytes → ℕ × Bytes
unfolding journal_record_len
journal_chain zero bs = (0, bs)
journal_chain (suc fuel) bs = elim (journal_record_len bs) [
  | none ↦ (0, bs)
  | some rl ↦ let (n, rest) = journal_chain fuel (drop rl bs) in (n + 1, rest)
]

-- `journalResyncFrom`, from the byte after the broken one.
unfoldable pub journal_resync_from : Bytes → Option Bytes
unfolding journal_chain
journal_resync_from [] = none
journal_resync_from (b ∷ bs) =
    let later = journal_resync_from bs in
    let (chain, rest) = journal_chain (length (b ∷ bs)) (b ∷ bs) in
    if ltb (length (b ∷ bs)) 10
    then none
    else if leb journal_resync chain
    then some (b ∷ bs)
    else if ltb 0 chain && ltb (length rest) 10
    then some (b ∷ bs)
    else later

-- The entry of a record, if its family is one of the four indexes.
unfoldable pub journal_entry : Bytes → List CfKey
unfolding be32_at
journal_entry bs =
    if leb (get_or bs 4 0) 3
    then record { cf = get_or bs 4 0; key = take (be32_at bs 0 - 1) (drop 5 bs) } ∷ []
    else []

-- The loop of `ParseJournalRecords`; the fuel is the number of bytes.
unfoldable pub parse_records : ℕ → Bytes → List CfKey
unfolding journal_record_len journal_resync_from journal_entry
parse_records zero bs = []
parse_records (suc fuel) bs = elim (journal_record_len bs) [
  | some rl ↦ journal_entry bs ++ parse_records fuel (drop rl bs)
  | none ↦ elim (journal_resync_from (drop 1 bs)) [ none ↦ [] | some bs' ↦ parse_records fuel bs' ]
]

unfoldable pub parse_journal_records : Bytes → List CfKey
unfolding parse_records
parse_journal_records bs = parse_records (suc (length bs)) bs

abbrev pub be32 : ℕ → Bytes
be32 n = (n / 2 ^ 24 % 256) ∷ (n / 2 ^ 16 % 256) ∷ (n / 2 ^ 8 % 256) ∷ (n % 256) ∷ []

-- `journalRecord`; a nil value is `none`.
unfoldable pub journal_record : ℕ → Bytes → Option Bytes → Bool → Bytes
journal_record cf key value true =
    be32 (1 + length key) ++ cf ∷ (key ++ 0xff ∷ 0xff ∷ 0xff ∷ 0xff ∷ [])
journal_record cf key none false = be32 (1 + length key) ++ cf ∷ (key ++ 0 ∷ 0 ∷ 0 ∷ 1 ∷ 0 ∷ [])
journal_record cf key (some v) false = be32 (1 + length key) ++ cf ∷ (key ++ (be32 (length v) ++ v))
