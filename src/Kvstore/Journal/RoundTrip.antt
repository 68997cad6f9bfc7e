-- ===== src/Kvstore/Journal/RoundTrip.antt =====
-- Reading back what `journalRecord` and the log's sink write (kvstore.go, wal.go).
use eavt_sql.Prelude.{
  ℕ, zero, suc, ◌+◌, ◌-◌, ◌^◌, ◌<◌, ◌≤◌, ◌≡◌, refl, ap, sym, subst, false, Option, none, some, List,
  [], ◌∷◌, ◌++◌, leb, if◌then◌else◌, length, get_or, drop, All, arith, length-append, length-drop,
  append_assoc, take-length-append, drop_of_length,
}
use eavt_sql.Bytes.Order.{Bytes}
use eavt_sql.Memtable.Ladder.{CfKey}
use eavt_sql.Kvstore.Journal.{
  be32_at, be32, journal_record_len, journal_resync_from, journal_entry, journal_record,
  parse_records, parse_journal_records,
}

get_or-length-append : (xs ys : Bytes) (i : ℕ) → get_or (xs ++ ys) (length xs + i) 0 ≡ get_or ys i 0
get_or-length-append [] ys i = ap (λ k. get_or ys k 0) (omega arith)
get_or-length-append (x ∷ xs) ys i =
    let same : suc (length xs + i) ≡ suc (length xs) + i = omega arith in
    subst (λ k. get_or (x ∷ (xs ++ ys)) k 0 ≡ get_or ys i 0) same (get_or-length-append xs ys i)

be32_at-append : (xs ys : Bytes) → be32_at (xs ++ ys) (length xs) ≡ be32_at ys 0
unfolding be32_at
be32_at-append xs ys =
    let e : length xs ≡ length xs + 0 = omega arith in
    let g0 : get_or (xs ++ ys) (length xs) 0 ≡ get_or ys 0 0 =
      subst (λ k. get_or (xs ++ ys) k 0 ≡ get_or ys 0 0) (sym e) (get_or-length-append xs ys 0) in
    rw
      (g0, get_or-length-append xs ys 1, get_or-length-append xs ys 2, get_or-length-append xs ys 3)
      refl

be32_at-be32 : (n : ℕ) (rest : Bytes) → n < 2 ^ 32 → be32_at (be32 n ++ rest) 0 ≡ n
unfolding be32_at
be32_at-be32 n rest h = omega arith

-- The value bytes of a record; a key alone has one zero byte.
abbrev payload : Option Bytes → Bytes
payload none = 0 ∷ []
payload (some v) = v

abbrev body : ℕ → Bytes → Bytes → Bytes
body cf key v = be32 (1 + length key) ++ cf ∷ (key ++ (be32 (length v) ++ v))

journal_record-payload :
    (cf : ℕ) (key : Bytes) (o : Option Bytes)
    → journal_record cf key o false ≡ body cf key (payload o)
unfolding journal_record
journal_record-payload cf key none = refl
journal_record-payload cf key (some v) = refl

-- A record the parser takes, and what may follow it.
module _ (cf : ℕ) (key v rest : Bytes) (low : cf ≤ 63) (kh : length key < 65536)
    (vh : length v ≤ 65536) where
  abbrev head : Bytes
  head = be32 (1 + length key) ++ cf ∷ key

  unroll : body cf key v ++ rest ≡ head ++ (be32 (length v) ++ (v ++ rest))
  unroll = ap (λ z. be32 (1 + length key) ++ cf ∷ z) (append_assoc key (be32 (length v) ++ v) rest)

  key_length : be32_at (body cf key v ++ rest) 0 ≡ 1 + length key
  key_length =
      be32_at-be32 (1 + length key) (cf ∷ (key ++ (be32 (length v) ++ v)) ++ rest) (omega arith)

  value_length : be32_at (body cf key v ++ rest) (4 + (1 + length key)) ≡ length v
  value_length =
      let e : length head ≡ 4 + (1 + length key) = omega arith in
      rw
        (
          unroll,
          sym e,
          be32_at-append head (be32 (length v) ++ (v ++ rest)),
          be32_at-be32 (length v) (v ++ rest) (omega arith),
        )
        refl

  whole_length : length (body cf key v) ≡ 4 + (1 + length key) + 4 + length v
  whole_length = omega (arith, length-append key (be32 (length v) ++ v))

  journal_record_len-body :
      1 ≤ length key + length v
      → journal_record_len (body cf key v ++ rest) ≡ some (4 + (1 + length key) + 4 + length v)
  unfolding journal_record_len
  journal_record_len-body one =
      rw (journal_record_len, key_length, value_length)
        (ground (arith, length-append (body cf key v) rest, whole_length))

  journal_entry-body :
      journal_entry (body cf key v ++ rest)
      ≡ (if leb cf 3 then record { cf = cf; key = key } ∷ [] else [])
  unfolding journal_entry
  journal_entry-body =
      let e : 1 + length key - 1 ≡ length key = omega arith in
      rw
        (
          journal_entry,
          key_length,
          e,
          append_assoc key (be32 (length v) ++ v) rest,
          take-length-append key ((be32 (length v) ++ v) ++ rest),
        )
        refl

  drop-body : drop (4 + (1 + length key) + 4 + length v) (body cf key v ++ rest) ≡ rest
  drop-body = drop_of_length (4 + (1 + length key) + 4 + length v) (body cf key v) rest whole_length

  parse_records-body :
      (fuel : ℕ)
      → 1 ≤ length key + length v
      → parse_records (suc fuel) (body cf key v ++ rest)
        ≡ (if leb cf 3 then record { cf = cf; key = key } ∷ [] else []) ++ parse_records fuel rest
  unfolding parse_records
  parse_records-body fuel one =
      rw (parse_records, journal_record_len-body one, journal_entry-body, drop-body) refl

-- The keys and values that are written to a journal, each as one record.
abbrev pub Write : Type 0
Write = CfKey × Option Bytes

abbrev pub write_records : List Write → Bytes
write_records [] = []
write_records (w ∷ ws) = journal_record w.0.cf w.0.key w.1 false ++ write_records ws

-- A record within the bounds that the parser checks.
abbrev pub IsParsable : Write → Type 0
IsParsable w =
    (w.0.cf ≤ 63)
    × (length w.0.key < 65536)
    × (length (payload w.1) ≤ 65536)
    × (1 ≤ length w.0.key + length (payload w.1))

-- The keys of the four indexes.
abbrev pub index_keys : List Write → List CfKey
index_keys [] = []
index_keys (w ∷ ws) = (if leb w.0.cf 3 then w.0 ∷ [] else []) ++ index_keys ws

short_record : (bs : Bytes) → length bs < 10 → journal_record_len bs ≡ none
unfolding journal_record_len
short_record bs h = ground arith

short_resync : (bs : Bytes) → length bs < 10 → journal_resync_from bs ≡ none
unfolding journal_resync_from
short_resync [] h = refl
short_resync (b ∷ bs) h = ground arith

short_tail : (fuel : ℕ) (tail : Bytes) → length tail < 10 → parse_records fuel tail ≡ []
unfolding parse_records
short_tail zero tail h = refl
short_tail (suc fuel) tail h =
    rw
      (
        parse_records,
        short_record tail h,
        short_resync (drop 1 tail) (omega (arith, length-drop 1 tail, h)),
      )
      refl

parse_written :
    (fuel : ℕ) (ws : List Write) (tail : Bytes)
    → All IsParsable ws
    → length tail < 10
    → length (write_records ws) ≤ fuel
    → parse_records fuel (write_records ws ++ tail) ≡ index_keys ws
parse_written fuel [] tail h short k = short_tail fuel tail short
parse_written fuel (w ∷ ws) tail h short k =
    let key = w.0.key in
    let v = payload w.1 in
    let (low, kh, vh, one) = h.0 in
    let e : journal_record w.0.cf key w.1 false ≡ body w.0.cf key v =
      journal_record-payload w.0.cf key w.1 in
    let size : length (body w.0.cf key v) + length (write_records ws) ≤ fuel = omega (
      arith,
      length-append (body w.0.cf key v) (write_records ws),
      subst (λ z. length (z ++ write_records ws) ≤ fuel) e k,
    ) in
    let long = whole_length w.0.cf key v [] low kh vh in
    let more : suc (fuel - 1) ≡ fuel = omega (arith, long, size) in
    let rest = write_records ws ++ tail in
    let step = parse_records-body w.0.cf key v rest low kh vh (fuel - 1) one in
    let later = parse_written (fuel - 1) ws tail h.1 short (omega (arith, long, size)) in
    rw (e, append_assoc (body w.0.cf key v) (write_records ws) tail, sym more, step, later) refl

-- A journal of records within the parser's bounds, followed by fewer than ten bytes of an
-- unfinished record, is parsed as exactly the keys of the four indexes that it was written from, in
-- order.
pub parse_journal_records-write_records :
    (ws : List Write) (tail : Bytes)
    → All IsParsable ws
    → length tail < 10
    → parse_journal_records (write_records ws ++ tail) ≡ index_keys ws
unfolding parse_journal_records
parse_journal_records-write_records ws tail h short =
    parse_written (suc (length (write_records ws ++ tail))) ws tail h short
      (omega (arith, length-append (write_records ws) tail))
