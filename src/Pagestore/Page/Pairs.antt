-- ===== src/Pagestore/Page/Pairs.antt =====
-- Key-value pages and index pages are read back.
use eavt_sql.Prelude.{
  ℕ, ◌+◌, ◌^◌, ◌<◌, ◌≡◌, refl, List, [], ◌∷◌, ◌++◌, arith, length, length-append, append_assoc, All,
  take_of_length, drop_of_length,
}
use eavt_sql.Bytes.Order.{Bytes}
use eavt_sql.Pagestore.Outcome.{ok, truncated_key, truncated_value, truncated_index_entry}
use eavt_sql.Pagestore.Varint.{write_varint, read_varint-write_varint, read_slice-append}
use eavt_sql.Pagestore.Page.{
  Pair, write_count, write_key, write_pairs, serialize_page_kv, read_value, read_pairs,
  deserialize_page_kv, IndexEntry, write_entries, serialize_index_page, read_entries,
  deserialize_index_page,
}
use eavt_sql.Pagestore.Page.RoundTrip.{read_key-write_key, count_bytes}

read_value-append :
    (val rest : Bytes) (offset : ℕ)
    → offset + length (write_varint (length val) ++ val) < 2 ^ 63
    → read_value (record { offset = offset; rest = (write_varint (length val) ++ val) ++ rest })
      ≡ ok
          (val, record { offset = offset + length (write_varint (length val) ++ val); rest = rest })
unfolding read_value
read_value-append val rest offset h =
    let vl = write_varint (length val) in
    let len : length (vl ++ val) ≡ length vl + length val = length-append vl val in
    rw
      (
        append_assoc vl val rest,
        read_varint-write_varint (length val) offset (val ++ rest) (omega arith),
        read_slice-append val rest truncated_value 0 (offset + length vl) (omega arith)
            (omega arith),
      )
      (ground arith)

abbrev pub SmallPair : Pair → Type 0
SmallPair p = length p.0 < 2 ^ 63

read_pairs-write_pairs :
    (prev : Bytes) (pairs : List Pair) (offset : ℕ)
    → offset + length (write_pairs prev pairs) < 2 ^ 63
    → All SmallPair pairs
    → read_pairs (length pairs) prev (record { offset = offset; rest = write_pairs prev pairs })
      ≡ ok pairs
unfolding read_pairs write_pairs
read_pairs-write_pairs prev [] offset h a = refl
read_pairs-write_pairs prev ((key, val) ∷ pairs) offset h a =
    let v = write_varint (length val) ++ val in
    let more = write_pairs key pairs in
    let len : length (write_key prev key ++ (v ++ more))
        ≡ length (write_key prev key) + (length v + length more) =
      omega (arith, length-append (write_key prev key) (v ++ more), length-append v more) in
    rw (
      read_key-write_key prev key (v ++ more) truncated_key 0 offset (omega arith) a.0
          (omega arith),
      read_value-append val more (offset + length (write_key prev key)) (omega arith),
      read_pairs-write_pairs key pairs (offset + length (write_key prev key) + length v)
          (omega arith) a.1,
    )

-- A key-value page of fewer than 65536 pairs, shorter than 2 ^ 63 bytes, is read back.
pub deserialize_page_kv-serialize_page_kv :
    (pairs : List Pair)
    → length pairs < 2 ^ 16
    → All SmallPair pairs
    → length (serialize_page_kv pairs) < 2 ^ 63
    → deserialize_page_kv (serialize_page_kv pairs) ≡ ok pairs
unfolding serialize_page_kv deserialize_page_kv write_count
deserialize_page_kv-serialize_page_kv pairs few small h =
    rw (count_bytes (length pairs) few) (read_pairs-write_pairs [] pairs 2 (omega arith) small)

-- A child identifier is 16 bytes long.
abbrev pub IsEntry : IndexEntry → Type 0
IsEntry e = (length e.key < 2 ^ 63) × (length e.uuid ≡ 16)

read_entries-write_entries :
    (prev : Bytes) (es : List IndexEntry) (offset : ℕ)
    → offset + length (write_entries prev es) < 2 ^ 63
    → All IsEntry es
    → read_entries (length es) prev (record { offset = offset; rest = write_entries prev es })
      ≡ ok es
unfolding read_entries write_entries
read_entries-write_entries prev [] offset h a = refl
read_entries-write_entries prev (e ∷ es) offset h a =
    let more = write_entries e.key es in
    let len : length (write_key prev e.key ++ (e.uuid ++ more))
        ≡ length (write_key prev e.key) + (16 + length more) =
      omega (
        arith,
        length-append (write_key prev e.key) (e.uuid ++ more),
        length-append e.uuid more,
        a.0.1,
      ) in
    rw (
      read_key-write_key prev e.key (e.uuid ++ more) truncated_index_entry 16 offset (omega arith)
          a.0.0 (omega (arith, length-append e.uuid more, a.0.1)),
      take_of_length 16 e.uuid more a.0.1,
      drop_of_length 16 e.uuid more a.0.1,
      read_entries-write_entries e.key es (offset + length (write_key prev e.key) + 16)
          (omega arith) a.1,
    )

-- An index page of fewer than 65536 entries, shorter than 2 ^ 63 bytes, is read back.
pub deserialize_index_page-serialize_index_page :
    (es : List IndexEntry)
    → length es < 2 ^ 16
    → All IsEntry es
    → length (serialize_index_page es) < 2 ^ 63
    → deserialize_index_page (serialize_index_page es) ≡ ok es
unfolding serialize_index_page deserialize_index_page write_count
deserialize_index_page-serialize_index_page es few small h =
    rw (count_bytes (length es) few) (read_entries-write_entries [] es 2 (omega arith) small)
