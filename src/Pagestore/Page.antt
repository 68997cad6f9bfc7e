-- ===== src/Pagestore/Page.antt =====
-- The prefix-compressed pages: `SerializePage`, `DeserializePage`, their key-value forms and
-- `BuildPages` (go/internal/pagestore/pages.go), and the index pages (types.go). The parts that the
-- three loops share, the key and the count, are functions of their own.
pub mod RoundTrip
pub mod Pairs
pub mod Build
pub mod Leaves
use eavt_sql.Prelude.{
  ℕ, zero, suc, ◌+◌, ◌*◌, ◌/◌, ◌%◌, ◌^◌, ◌≤◌, ◌<◌, Bool, true, false, List, [], ◌∷◌, ◌++◌, min, ltb,
  leb, ◌==◌, if◌then◌else◌, length, take, drop,
}
use eavt_sql.Bytes.Order.{Bytes}
use eavt_sql.Pagestore.Outcome.{
  Error, Outcome, ok, err, panic, ◌>>=◌, page_too_short, truncated_key, truncated_value,
  truncated_index_entry,
}
use eavt_sql.Pagestore.Varint.{Reader, write_varint, read_varint, read_slice}

unfoldable pub common_prefix_len : Bytes → Bytes → ℕ
common_prefix_len [] b = 0
common_prefix_len (x ∷ a) [] = 0
common_prefix_len (x ∷ a) (y ∷ b) = if x == y then suc (common_prefix_len a b) else 0

-- `byte(count>>8), byte(count)` of a count cut to 16 bits.
unfoldable pub write_count : ℕ → Bytes
write_count n = (n % 2 ^ 16 / 256) ∷ (n % 256) ∷ []

-- One key after the previous one: the shared length, the suffix's length, the suffix.
unfoldable pub write_key : Bytes → Bytes → Bytes
write_key prev key =
    let plen = common_prefix_len prev key in
    write_varint plen ++ (write_varint (length (drop plen key)) ++ drop plen key)

unfoldable pub write_keys : Bytes → List Bytes → Bytes
write_keys prev [] = []
write_keys prev (key ∷ keys) = write_key prev key ++ write_keys key keys

unfoldable pub serialize_page : List Bytes → Bytes
unfolding write_count write_keys write_key common_prefix_len write_varint
serialize_page keys = write_count (length keys) ++ write_keys [] keys

-- `plenRaw` is checked against the previous key's length; a negative one passes that test, and the
-- slice expression `prev[:plen]` panics.
unfoldable pub read_key : Error → ℕ → Bytes → Reader → Outcome (Bytes × Reader)
read_key e tail prev r = do
  (plen, r1) ← read_varint r
  (slen, r2) ← read_varint r1
  (suffix, r3) ← read_slice slen e tail r2
  if leb (2 ^ 63) plen then panic else ok (take (min plen (length prev)) prev ++ suffix, r3)

unfoldable pub read_keys : ℕ → Bytes → Reader → Outcome (List Bytes)
read_keys zero prev r = ok []
read_keys (suc n) prev r = do
  (key, r') ← read_key truncated_key 0 prev r
  keys ← read_keys n key r'
  ok (key ∷ keys)

unfoldable pub deserialize_page : Bytes → Outcome (List Bytes)
unfolding read_keys read_key read_varint read_slice
deserialize_page [] = err page_too_short
deserialize_page (a ∷ []) = err page_too_short
deserialize_page (a ∷ b ∷ rest) = read_keys (a * 256 + b) [] (record { offset = 2; rest = rest })

abbrev pub Pair : Type 0
Pair = Bytes × Bytes

unfoldable pub write_pairs : Bytes → List Pair → Bytes
write_pairs prev [] = []
write_pairs prev ((key, val) ∷ pairs) =
    write_key prev key ++ ((write_varint (length val) ++ val) ++ write_pairs key pairs)

unfoldable pub serialize_page_kv : List Pair → Bytes
unfolding write_count write_pairs write_key common_prefix_len write_varint
serialize_page_kv pairs = write_count (length pairs) ++ write_pairs [] pairs

unfoldable pub read_value : Reader → Outcome (Bytes × Reader)
read_value r = do (vlen, r') ← read_varint r; read_slice vlen truncated_value 0 r'

unfoldable pub read_pairs : ℕ → Bytes → Reader → Outcome (List Pair)
read_pairs zero prev r = ok []
read_pairs (suc n) prev r = do
  (key, r1) ← read_key truncated_key 0 prev r
  (val, r2) ← read_value r1
  pairs ← read_pairs n key r2
  ok ((key, val) ∷ pairs)

unfoldable pub deserialize_page_kv : Bytes → Outcome (List Pair)
unfolding read_pairs read_key read_value read_varint read_slice
deserialize_page_kv [] = err page_too_short
deserialize_page_kv (a ∷ []) = err page_too_short
deserialize_page_kv (a ∷ b ∷ rest) =
    read_pairs (a * 256 + b) [] (record { offset = 2; rest = rest })

-- A boundary key and the 16 bytes of its child's identifier.
pub record IndexEntry : Type 0 where
  pub key : Bytes
  pub uuid : Bytes

unfoldable pub write_entries : Bytes → List IndexEntry → Bytes
write_entries prev [] = []
write_entries prev (e ∷ es) = write_key prev e.key ++ (e.uuid ++ write_entries e.key es)

unfoldable pub serialize_index_page : List IndexEntry → Bytes
unfolding write_count write_entries write_key common_prefix_len write_varint
serialize_index_page es = write_count (length es) ++ write_entries [] es

abbrev pub read_uuid : Reader → Bytes × Reader
read_uuid r = (take 16 r.rest, record { offset = r.offset + 16; rest = drop 16 r.rest })

unfoldable pub read_entries : ℕ → Bytes → Reader → Outcome (List IndexEntry)
read_entries zero prev r = ok []
read_entries (suc n) prev r = do
  (key, r') ← read_key truncated_index_entry 16 prev r
  es ← read_entries n key (read_uuid r').1
  ok (record { key = key; uuid = (read_uuid r').0 } ∷ es)

unfoldable pub deserialize_index_page : Bytes → Outcome (List IndexEntry)
unfolding read_entries read_key read_varint read_slice
deserialize_index_page [] = err page_too_short
deserialize_index_page (a ∷ []) = err page_too_short
deserialize_index_page (a ∷ b ∷ rest) =
    read_entries (a * 256 + b) [] (record { offset = 2; rest = rest })
