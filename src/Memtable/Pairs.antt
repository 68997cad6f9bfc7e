-- ===== src/Memtable/Pairs.antt =====
-- What a drain or a cursor gives of some records: keys, live pairs, keys of tombstones
-- (memtable.go, run_cursor.go).
use eavt_sql.Prelude.{List, [], ◌∷◌, if◌then◌else◌}
use eavt_sql.Bytes.Order.{Bytes}
use eavt_sql.Memtable.Record.{rec_key, rec_value, rec_deleted}

abbrev pub Pair : Type 0
Pair = Bytes × Bytes

unfoldable pub live_pairs : List Bytes → List Pair
live_pairs [] = []
live_pairs (p ∷ ps) =
    let rest = live_pairs ps in if rec_deleted p then rest else (rec_key p, rec_value p) ∷ rest

unfoldable pub deleted_keys : List Bytes → List Bytes
deleted_keys [] = []
deleted_keys (p ∷ ps) =
    let rest = deleted_keys ps in if rec_deleted p then rec_key p ∷ rest else rest

unfoldable pub keys_in : List Bytes → List Bytes
keys_in [] = []
keys_in (p ∷ ps) = rec_key p ∷ keys_in ps
