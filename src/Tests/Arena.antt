-- ===== src/Tests/Arena.antt =====
-- The arena of go/internal/hydrated/hydrated.go at concrete inputs.
use eavt_sql.Prelude.{◌≡◌, List, [], ◌∷◌, ◌++◌, arith, some}
use eavt_sql.Bytes.Order.{Bytes}
use eavt_sql.Hydrated.{insert_key_at, remove_key_at, replace_key_at}
use eavt_sql.Hydrated.Pack.{pack}
use eavt_sql.Hydrated.Edits.{edits-pack}

abbrev front_keys : List Bytes
front_keys = (1 ∷ 2 ∷ []) ∷ (3 ∷ []) ∷ []

abbrev back_keys : List Bytes
back_keys = (8 ∷ 8 ∷ []) ∷ []

edits-pack_example :
    (insert_key_at 2 (5 ∷ 6 ∷ 7 ∷ []) (pack (front_keys ++ back_keys))
      ≡ some (pack (front_keys ++ (5 ∷ 6 ∷ 7 ∷ []) ∷ back_keys)))
    × (replace_key_at 2 (5 ∷ 6 ∷ 7 ∷ []) (pack (front_keys ++ (4 ∷ []) ∷ back_keys))
        ≡ some (pack (front_keys ++ (5 ∷ 6 ∷ 7 ∷ []) ∷ back_keys)))
    × (remove_key_at 2 (pack (front_keys ++ (4 ∷ []) ∷ back_keys))
        ≡ some (1, pack (front_keys ++ back_keys)))
edits-pack_example =
    edits-pack front_keys (4 ∷ []) (5 ∷ 6 ∷ 7 ∷ []) back_keys (omega arith) (omega arith)
