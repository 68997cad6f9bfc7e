-- ===== src/Hydrated/Edits.antt =====
-- The edits of the arena together (hydrated.go).
use eavt_sql.Prelude.{◌^◌, ◌<◌, ◌≡◌, List, ◌∷◌, ◌++◌, length, some}
use eavt_sql.Bytes.Order.{Bytes}
use eavt_sql.Hydrated.{insert_key_at, remove_key_at, replace_key_at}
use eavt_sql.Hydrated.Pack.{concat_keys, pack}
use eavt_sql.Hydrated.Insert.{insert_key_at-pack}
use eavt_sql.Hydrated.Remove.{remove_key_at-pack}
use eavt_sql.Hydrated.Replace.{replace_key_at-pack}

-- As long as the keys have fewer than 2 ^ 31 bytes in all, with each of the two keys at the
-- position, the edits of the arena do not panic and are those of the list of keys: an insertion
-- puts the key at the position, a replacement puts it in the place of the other one, and a removal
-- takes that one away and returns its length.
pub edits-pack :
    (front : List Bytes) (old key : Bytes) (back : List Bytes)
    → length (concat_keys (front ++ old ∷ back)) < 2 ^ 31
    → length (concat_keys (front ++ key ∷ back)) < 2 ^ 31
    → (insert_key_at (length front) key (pack (front ++ back)) ≡ some (pack (front ++ key ∷ back)))
      × (replace_key_at (length front) key (pack (front ++ old ∷ back))
          ≡ some (pack (front ++ key ∷ back)))
      × (remove_key_at (length front) (pack (front ++ old ∷ back))
          ≡ some (length old, pack (front ++ back)))
edits-pack front old key back small small' = (
  insert_key_at-pack front key back small',
  replace_key_at-pack front old key back small small',
  remove_key_at-pack front old back small,
)
