-- ===== src/Hydrated.antt =====
-- The arena of keys of a hydrated entity, go/internal/hydrated/hydrated.go: the keys in one buffer,
-- and the start of each. An offset is the 32-bit pattern of the code's int32, negative from 2 ^ 31
-- on. A panic is `none`. The starts of an entry ascend within its buffer.
pub mod Copy
pub mod Pack
pub mod Remove
pub mod Insert
pub mod Replace
pub mod Edits
use eavt_sql.Prelude.{
  ℕ, ◌+◌, ◌-◌, ◌%◌, ◌^◌, List, [], ◌∷◌, ◌++◌, map, ltb, ◌==◌, if◌then◌else◌, length, get_elem?,
  Option, none, some, leb, take, drop, replicate,
}
use eavt_sql.Bytes.Order.{Bytes}
use eavt_sql.Eavt.Keys.{copy_at}

-- `entry` without its place in the list of all entries.
pub record Entry : Type 0 where
  pub buf : Bytes
  pub offs : List ℕ

-- A negative offset is `none` like an index out of range: each of the edits then panics, in a slice
-- expression.
unfoldable pub key_start : ℕ → Entry → Option ℕ
key_start i e = elim (get_elem? e.offs i) [
  | none ↦ none
  | some o ↦ if leb (2 ^ 31) o then none else some o
]

unfoldable pub key_end : ℕ → Entry → Option ℕ
unfolding key_start
key_end i e = if ltb (i + 1) (length e.offs) then key_start (i + 1) e else some (length e.buf)

abbrev pub add32 : ℕ → ℕ → ℕ
add32 d o = (o + d) % 2 ^ 32

abbrev pub sub32 : ℕ → ℕ → ℕ
sub32 d o = (o + (2 ^ 32 - d)) % 2 ^ 32

-- `if tail > 0 { copy(buf[to:], buf[from:from+tail]) }`.
unfoldable pub move : ℕ → ℕ → ℕ → Bytes → Bytes
unfolding copy_at
move to from tail bs = if ltb 0 tail then copy_at to (take tail (drop from bs)) bs else bs

-- `insertKeyAt` from the place on that it has found.
unfoldable pub insert_span : ℕ → ℕ → Bytes → Entry → Entry
unfolding move
insert_span idx ins key e =
    let klen = length key in
    let buf1 = e.buf ++ replicate klen 0 in
    let buf2 = move (ins + klen) ins (length buf1 - ins - klen) buf1 in
    let offs1 = e.offs ++ 0 ∷ [] in
    let offs2 = copy_at idx ((ins % 2 ^ 32) ∷ []) (copy_at (idx + 1) (drop idx offs1) offs1) in
    record {
      buf = copy_at ins key buf2;
      offs = take (idx + 1) offs2 ++ map (add32 klen) (drop (idx + 1) offs2);
    }

unfoldable pub insert_key_at : ℕ → Bytes → Entry → Option Entry
unfolding key_start insert_span
insert_key_at idx key e =
    elim (if ltb idx (length e.offs) then key_start idx e else some (length e.buf)) [
      | none ↦ none
      | some ins ↦ some (insert_span idx ins key e)
    ]

-- `removeKeyAt` from the bounds of the key on.
unfoldable pub remove_span : ℕ → ℕ → ℕ → Entry → ℕ × Entry
unfolding move
remove_span pos start next e =
    let old_len = next - start in
    let buf1 = move start next (length e.buf - next) e.buf in
    let offs1 = copy_at pos (drop (pos + 1) e.offs) e.offs in
    let offs2 = take (length offs1 - 1) offs1 in
    (
      old_len,
      record {
        buf = take (length buf1 - old_len) buf1;
        offs = take pos offs2 ++ map (sub32 old_len) (drop pos offs2);
      },
    )

-- The place of the key: both ends, or a panic.
abbrev pub on_bounds {ℓ} : {A : Type ℓ} → ℕ → Entry → (ℕ → ℕ → A) → Option A
unfolding key_start key_end
on_bounds pos e f = elim (key_start pos e) [
  | none ↦ none
  | some start ↦ elim (key_end pos e) [ none ↦ none | some next ↦ some (f start next) ]
]

unfoldable pub remove_key_at : ℕ → Entry → Option (ℕ × Entry)
unfolding key_start key_end remove_span
remove_key_at pos e = on_bounds pos e (λ start next. remove_span pos start next e)

-- The three cases of `replaceKeyAt`: the new key is longer, shorter, or of the same length.
unfoldable pub replace_span : ℕ → Bytes → ℕ → ℕ → ℕ → Entry → Entry
unfolding move
replace_span pos key start next old_len e =
    let klen = length key in
    let more = klen - old_len in
    let less = old_len - klen in
    let tail = length e.buf - next in
    let grown = move (next + more) next tail (e.buf ++ replicate more 0) in
    let shrunk = move (next - less) next tail e.buf in
    if ltb old_len klen
    then record {
      buf = copy_at start key grown;
      offs = take (pos + 1) e.offs ++ map (add32 more) (drop (pos + 1) e.offs);
    }
    else if ltb klen old_len
    then record {
      buf = copy_at start key (take (length shrunk - less) shrunk);
      offs = take (pos + 1) e.offs ++ map (sub32 less) (drop (pos + 1) e.offs);
    }
    else record { buf = copy_at start key e.buf; offs = e.offs }

unfoldable pub replace_key_at : ℕ → Bytes → Entry → Option Entry
unfolding key_start key_end replace_span
replace_key_at pos key e =
    on_bounds pos e (λ start next. replace_span pos key start next (next - start) e)
