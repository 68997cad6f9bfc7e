-- ===== src/Pagestore/Store/Levels/Sizes.antt =====
-- The sizes of index pages (`SplitIndexEntries` of go/internal/pagestore/types.go), and what is read
-- back of them.
use eavt_sql.Prelude.{
  suc, ◌+◌, ◌*◌, ◌≤◌, ◌<◌, ◌^◌, ◌≡◌, refl, sym, ap, subst, ◌∙◌, true, false, List, [], ◌∷◌, ◌++◌,
  arith, leb→le, ◌==◌, length, length-append, All, All-map, Bool-cases, inl, inr, append-nil,
}
use eavt_sql.Bytes.Order.{Bytes}
use eavt_sql.Pagestore.Outcome.{ok}
use eavt_sql.Pagestore.Page.{
  IndexEntry, write_key, write_entries, write_count, serialize_index_page, deserialize_index_page,
}
use eavt_sql.Pagestore.Page.Pairs.{IsEntry, deserialize_index_page-serialize_index_page}
use eavt_sql.Pagestore.Page.Leaves.{length-write_key}
use eavt_sql.Pagestore.Page.Build.{
  split_list, map_list, split_index_entries, concat, concat-split_list, IsPart, split_list-IsPart,
  split_list-parts, length-split_list_lt,
}
use eavt_sql.Pagestore.Store.Write.{fits_index}
use eavt_sql.Pagestore.Store.Chain.{IsTreeEntry}

abbrev pub IsIndexPage : List IndexEntry → Type 0
IsIndexPage l = IsPart fits_index IsTreeEntry l × (1 ≤ length l)

IsEntry-tree : (e : IndexEntry) → IsTreeEntry e → IsEntry e
IsEntry-tree e (a, b, c) = (omega (arith, a), b)

-- An entry takes 16 bytes at least, and its key's length and 36 at most.
length-write_entries :
    (prev : Bytes) (es : List IndexEntry)
    → All IsTreeEntry es
    → (16 * length es ≤ length (write_entries prev es))
      × (length (write_entries prev es) ≤ (2 ^ 17 + 36) * length es)
unfolding write_entries
length-write_entries prev [] a = (omega arith, omega arith)
length-write_entries prev (e ∷ es) a =
    let more = length-write_entries e.key es a.1 in
    let key = length-write_key prev e.key in
    let l1 = length-append (write_key prev e.key) (e.uuid ++ write_entries e.key es) in
    let l2 = length-append e.uuid (write_entries e.key es) in
    (omega (arith, more.0, l1, l2, a.0.1), omega (arith, more.1, key, l1, l2, a.0.0, a.0.1))

length-serialize_index_page :
    (es : List IndexEntry) → length (serialize_index_page es) ≡ 2 + length (write_entries [] es)
unfolding serialize_index_page write_count
length-serialize_index_page es = omega arith

pub two_entries_fit :
    (x y : IndexEntry) → IsTreeEntry x → IsTreeEntry y → fits_index (x ∷ y ∷ []) ≡ true
two_entries_fit x y a b =
    let bound = length-write_entries [] (x ∷ y ∷ []) (a, (b, tt)) in
    ground (arith, bound.1, length-serialize_index_page (x ∷ y ∷ []))

pub one_entry_fits : (x : IndexEntry) → IsTreeEntry x → fits_index (x ∷ []) ≡ true
one_entry_fits x a =
    let bound = length-write_entries [] (x ∷ []) (a, tt) in
    ground (arith, bound.1, length-serialize_index_page (x ∷ []))

pub length-map_list {ℓ κ} :
    {A : Type ℓ} {B : Type κ} (f : A → B) (xs : List A) → length (map_list f xs) ≡ length xs
unfolding map_list
length-map_list f [] = refl
length-map_list f (x ∷ xs) = ap suc (length-map_list f xs)

-- Two or more entries, with keys of at most 128 KiB and 16-byte identifiers that are not zero, take
-- fewer index pages than there are entries.
pub split_index_entries_shrinks :
    (es : List IndexEntry)
    → All IsTreeEntry es
    → 2 ≤ length es
    → length (split_index_entries es) < length es
unfolding split_index_entries
split_index_entries_shrinks es a n =
    let parts = split_list fits_index (length es) es in
    let fewer = length-split_list_lt fits_index IsTreeEntry two_entries_fit (length es) es a n in
    omega (arith, fewer, length-map_list serialize_index_page parts)

pub page_read :
    (es : List IndexEntry)
    → IsPart fits_index IsTreeEntry es
    → deserialize_index_page (serialize_index_page es) ≡ ok es
page_read es (inl e, a) =
    let bound = length-write_entries [] es a in
    let small = leb→le _ _ e in
    let len = length-serialize_index_page es in
    deserialize_index_page-serialize_index_page es (omega (arith, bound.0, small, len))
      (All-map IsTreeEntry IsEntry IsEntry-tree es a) (omega (arith, small))
page_read es (inr e, a) =
    let bound = length-write_entries [] es a in
    let len = length-serialize_index_page es in
    deserialize_index_page-serialize_index_page es (omega (arith, e))
      (All-map IsTreeEntry IsEntry IsEntry-tree es a) (omega (arith, bound.1, len, e))

parts-IsIndexPage :
    (parts : List (List IndexEntry))
    → All (IsPart fits_index IsTreeEntry) parts
    → All (λ l. 1 ≤ length l) parts
    → All IsIndexPage parts
parts-IsIndexPage [] a b = tt
parts-IsIndexPage (p ∷ ps) a b = ((a.0, b.0), parts-IsIndexPage ps a.1 b.1)

pub good_parts :
    (es : List IndexEntry)
    → All IsTreeEntry es
    → All IsIndexPage (split_list fits_index (length es) es)
good_parts es a =
    parts-IsIndexPage (split_list fits_index (length es) es)
      (split_list-IsPart fits_index IsTreeEntry (length es) es a)
      (split_list-parts fits_index (length es) es (omega arith))

page_fits : (p : List IndexEntry) → IsIndexPage p → fits_index p ≡ true
page_fits p ((inl e, a), n) = e
page_fits [] ((inr e, a), n) = absurd (omega (arith, n))
page_fits (x ∷ []) ((inr e, a), n) = one_entry_fits x a.0
page_fits (x ∷ y ∷ l) ((inr e, a), n) = absurd (omega (arith, e))

one_part_fits :
    (parts : List (List IndexEntry)) (es : List IndexEntry)
    → concat parts ≡ es
    → All IsIndexPage parts
    → length parts ≡ 1
    → fits_index es ≡ true
unfolding concat
one_part_fits [] es same a n = absurd (omega arith)
one_part_fits (p ∷ []) es same a n =
    subst (λ l. fits_index l ≡ true) (sym (append-nil p) ∙ same) (page_fits p a.0)
one_part_fits (p ∷ q ∷ ps) es same a n = absurd (omega arith)

-- A level that does not fit in a page is not split into one page.
pub split_index_entries-single :
    (es : List IndexEntry)
    → All IsTreeEntry es
    → fits_index es ≡ false
    → (length (split_index_entries es) == 1) ≡ false
unfolding split_index_entries
split_index_entries-single es a f =
    let parts = split_list fits_index (length es) es in
    let whole = concat-split_list fits_index (length es) es (omega arith) in
    elim (Bool-cases (length parts == 1)) [
      | inl e ↦ ground (arith, one_part_fits parts es whole (good_parts es a) (ground arith))
      | inr e ↦ rw (length-map_list serialize_index_page parts) e
    ]
