-- ===== src/Pagestore/Page/Build.antt =====
-- `BuildPages` and `BuildPagesKv` (pages.go), `SplitIndexEntries` (types.go): a list that is too
-- large is halved. The fuel is the length of the list.
use eavt_sql.Prelude.{
  ℕ, zero, suc, ◌+◌, ◌*◌, ◌/◌, ◌≤◌, ◌<◌, ◌≡◌, refl, sym, ap, ap₂, ◌∙◌, Bool, true, false, List, [],
  ◌∷◌, ◌++◌, arith, leb, length, take, drop, length-drop, length-take, length-append,
  take-append-drop, All, Bool-cases, inl, inr, append_assoc, ◌⊎◌, append-nil, All-append,
}
use eavt_sql.Bytes.Order.{Bytes}
use eavt_sql.Pagestore.Page.{
  Pair, IndexEntry, serialize_page, serialize_page_kv, serialize_index_page,
}

abbrev pub max_raw_size : ℕ
max_raw_size = 512 * 1024

abbrev pub index_page_max_size : ℕ
index_page_max_size = 512 * 1024

-- Split a list until each part fits; a part of one element always does.
unfoldable pub split_list {ℓ} : {A : Type ℓ} → (List A → Bool) → ℕ → List A → List (List A)
split_list fits zero xs = []
split_list fits (suc n) [] = []
split_list fits (suc n) (x ∷ []) = (x ∷ []) ∷ []
split_list fits (suc n) (x ∷ y ∷ l) = elim (fits (x ∷ y ∷ l)) [
  | true ↦ (x ∷ y ∷ l) ∷ []
  | false ↦
      split_list fits n (take (length (x ∷ y ∷ l) / 2) (x ∷ y ∷ l))
      ++ split_list fits n (drop (length (x ∷ y ∷ l) / 2) (x ∷ y ∷ l))
]

unfoldable pub total_bytes : List Bytes → ℕ
total_bytes [] = 0
total_bytes (k ∷ ks) = length k + total_bytes ks

unfoldable pub total_pair_bytes : List Pair → ℕ
total_pair_bytes [] = 0
total_pair_bytes ((k, v) ∷ ps) = length k + length v + total_pair_bytes ps

-- A page with its first key.
unfoldable pub leaf_page : List Bytes → Pair
leaf_page [] = ([], serialize_page [])
leaf_page (k ∷ ks) = (k, serialize_page (k ∷ ks))

unfoldable pub leaf_page_kv : List Pair → Pair
leaf_page_kv [] = ([], serialize_page_kv [])
leaf_page_kv ((k, v) ∷ ps) = (k, serialize_page_kv ((k, v) ∷ ps))

unfoldable pub map_list {ℓ κ} : {A : Type ℓ} {B : Type κ} → (A → B) → List A → List B
map_list f [] = []
map_list f (x ∷ xs) = f x ∷ map_list f xs

unfoldable pub build_pages : List Bytes → List Pair
unfolding map_list split_list total_bytes leaf_page
build_pages keys =
    map_list leaf_page (split_list (λ ks. leb (total_bytes ks) max_raw_size) (length keys) keys)

unfoldable pub build_pages_kv : List Pair → List Pair
unfolding map_list split_list total_pair_bytes leaf_page_kv
build_pages_kv pairs =
    map_list leaf_page_kv
      (split_list (λ ps. leb (total_pair_bytes ps) max_raw_size) (length pairs) pairs)

unfoldable pub split_index_entries : List IndexEntry → List Bytes
unfolding map_list split_list
split_index_entries es =
    map_list serialize_index_page
      (split_list (λ l. leb (length (serialize_index_page l)) index_page_max_size) (length es) es)

unfoldable pub concat {ℓ} : {A : Type ℓ} → List (List A) → List A
concat [] = []
concat (x ∷ xs) = x ++ concat xs

concat-append {ℓ} :
    {A : Type ℓ} (xs ys : List (List A)) → concat (xs ++ ys) ≡ concat xs ++ concat ys
unfolding concat
concat-append [] ys = refl
concat-append (x ∷ xs) ys =
    ap (λ l. x ++ l) (concat-append xs ys) ∙ sym (append_assoc x (concat xs) (concat ys))

module _ {ℓ} {A : Type ℓ} (fits : List A → Bool) where
  -- No element is lost, and the order stays.
  pub concat-split_list : (n : ℕ) (xs : List A) → length xs ≤ n → concat (split_list fits n xs) ≡ xs
  unfolding split_list concat
  concat-split_list zero [] h = refl
  concat-split_list zero (x ∷ xs) h = absurd (omega arith)
  concat-split_list (suc n) [] h = refl
  concat-split_list (suc n) (x ∷ []) h = refl
  concat-split_list (suc n) (x ∷ y ∷ l) h = elim (Bool-cases (fits (x ∷ y ∷ l))) [
    | inl e ↦ rw (e, split_list) (append-nil (x ∷ y ∷ l))
    | inr e ↦
        let all = x ∷ y ∷ l in
        let mid = length all / 2 in
        rw (e, split_list)
          (concat-append (split_list fits n (take mid all)) (split_list fits n (drop mid all))
            ∙ ap₂ ◌++◌ (concat-split_list n (take mid all) (omega (arith, length-take mid all)))
                (concat-split_list n (drop mid all) (omega (arith, length-drop mid all)))
            ∙ take-append-drop mid all)
  ]

  -- With a fuel of the list's length no part is empty.
  pub split_list-parts :
      (n : ℕ) (xs : List A) → length xs ≤ n → All (λ l. 1 ≤ length l) (split_list fits n xs)
  unfolding split_list
  split_list-parts zero xs h = tt
  split_list-parts (suc n) [] h = tt
  split_list-parts (suc n) (x ∷ []) h = (omega arith, tt)
  split_list-parts (suc n) (x ∷ y ∷ l) h = elim (Bool-cases (fits (x ∷ y ∷ l))) [
    | inl e ↦ rw (e, split_list) (omega arith, tt)
    | inr e ↦
        let all = x ∷ y ∷ l in
        let mid = length all / 2 in
        rw (e, split_list)
          (All-append (λ l. 1 ≤ length l) (split_list fits n (take mid all))
            (split_list fits n (drop mid all))
            (split_list-parts n (take mid all) (omega (arith, length-take mid all)))
            (split_list-parts n (drop mid all) (omega (arith, length-drop mid all))))
  ]

  -- There are no more parts than elements.
  pub length-split_list : (n : ℕ) (xs : List A) → length (split_list fits n xs) ≤ length xs
  unfolding split_list
  length-split_list zero xs = omega arith
  length-split_list (suc n) [] = omega arith
  length-split_list (suc n) (x ∷ []) = omega arith
  length-split_list (suc n) (x ∷ y ∷ l) = elim (Bool-cases (fits (x ∷ y ∷ l))) [
    | inl e ↦ rw (e, split_list) (omega arith)
    | inr e ↦
        let all = x ∷ y ∷ l in
        let mid = length all / 2 in
        rw (e, split_list)
          (omega (
            arith,
            length-append (split_list fits n (take mid all)) (split_list fits n (drop mid all)),
            length-split_list n (take mid all),
            length-split_list n (drop mid all),
            length-take mid all,
            length-drop mid all,
          ))
  ]

  All-take {κ} : (P : A → Type κ) (n : ℕ) (xs : List A) → All P xs → All P (take n xs)
  All-take P zero xs a = tt
  All-take P (suc n) [] a = tt
  All-take P (suc n) (x ∷ xs) a = (a.0, All-take P n xs a.1)

  All-drop {κ} : (P : A → Type κ) (n : ℕ) (xs : List A) → All P xs → All P (drop n xs)
  All-drop P zero xs a = a
  All-drop P (suc n) [] a = tt
  All-drop P (suc n) (x ∷ xs) a = All-drop P n xs a.1

  -- When any two elements fit, a list of two elements or more has fewer parts than elements.
  pub length-split_list_lt {κ} :
      (P : A → Type κ)
      → ((x y : A) → P x → P y → fits (x ∷ y ∷ []) ≡ true)
      → (n : ℕ) (xs : List A) → All P xs
      → 2 ≤ length xs
      → length (split_list fits n xs) < length xs
  unfolding split_list
  length-split_list_lt P two zero xs a h = omega arith
  length-split_list_lt P two (suc n) [] a h = absurd (omega arith)
  length-split_list_lt P two (suc n) (x ∷ []) a h = absurd (omega arith)
  length-split_list_lt P two (suc n) (x ∷ y ∷ []) a h =
      rw (two x y a.0 a.1.0, split_list) (omega arith)
  length-split_list_lt P two (suc n) (x ∷ y ∷ z ∷ l) a h =
      elim (Bool-cases (fits (x ∷ y ∷ z ∷ l))) [
        | inl e ↦ rw (e, split_list) (omega arith)
        | inr e ↦
            let all = x ∷ y ∷ z ∷ l in
            let mid = length all / 2 in
            let back =
              length-split_list_lt P two n (drop mid all) (All-drop P mid all a)
                (omega (arith, length-drop mid all)) in
            rw (e, split_list)
              (omega (
                arith,
                length-append (split_list fits n (take mid all)) (split_list fits n (drop mid all)),
                length-split_list n (take mid all),
                back,
                length-take mid all,
                length-drop mid all,
              ))
      ]

  -- Each part fits, or has one element, and keeps what holds of every element.
  abbrev pub IsPart {κ} : (A → Type κ) → List A → Type κ
  IsPart P xs = ((fits xs ≡ true) ⊎ (length xs ≡ 1)) × All P xs

  pub split_list-IsPart {κ} :
      (P : A → Type κ) (n : ℕ) (xs : List A) → All P xs → All (IsPart P) (split_list fits n xs)
  unfolding split_list
  split_list-IsPart P zero xs a = tt
  split_list-IsPart P (suc n) [] a = tt
  split_list-IsPart P (suc n) (x ∷ []) a = ((inr refl, a), tt)
  split_list-IsPart P (suc n) (x ∷ y ∷ l) a = elim (Bool-cases (fits (x ∷ y ∷ l))) [
    | inl e ↦ rw (e, split_list) ((inl e, a), tt)
    | inr e ↦
        let all = x ∷ y ∷ l in
        let mid = length all / 2 in
        rw (e, split_list)
          (All-append (IsPart P) (split_list fits n (take mid all))
            (split_list fits n (drop mid all))
            (split_list-IsPart P n (take mid all) (All-take P mid all a))
            (split_list-IsPart P n (drop mid all) (All-drop P mid all a)))
  ]
