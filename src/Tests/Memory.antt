-- ===== src/Tests/Memory.antt =====
-- A backend in memory for the page store, and a store whose second tree is one leaf.
use eavt_sql.Prelude.{
  ℕ, zero, suc, ◌≡◌, ◌≢◌, refl, ap, ap₂, sym, ◌∙◌, Bool, Bool-cases, Option-cases, inl, true,
  Option, none, some, List, [], ◌∷◌, ◌++◌, All, length, drop, arith, is_eq, if◌then◌else◌, inr,
}
use eavt_sql.Bytes.Order.{Bytes, cmp_seq, cmp_keys-eq-cmp_seq, cmp_keys_refl, eq_of_cmp_keys}
use eavt_sql.Pagestore.Outcome.{ok}
use eavt_sql.Pagestore.Page.{Pair, deserialize_page}
use eavt_sql.Pagestore.Range.{lt, IsAscending}
use eavt_sql.Pagestore.Root.{CfTree}
use eavt_sql.Pagestore.Root.Prefix.{below_end}
use eavt_sql.Pagestore.Store.{Backend, IsLawful, IsDeleting, nil_uuid, decompress, blob_get}
use eavt_sql.Pagestore.Store.Chain.{IsTreeKey, InRange}
use eavt_sql.Pagestore.Store.Commit.Tree.{IsKeyTree}

pub record Memory : Type 0 where
  pub blobs : List (Option Bytes)
  pub roots : List Pair

abbrev pub zeros : Bytes
zeros = 0 ∷ 0 ∷ 0 ∷ 0 ∷ 0 ∷ 0 ∷ 0 ∷ 0 ∷ 0 ∷ 0 ∷ 0 ∷ 0 ∷ 0 ∷ 0 ∷ 0 ∷ []

abbrev is_zeros : Bytes → Bool
is_zeros u = is_eq (cmp_seq u zeros)

abbrev blob_at : List (Option Bytes) → ℕ → Option Bytes
blob_at [] i = none
blob_at (b ∷ bs) zero = b
blob_at (b ∷ bs) (suc i) = blob_at bs i

abbrev get_blob : Bytes → List (Option Bytes) → Option Bytes
get_blob [] bs = none
get_blob (zero ∷ u) bs = none
get_blob (suc n ∷ u) bs = if is_zeros u then blob_at bs n else none

abbrev drop_blob : ℕ → List (Option Bytes) → List (Option Bytes)
drop_blob i [] = []
drop_blob zero (b ∷ bs) = none ∷ bs
drop_blob (suc i) (b ∷ bs) = b ∷ drop_blob i bs

-- Of a blob that is not there the deletion fails.
abbrev delete_blob : Bytes → Memory → Option Memory
delete_blob [] s = none
delete_blob (zero ∷ u) s = none
delete_blob (suc n ∷ u) s =
    if is_zeros u
    then elim (blob_at s.blobs n) [
      | none ↦ none
      | some d ↦ some (record { blobs = drop_blob n s.blobs; roots = s.roots })
    ]
    else none

abbrev pub uuids_from : ℕ → List (Option Bytes) → List Bytes
uuids_from i [] = []
uuids_from i (none ∷ bs) = uuids_from (suc i) bs
uuids_from i (some d ∷ bs) = (suc i ∷ zeros) ∷ uuids_from (suc i) bs

abbrev delete_name : Bytes → List Pair → List Pair
delete_name name [] = []
delete_name name ((n, d) ∷ rs) =
    let rest = delete_name name rs in if is_eq (cmp_seq name n) then rest else (n, d) ∷ rest

abbrev find_root : Bytes → List Pair → Option Bytes
find_root name [] = none
find_root name ((n, d) ∷ rs) = if is_eq (cmp_seq name n) then some d else find_root name rs

abbrev pub names : List Pair → List Bytes
names [] = []
names ((n, d) ∷ rs) = n ∷ names rs

-- Blobs are numbered from 1 on, and no number is given again.
abbrev pub memory : Backend
memory = record {
  State = Memory;
  put_data = λ d s.
      ok (
        (suc (length s.blobs) ∷ zeros),
        record { blobs = s.blobs ++ some d ∷ []; roots = s.roots },
      );
  get_data = λ u s. ok (get_blob u s.blobs);
  put_root = λ name d s. ok (record { blobs = s.blobs; roots = (name, d) ∷ s.roots });
  get_root = λ name s. ok (find_root name s.roots);
  list_roots = λ s. ok (names s.roots);
  list = λ s. ok (uuids_from 0 s.blobs);
  delete = delete_blob;
  delete_root = λ name s. record { blobs = s.blobs; roots = delete_name name s.roots };
  encode_all = λ d. 0x28 ∷ 0xb5 ∷ 0x2f ∷ 0xfd ∷ d;
  decode_all = λ d. ok (drop 4 d);
}

blob_at-length :
    (bs : List (Option Bytes)) (d : Bytes) → blob_at (bs ++ some d ∷ []) (length bs) ≡ some d
blob_at-length [] d = refl
blob_at-length (b ∷ bs) d = blob_at-length bs d

is_zeros-zeros : is_zeros zeros ≡ true
is_zeros-zeros = ground (arith, cmp_keys-eq-cmp_seq zeros zeros, cmp_keys_refl zeros)

get_blob-length :
    (bs : List (Option Bytes)) (d : Bytes)
    → get_blob (suc (length bs) ∷ zeros) (bs ++ some d ∷ []) ≡ some d
get_blob-length bs d = rw is_zeros-zeros (blob_at-length bs d)

blob_at-append :
    (bs : List (Option Bytes)) (i : ℕ) (d x : Bytes)
    → blob_at bs i ≡ some x
    → blob_at (bs ++ some d ∷ []) i ≡ some x
blob_at-append [] i d x h = ground (arith, h)
blob_at-append (b ∷ bs) zero d x h = h
blob_at-append (b ∷ bs) (suc i) d x h = blob_at-append bs i d x h

none_not_some {ℓ} : {A : Type ℓ} {a : A} → none ≡ some a → ⊥
none_not_some h = ground (arith, h)

get_blob-append :
    (bs : List (Option Bytes)) (v d x : Bytes)
    → get_blob v bs ≡ some x
    → get_blob v (bs ++ some d ∷ []) ≡ some x
get_blob-append bs [] d x h = ground (arith, h)
get_blob-append bs (zero ∷ u) d x h = ground (arith, h)
get_blob-append bs (suc n ∷ u) d x h = elim (Bool-cases (is_zeros u)) [
  | inl e ↦ rw e (blob_at-append bs n d x (rw e at h))
  | inr e ↦ absurd (none_not_some (rw e at h))
]

zeros_of_is_zeros : (u : Bytes) → is_zeros u ≡ true → u ≡ zeros
zeros_of_is_zeros u e = eq_of_cmp_keys u zeros (ground (arith, e, cmp_keys-eq-cmp_seq u zeros))

blob_at-drop_blob :
    (bs : List (Option Bytes)) (n m : ℕ) → m ≢ n → blob_at (drop_blob n bs) m ≡ blob_at bs m
blob_at-drop_blob [] n m ne = refl
blob_at-drop_blob (b ∷ bs) zero zero ne = absurd (ne refl)
blob_at-drop_blob (b ∷ bs) zero (suc m) ne = refl
blob_at-drop_blob (b ∷ bs) (suc n) zero ne = refl
blob_at-drop_blob (b ∷ bs) (suc n) (suc m) ne = blob_at-drop_blob bs n m (λ e. ne (ap suc e))

-- A deletion that succeeds is that of a numbered blob.
deleted_number :
    (u : Bytes) (s t : Memory)
    → delete_blob u s ≡ some t
    → (n : ℕ) × (u ≡ suc n ∷ zeros) × (t ≡ record { blobs = drop_blob n s.blobs; roots = s.roots })
deleted_number [] s t h = absurd (none_not_some h)
deleted_number (zero ∷ u) s t h = absurd (none_not_some h)
deleted_number (suc n ∷ u) s t h = elim (Bool-cases (is_zeros u)) [
  | inr e ↦ absurd (none_not_some (rw e at h))
  | inl e ↦ elim (Option-cases (blob_at s.blobs n)) [
    | inl f ↦ absurd (none_not_some (rw (e, f) at h))
    | inr (d, f) ↦ (n, ap (λ z. suc n ∷ z) (zeros_of_is_zeros u e), held (rw (e, f) at h))
  ]
]
  where
    held : {a : Memory} → some a ≡ some t → t ≡ a
    held {a = a} p = sym (ap (λ o. elim o [ none ↦ a | some x ↦ x ]) p)

get_blob-drop_blob :
    (bs : List (Option Bytes)) (n : ℕ) (v : Bytes)
    → v ≢ (suc n ∷ zeros)
    → get_blob v (drop_blob n bs) ≡ get_blob v bs
get_blob-drop_blob bs n [] ne = refl
get_blob-drop_blob bs n (zero ∷ u) ne = refl
get_blob-drop_blob bs n (suc m ∷ u) ne = elim (Bool-cases (is_zeros u)) [
  | inr e ↦ rw e refl
  | inl e ↦
      rw e (
        blob_at-drop_blob bs n m (λ same. ne (ap₂ (λ x y. suc x ∷ y) same (zeros_of_is_zeros u e))))
]

pub not_nil_uuid : (n : ℕ) → (suc n ∷ zeros) ≢ nil_uuid
not_nil_uuid n h = ground (arith, h)

some_of_ok : {o : Option Bytes} {x : Bytes} → ok o ≡ ok (some x) → o ≡ some x
some_of_ok h = ground (arith, h)

pub memory-IsLawful : IsLawful memory
memory-IsLawful = record {
  accepts = λ d s. record {
    uuid = suc (length s.blobs) ∷ zeros;
    after = record { blobs = s.blobs ++ some d ∷ []; roots = s.roots };
    accepted = refl;
    long = refl;
    fresh = not_nil_uuid (length s.blobs);
    found = ap ok (get_blob-length s.blobs d);
    kept = λ v x h. ap ok (get_blob-append s.blobs v d x (some_of_ok h));
  };
  accepts_root = λ name d s. record {
    after = record { blobs = s.blobs; roots = (name, d) ∷ s.roots };
    accepted = refl;
    found =
        let same : is_eq (cmp_seq name name) ≡ true =
          ground (arith, cmp_keys-eq-cmp_seq name name, cmp_keys_refl name) in
        rw same refl;
    kept = λ v. refl;
  };
  frame = λ d. (d, refl);
  decodes = λ d. refl;
}

pub memory-IsDeleting : IsDeleting memory
memory-IsDeleting = record {
  others = λ u v s t h ne.
      let (n, number, left) = deleted_number u s t h in
      let other : v ≢ (suc n ∷ zeros) = λ e. ne (e ∙ sym number) in
      ap (λ (x : Memory). ok (get_blob v x.blobs)) left
      ∙ ap ok (get_blob-drop_blob s.blobs n v other);
  blobs = λ name v s. refl;
}

abbrev pub key_of : ℕ → Bytes
key_of n = n ∷ 0 ∷ 0 ∷ 0 ∷ 0 ∷ 0 ∷ 0 ∷ 0 ∷ 0 ∷ []

abbrev pub old_keys : List Bytes
old_keys = key_of 1 ∷ key_of 5 ∷ []

abbrev pub new_keys : List Bytes
new_keys = key_of 3 ∷ key_of 5 ∷ []

-- A store whose column family 1 is one leaf.
abbrev pub leaf_uuid : Bytes
leaf_uuid = 1 ∷ zeros

abbrev pub old_blobs : Memory
old_blobs = record {
  blobs =
      some (
        0x28 ∷ 0xb5 ∷ 0x2f ∷ 0xfd ∷ 0 ∷ 2 ∷ 0 ∷ 9 ∷ 1 ∷ 0 ∷ 0 ∷ 0 ∷ 0 ∷ 0 ∷ 0 ∷ 0 ∷ 0 ∷ 0 ∷ 9 ∷ 5
        ∷ 0 ∷ 0 ∷ 0 ∷ 0 ∷ 0 ∷ 0 ∷ 0 ∷ 0 ∷ [])
      ∷ [];
  roots = [];
}

abbrev pub old_tree : CfTree
old_tree = record { root_uuid = leaf_uuid; height = 0; num_leaves = 1 }

pub old_keys-InRange : InRange [] none old_keys
unfolding lt cmp_seq below_end
old_keys-InRange = (
  (refl, (refl, tt)),
  (refl, (refl, tt)),
  ((refl, tt), (tt, tt)),
  ((omega arith, omega arith), ((omega arith, omega arith), tt)),
)

pub old_tree-IsKeyTree : IsKeyTree memory old_blobs old_tree old_keys
unfolding deserialize_page blob_get decompress cmp_seq
old_tree-IsKeyTree = inr (
  not_nil_uuid 0,
  omega arith,
  (
    0 ∷ 2 ∷ 0 ∷ 9 ∷ 1 ∷ 0 ∷ 0 ∷ 0 ∷ 0 ∷ 0 ∷ 0 ∷ 0 ∷ 0 ∷ 0 ∷ 9 ∷ 5 ∷ 0 ∷ 0 ∷ 0 ∷ 0 ∷ 0 ∷ 0 ∷ 0 ∷ 0
        ∷ [],
    refl,
    refl,
    old_keys-InRange,
  ),
)

pub new_keys-IsAscending : IsAscending new_keys
unfolding lt cmp_seq
new_keys-IsAscending = ((refl, tt), (tt, tt))

pub new_keys-IsTreeKey : All IsTreeKey new_keys
new_keys-IsTreeKey = ((omega arith, omega arith), ((omega arith, omega arith), tt))
