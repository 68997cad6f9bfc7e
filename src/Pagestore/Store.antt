-- ===== src/Pagestore/Store.antt =====
-- The page store over its blobs: `blobPut`, `blobGet` and `Decompress`
-- (go/internal/pagestore/store.go). The blob store's backend and the zstd library are not read
-- here: an unknown state with the backend's methods, and an encoder with its decoder.
pub mod Merge
pub mod Write
pub mod Chain
pub mod Nodes
pub mod Levels
pub mod Taken
pub mod Subtree
pub mod Commit
pub mod Gc
pub mod Pairs
use eavt_sql.Prelude.{
  ℕ, ◌≤◌, ◌≡◌, ◌≢◌, refl, sym, ap, subst, arith, Bool, true, false, ◌||◌, not, Option, none, some,
  List, [], ◌∷◌, ◌++◌, length, ◌==◌, if◌then◌else◌, inl, inr,
}
use eavt_sql.Bytes.Order.{Bytes}
use eavt_sql.Pagestore.Outcome.{Outcome, ok, err, panic, ◌>>=◌}

pub record Backend : Type 1 where
  pub State : Type 0
  pub put_data : Bytes → State → Outcome (Bytes × State)
  pub get_data : Bytes → State → Outcome (Option Bytes)
  pub put_root : Bytes → Bytes → State → Outcome State
  pub get_root : Bytes → State → Outcome (Option Bytes)
  pub list_roots : State → Outcome (List Bytes)
  pub list : State → Outcome (List Bytes)
  pub delete : Bytes → State → Option State
  pub delete_root : Bytes → State → State
  pub encode_all : Bytes → Bytes
  pub decode_all : Bytes → Outcome Bytes

-- `Decompress`: what does not start with the magic number of a zstd frame is returned as it is.
unfoldable pub decompress : Backend → Bytes → Outcome Bytes
decompress B (b0 ∷ b1 ∷ b2 ∷ b3 ∷ rest) =
    if not (b0 == 0x28) || not (b1 == 0xb5) || not (b2 == 0x2f) || not (b3 == 0xfd)
    then ok (b0 ∷ b1 ∷ b2 ∷ b3 ∷ rest)
    else B.decode_all (b0 ∷ b1 ∷ b2 ∷ b3 ∷ rest)
decompress B data' = ok data'

unfoldable pub blob_put : (B : Backend) → Bytes → B.State → Outcome (Bytes × B.State)
blob_put B data' s = B.put_data (B.encode_all data') s

decompress_found : Backend → Option Bytes → Outcome (Option Bytes)
decompress_found B none = ok none
decompress_found B (some data') = do out ← decompress B data'; ok (some out)

unfoldable pub blob_get : (B : Backend) → Bytes → B.State → Outcome (Option Bytes)
unfolding decompress_found decompress
blob_get B u s = do found ← B.get_data u s; decompress_found B found

-- `blobPutRoot`: any error is `false`.
unfoldable pub blob_put_root : (B : Backend) → Bytes → Bytes → B.State → Option B.State
blob_put_root B name data' s = elim (B.put_root name (B.encode_all data') s) [
  | ok t ↦ some t
  | err e ↦ none
  | panic ↦ none
]

unfoldable pub blob_get_root : (B : Backend) → Bytes → B.State → Outcome (Option Bytes)
unfolding decompress_found decompress
blob_get_root B name s = do found ← B.get_root name s; decompress_found B found

-- The identifier of 16 zero bytes stands for "no page".
abbrev pub nil_uuid : Bytes
nil_uuid = 0 ∷ 0 ∷ 0 ∷ 0 ∷ 0 ∷ 0 ∷ 0 ∷ 0 ∷ 0 ∷ 0 ∷ 0 ∷ 0 ∷ 0 ∷ 0 ∷ 0 ∷ 0 ∷ []

-- A blob that was put is found under a fresh identifier, and the blobs that were there still are.
pub record IsPut (B : Backend) (data' : Bytes) (s : B.State) : Type 0 where
  pub uuid : Bytes
  pub after : B.State
  pub accepted : B.put_data data' s ≡ ok (uuid, after)
  pub long : length uuid ≡ 16
  pub fresh : uuid ≢ nil_uuid
  pub found : B.get_data uuid after ≡ ok (some data')
  pub kept : (v x : Bytes) → B.get_data v s ≡ ok (some x) → B.get_data v after ≡ ok (some x)

pub record IsRootPut (B : Backend) (name data' : Bytes) (s : B.State) : Type 0 where
  pub after : B.State
  pub accepted : B.put_root name data' s ≡ ok after
  pub found : B.get_root name after ≡ ok (some data')
  pub kept : (v : Bytes) → B.get_data v after ≡ B.get_data v s

-- A deletion leaves the other blobs; an error of it is `none`.
pub record IsDeleting (B : Backend) : Type 0 where
  pub others :
      (u v : Bytes) (s t : B.State)
      → B.delete u s ≡ some t
      → v ≢ u
      → B.get_data v t ≡ B.get_data v s
  pub blobs : (name v : Bytes) (s : B.State) → B.get_data v (B.delete_root name s) ≡ B.get_data v s

-- A backend that accepts every blob, and a frame format that its own decoder reads.
pub record IsLawful (B : Backend) : Type 0 where
  pub accepts : (data' : Bytes) (s : B.State) → IsPut B data' s
  pub accepts_root : (name data' : Bytes) (s : B.State) → IsRootPut B name data' s
  pub frame :
      (data' : Bytes) → (rest : Bytes) × (B.encode_all data' ≡ 0x28 ∷ 0xb5 ∷ 0x2f ∷ 0xfd ∷ rest)
  pub decodes : (data' : Bytes) → B.decode_all (B.encode_all data') ≡ ok data'

-- Every blob of the first state is in the second.
abbrev pub Keeps : (B : Backend) → B.State → B.State → Type 0
Keeps B s t = (v x : Bytes) → blob_get B v s ≡ ok (some x) → blob_get B v t ≡ ok (some x)

-- The same for what `blobPut` writes and `blobGet` reads.
pub record IsBlobPut (B : Backend) (data' : Bytes) (s : B.State) : Type 0 where
  pub uuid : Bytes
  pub after : B.State
  pub accepted : blob_put B data' s ≡ ok (uuid, after)
  pub long : length uuid ≡ 16
  pub fresh : uuid ≢ nil_uuid
  pub found : blob_get B uuid after ≡ ok (some data')
  pub kept : Keeps B s after

-- What a successful read found.
found_blob :
    (B : Backend) (o : Outcome (Option Bytes)) (x : Bytes)
    → (o >>= decompress_found B) ≡ ok (some x)
    → (y : Bytes) × (o ≡ ok (some y))
unfolding decompress_found
found_blob B (ok none) x h = grind arith
found_blob B (ok (some y)) x h = (y, refl)
found_blob B (err e) x h = grind arith
found_blob B panic x h = grind arith

-- What the backend answers alike is read alike.
pub blob_get_same :
    (B : Backend) (u : Bytes) (s t : B.State)
    → B.get_data u s ≡ B.get_data u t
    → blob_get B u s ≡ blob_get B u t
unfolding blob_get
blob_get_same B u s t h = ap (λ o. o >>= decompress_found B) h

module _ (B : Backend) (L : IsLawful B) where
  decompress-encode_all : (data' : Bytes) → decompress B (B.encode_all data') ≡ ok data'
  unfolding decompress
  decompress-encode_all data' =
      let (rest, e) = L.frame data' in
      let decoded : B.decode_all (0x28 ∷ 0xb5 ∷ 0x2f ∷ 0xfd ∷ rest) ≡ ok data' =
        subst (λ d. B.decode_all d ≡ ok data') e (L.decodes data') in
      subst (λ d. decompress B d ≡ ok data') (sym e) decoded

  pub IsBlobPut-lawful : (data' : Bytes) (s : B.State) → IsBlobPut B data' s
  unfolding blob_put blob_get decompress_found
  IsBlobPut-lawful data' s =
      let p = L.accepts (B.encode_all data') s in
      record {
        uuid = p.uuid;
        after = p.after;
        accepted = p.accepted;
        long = p.long;
        fresh = p.fresh;
        found = rw (p.found, decompress-encode_all data') refl;
        kept = λ v x h.
            let (y, e) = found_blob B (B.get_data v s) x h in
            let same : (ok (some y) >>= decompress_found B) ≡ ok (some x) =
              subst (λ o. (o >>= decompress_found B) ≡ ok (some x)) e h in
            subst (λ o. (o >>= decompress_found B) ≡ ok (some x)) (sym (p.kept v y e)) same;
      }

  -- The same for a root: it is found under its name, and the blobs stay.
  pub blob_put_root_lem :
      (name data' : Bytes) (s : B.State)
      → (t : B.State) × (blob_put_root B name data' s ≡ some t)
        × (blob_get_root B name t ≡ ok (some data'))
        × Keeps B s t
  unfolding blob_put_root blob_get_root blob_get decompress_found
  blob_put_root_lem name data' s =
      let p = L.accepts_root name (B.encode_all data') s in
      (
        p.after,
        rw (p.accepted, blob_put_root) refl,
        rw (p.found, decompress-encode_all data') refl,
        λ v x h. subst (λ o. (o >>= decompress_found B) ≡ ok (some x)) (sym (p.kept v)) h,
      )
