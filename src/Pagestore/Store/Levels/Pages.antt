-- ===== src/Pagestore/Store/Levels/Pages.antt =====
-- `blobPutPages` (go/internal/pagestore/store.go) writes every page, each under an identifier of
-- its own.
use eavt_sql.Prelude.{◌≡◌, ◌≢◌, refl, some, List, [], ◌∷◌, length}
use eavt_sql.Bytes.Order.{Bytes}
use eavt_sql.Pagestore.Outcome.{ok}
use eavt_sql.Pagestore.Store.{Backend, IsLawful, blob_get, nil_uuid, Keeps, IsBlobPut-lawful}
use eavt_sql.Pagestore.Store.Write.{blob_put_pages}

-- The pages are found under the identifiers.
abbrev pub Stored : (B : Backend) → B.State → List Bytes → List Bytes → Type 0
Stored B s [] [] = Unit
Stored B s [] (u ∷ us) = ⊥
Stored B s (p ∷ ps) [] = ⊥
Stored B s (p ∷ ps) (u ∷ us) =
    (blob_get B u s ≡ ok (some p)) × (length u ≡ 16) × (u ≢ nil_uuid) × Stored B s ps us

pub record IsPagesPut (B : Backend) (ps : List Bytes) (s : B.State) : Type 0 where
  pub uuids : List Bytes
  pub after : B.State
  pub accepted : blob_put_pages B ps s ≡ ok (uuids, after)
  pub stored : Stored B after ps uuids
  pub kept : Keeps B s after

module _ (B : Backend) (L : IsLawful B) where
  pub blob_put_pages-IsPagesPut : (ps : List Bytes) (s : B.State) → IsPagesPut B ps s
  unfolding blob_put_pages
  blob_put_pages-IsPagesPut [] s = record {
    uuids = [];
    after = s;
    accepted = refl;
    stored = tt;
    kept = λ v x h. h;
  }
  blob_put_pages-IsPagesPut (p ∷ ps) s =
      let one = IsBlobPut-lawful B L p s in
      let more = blob_put_pages-IsPagesPut ps one.after in
      record {
        uuids = one.uuid ∷ more.uuids;
        after = more.after;
        accepted = rw (one.accepted, more.accepted) refl;
        stored = (more.kept one.uuid p one.found, one.long, one.fresh, more.stored);
        kept = λ v x h. more.kept v x (one.kept v x h);
      }
