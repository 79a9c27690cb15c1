-- ===== src/Db/Lookup/Batches.antt =====
-- The batches of `hasBlobs` do not show: the answer is that of one query.
use reflector_go.Db.Tables.{Tables, BlobRow}
use reflector_go.Db.Lookup.{FoundRow, Found, truth_at, Result, ok, Dict, mem_str}
use reflector_go.Prelude.{List, Str, Bool, ◌≡◌, ◌||◌, any, str_eq, ◌&&◌}

-- The database marks a blob with this hash as stored.
abbrev pub is_stored_in : List BlobRow → Str → Bool
is_stored_in blobs h = any (λ (b : BlobRow). b.is_stored && str_eq b.hash h) blobs

has_row : Str → List FoundRow → Bool
has_row h rows = any (λ (r : FoundRow). str_eq r.hash h) rows

-- The loop finds, of the hashes not yet done, the stored ones.
IsFoundBy : List Str → List BlobRow → Found → Result Found → Type 0
IsFoundBy hashes blobs found r =
    (f : Found) × (r ≡ ok f)
    × ((h : Str)
        → truth_at h f.exists
          ≡ ((mem_str h hashes && is_stored_in blobs h) || truth_at h found.exists))
