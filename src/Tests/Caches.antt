-- ===== src/Tests/Caches.antt =====
-- The parameters of a disk cache, whose size is a text of its length, and a pruning of one.
use reflector_go.Commands.{disk_cache_params, do_clean}
use reflector_go.Split.{split_from}
use reflector_go.Db.Tables.{BlobRow}
use reflector_go.Db.Exec.{exec_loop}
use reflector_go.Db.Insert.{Sql, track_access_blobs}
use reflector_go.Db.Streams.{SdBlob}
use reflector_go.Store.{Blob}
use reflector_go.Store.Mem
use reflector_go.Store.Mem.{MemStore, mem_store}
use reflector_go.Store.DbBacked
use reflector_go.Store.DbBacked.{DbBackedStore, lift}
use reflector_go.Errors.{Result, ok, err, not_implemented}
use reflector_go.Prelude.Dict
use reflector_go.Prelude.Dict.{lookup}
use reflector_go.Prelude.Int.{pos}
use reflector_go.Prelude.{
  Str, str_eq, true, ℕ, bytes, some, ◌≡◌, List, length, ◌∷◌, [], refl, false, none,
}

abbrev size_of : Str → Result ℕ
size_of s = ok (length s)

params_run :
    disk_cache_params size_of (bytes "10GB:/tmp/x:lru")
    ≡ ok (record { size = pos 4; path = bytes "/tmp/x"; manager = bytes "lru" })
unfolding disk_cache_params split_from str_eq
params_run = refl

abbrev sql : Sql
sql = record { connected = true; track_access = track_access_blobs; soft_delete = true }

abbrev no_decode : Blob → Result SdBlob
no_decode b = err not_implemented

abbrev blob : ℕ → Str → ℕ → BlobRow
blob id hash accessed = record {
  id = id;
  hash = hash;
  is_stored = true;
  length = 3;
  last_accessed_at = some accessed;
}

-- Ten blobs, of which the fifth was accessed first.
abbrev rows : List BlobRow
rows =
    blob 1 (bytes "0") 50
    ∷ blob 2 (bytes "1") 51
    ∷ blob 3 (bytes "2") 52
    ∷ blob 4 (bytes "3") 53
    ∷ blob 5 (bytes "4") 4
    ∷ blob 6 (bytes "5") 55
    ∷ blob 7 (bytes "6") 56
    ∷ blob 8 (bytes "7") 57
    ∷ blob 9 (bytes "8") 58
    ∷ blob 10 (bytes "9") 59
    ∷ []

abbrev cache : DbBackedStore mem_store no_decode sql true
cache = record {
  blob_state = record { blobs = (bytes "4", bytes "x") ∷ (bytes "5", bytes "y") ∷ [] };
  tables = record {
    blob_ = rows;
    stream = [];
    stream_blob = [];
    blocked = [];
    next_blob_id = 11;
    next_stream_id = 1;
    now = 100000;
    reports_updated_id = false;
    answers = [];
  };
  blocked = none;
}

clean_run :
    let (r, d) = do_clean mem_store no_decode sql 10 (λ hashes. hashes) cache in
    (r ≡ ok []) × (d.blob_state.blobs ≡ (bytes "5", bytes "y") ∷ [])
unfolding do_clean DbBacked.delete DbBacked.◌>>=◌ Mem.delete exec_loop Dict.erase str_eq
clean_run = (refl, refl)
