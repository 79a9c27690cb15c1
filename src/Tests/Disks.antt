-- ===== src/Tests/Disks.antt =====
-- The disk store and the local cache database. Blobs are their own digests, and the writer of the
-- disk store writes nothing before its `Flush`.
use reflector_go.Store.{Blob}
use reflector_go.Store.Disk
use reflector_go.Store.Disk.{DiskStore, Fault}
use reflector_go.Store.Disk.Directory
use reflector_go.Store.Disk.Directory.{file}
use reflector_go.Store.Disk.Checks.{disk_store-get-checked}
use reflector_go.Db.Tables.{Tables, works}
use reflector_go.Db.Insert.{Sql, track_access_blobs}
use reflector_go.Db.Exec.Retries.{timeouts}
use reflector_go.Db.Lookup
use reflector_go.LiteDb
use reflector_go.LiteDb.{LiteSql}
use reflector_go.Reflector.Hash.{blob_hash}
use reflector_go.Prelude.Dict
use reflector_go.Prelude.Dict.{lookup}
use reflector_go.Errors.{ok, external}
use reflector_go.Prelude.{
  bytes, List, ◌≡◌, true, ℕ, false, ◌∷◌, none, str_eq, some, [], refl, arith,
}

abbrev writes_late : Blob → ℕ
writes_late b = 0

abbrev own_digest : List ℕ → List ℕ
own_digest b = b

-- The hash of the blob "x" is "78".
abbrev disk : DiskStore
disk = record { initialized = false; concurrent_checks = 0; files = []; answers = [] }

abbrev filled : DiskStore
filled = record disk {
  initialized = true;
  files = ([], []) ∷ (bytes "tmp", []) ∷ (bytes "78", (bytes "78", bytes "x") ∷ []) ∷ [];
}

put_run :
    (Disk.put 2 writes_late own_digest (bytes "78") (bytes "x") disk).1.files
    ≡ ((bytes "78", (bytes "78", bytes "x") ∷ []) ∷ (bytes "tmp", []) ∷ ([], []) ∷ [])
unfolding Disk.put str_eq lookup Dict.insert Dict.erase Disk.◌>>=◌ Directory.make_dir
put_run = refl

get_run : (Disk.get 2 writes_late own_digest (bytes "78") filled).0 ≡ ok (bytes "x")
unfolding Disk.get str_eq lookup Disk.◌>>=◌
get_run = refl

disk_store-get-checked_example : blob_hash own_digest (bytes "x") ≡ bytes "78"
disk_store-get-checked_example =
    disk_store-get-checked 2 writes_late own_digest (bytes "78") (bytes "x") filled (omega arith)
      get_run

-- The first seven calls work, and the flush fails.
abbrev full_disk : DiskStore
full_disk = record disk {
  answers =
      none
      ∷ none
      ∷ none
      ∷ none
      ∷ none
      ∷ none
      ∷ none
      ∷ some (record { error = external 28; leaves = [] })
      ∷ [];
}

flush_run :
    let (r, d) = Disk.put 2 writes_late own_digest (bytes "78") (bytes "x") full_disk in
    (r ≡ ok tt) × (file (bytes "78") (bytes "78") d.files ≡ some [])
unfolding Disk.put file str_eq lookup Dict.insert Dict.erase Disk.◌>>=◌ Directory.make_dir
flush_run = (refl, refl)

abbrev lite : LiteSql
lite = record { connected = true; track_access_time = true }

abbrev full : Sql
full = record { connected = true; track_access = track_access_blobs; soft_delete = false }

abbrev table : Tables
table = record {
  blob_ =
      record { id = 1; hash = bytes "aa"; is_stored = true; length = 3; last_accessed_at = none }
      ∷ [];
  stream = [];
  stream_blob = [];
  blocked = [];
  next_blob_id = 2;
  next_stream_id = 1;
  now = 100000;
  reports_updated_id = false;
  answers = timeouts 2 (works ∷ []);
}
