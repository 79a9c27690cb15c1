-- ===== src/Tests/Database.antt =====
-- The database calls.
use reflector_go.Db.Tables
use reflector_go.Db.Insert.{add_blob}
use reflector_go.Prelude.Int.{pos}
use reflector_go.Prelude.{
  bytes, refl, true, ℕ, ◌≡◌, Bool, ◌∷◌, List, Str, [], if◌then◌else◌, false, leb, none, ◌-◌, str_eq,
}
use reflector_go.Prelude.Dict
use reflector_go.Prelude.Dict.{Dict}
use reflector_go.Errors.{ok, err, external}
use reflector_go.Db.Tables.{Tables, BlobRow, works}
use reflector_go.Db.Insert.{Sql, track_access_blobs}
use reflector_go.Db.Exec.{exec_loop, Act, exec, max_attempts}
use reflector_go.Db.Exec.Retries.{timeouts, exec_after_timeouts}
use reflector_go.Db.Lookup.{has_blobs}

abbrev row : ℕ → Str → Bool → BlobRow
row id hash stored = record {
  id = id;
  hash = hash;
  is_stored = stored;
  length = 3;
  last_accessed_at = none;
}

abbrev tables : Tables
tables = record {
  blob_ = row 1 (bytes "aa") true ∷ row 2 (bytes "bb") false ∷ [];
  stream = [];
  stream_blob = [];
  blocked = [];
  next_blob_id = 3;
  next_stream_id = 1;
  now = 100000;
  reports_updated_id = false;
  answers = [];
}

abbrev sql : Sql
sql = record { connected = true; track_access = track_access_blobs; soft_delete = false }

abbrev asked : List Str
asked = bytes "bb" ∷ bytes "aa" ∷ bytes "cc" ∷ []

has_blobs_run : (has_blobs sql asked true tables).0 ≡ ok ((bytes "aa", true) ∷ [])
unfolding has_blobs str_eq Dict.insert
has_blobs_run = refl

abbrev one_row : Act ℕ
one_row t = (ok 7, record t { blob_ = [] })

abbrev slow_tables : Tables
slow_tables = record tables { answers = timeouts 2 (works ∷ []) }

exec_after_timeouts_example : exec one_row slow_tables ≡ (
    if leb 2 max_attempts
    then one_row (record slow_tables { answers = [] })
    else (err (external 1205), record slow_tables { answers = timeouts (2 - 4) (works ∷ []) }))
exec_after_timeouts_example = exec_after_timeouts 2 one_row slow_tables [] refl

add_blob_run : (add_blob sql (bytes "bb") (pos 3) true tables).0 ≡ ok tt
unfolding add_blob Tables.find_blob Tables.update_blob str_eq exec_loop
add_blob_run = refl
