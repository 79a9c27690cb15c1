-- ===== src/LiteDb.antt =====
-- lite_db/db.go: `SQL`, the database of a local cache, with one table, `blob_`, whose columns are
-- those of the blob database. A call on a missing connection that the code does not test for, which
-- panics, is left out. Times are seconds.
pub mod Answers
pub mod Stored
use reflector_go.Db.Tables.{Tables, BlobRow, blob_insert, blob_touch, blob_mark_missing, find_blob}
use reflector_go.Db.Exec
use reflector_go.Db.Exec.{Act, pure, fail, ◌>>=◌, ◌>>◌, once, guard}
use reflector_go.Db.Lookup.{FoundRow, Found, stored_in, max_batch_size, truth_at}
use reflector_go.Db.Manage.{sort_by_access}
use reflector_go.Errors.{Result, ok, err, error_text, external}
use reflector_go.Prelude.Dict
use reflector_go.Prelude.Dict.{Dict}
use reflector_go.Prelude.Int.{ℤ, pos, negsuc}
use reflector_go.Prelude.{
  Bool, List, Option, Str, ℕ, if◌then◌else◌, ◌∷◌, some, true, length, map, suc, keep_if, ◌==◌, ltb,
  [], none, zero, ◌&&◌, take, ◌+◌, ◌++◌, drop, ◌*◌,
}

-- `SQL`
pub record LiteSql : Type 0 where
  pub connected : Bool
  pub track_access_time : Bool

-- `exec`, with its retries: the code is that of the blob database's.
unfoldable pub exec : Act ℕ → Act ℕ
unfolding Exec.exec
exec q = Exec.exec q

-- `if s.conn == nil`
abbrev pub need_connection : LiteSql → Act (Unit {0})
need_connection s = guard s.connected (error_text "not connected")

-- `SELECT id FROM blob_ WHERE hash = ?`, where no row is the driver's `ErrNoRows`
abbrev pub id_of : Option BlobRow → Act ℕ
id_of none = fail (external 100)
id_of (some r) = pure r.id

-- The part of `insertBlob` behind a reported id of 0.
unfoldable pub blob_id_by_select : Str → Act ℕ
unfolding once find_blob
blob_id_by_select hash = do
  id ← once (λ t. id_of (find_blob hash t.blob_) t)
  if id == 0 then fail (error_text "blob ID is 0 even after INSERTing and SELECTing") else pure id

unfoldable pub insert_positive : Str → ℕ → Act ℕ
unfolding exec blob_insert blob_id_by_select
insert_positive hash length = do
  id ← (λ t. exec (blob_insert hash true length (some t.now)) t)
  if id == 0 then blob_id_by_select hash else pure id

-- `insertBlob`
unfoldable pub insert_blob : Str → ℤ → Act ℕ
unfolding insert_positive
insert_blob hash (pos zero) = fail (error_text "length must be positive")
insert_blob hash (pos (suc n)) = insert_positive hash (suc n)
insert_blob hash (negsuc n) = fail (error_text "length must be positive")

-- `AddBlob`
unfoldable pub add_blob : LiteSql → Str → ℤ → Act (Unit {0})
unfolding insert_blob
add_blob s hash length = do need_connection s; insert_blob hash length; pure tt

-- `AddSDBlob`
unfoldable pub add_sd_blob : LiteSql → Str → ℤ → Act (Unit {0})
unfolding insert_blob
add_sd_blob s sd_hash sd_blob_length = do
  need_connection s
  insert_blob sd_hash sd_blob_length
  pure tt

-- `touch`
unfoldable pub touch : List ℕ → Act (Unit {0})
unfolding exec blob_touch
touch [] = pure tt
touch (i ∷ ids) = do (λ t. exec (blob_touch t.now (i ∷ ids)) t); pure tt

-- The query of `hasBlobs` on one batch.
unfoldable pub select_found : List Str → Tables → List FoundRow
select_found batch t =
    map
      (λ (b : BlobRow). record {
        hash = b.hash;
        blob_id = b.id;
        stream_id = none;
        last_accessed_at = b.last_accessed_at;
      })
      (keep_if (stored_in batch) t.blob_)

-- `!lastAccessedAt.Valid || lastAccessedAt.Time.Before(touchDeadline)`, the deadline a day before `now`
abbrev pub is_stale : ℕ → Option ℕ → Bool
is_stale now none = true
is_stale now (some accessed) = ltb (accessed + 24 * 3600) now

-- The loop over the rows.
unfoldable pub scan_rows : LiteSql → ℕ → List FoundRow → Found → Found
scan_rows s now [] found = found
scan_rows s now (r ∷ rows) found = scan_rows s now rows (record {
  exists = Dict.insert r.hash true found.exists;
  needs_touch =
      if s.track_access_time && is_stale now r.last_accessed_at
      then found.needs_touch ++ (r.blob_id ∷ [])
      else found.needs_touch;
})

-- `for len(hashes) > doneIndex`, one batch a round.
unfoldable pub batch_loop : ℕ → LiteSql → ℕ → List Str → ℕ → Found → Act Found
unfolding select_found scan_rows once
batch_loop zero s now hashes done_index found = pure found
batch_loop (suc fuel) s now hashes done_index found =
    let batch = take max_batch_size (drop done_index hashes) in
    let round = (do
      rows ← once (λ t. (ok (select_found batch t), t))
      batch_loop fuel s now hashes (done_index + length batch) (scan_rows s now rows found)) in
    if ltb done_index (length hashes) then round else pure found

-- `hasBlobs`; a round takes at least one hash, so `length hashes` rounds are enough.
unfoldable pub find_blobs : LiteSql → List Str → Act Found
unfolding batch_loop
find_blobs s hashes = do
  need_connection s
  λ t. batch_loop (length hashes) s t.now hashes 0 (record { exists = []; needs_touch = [] }) t

-- The touch of `HasBlobs`, whose error is dropped.
abbrev pub after_find : Result Found × Tables → Result (Dict Bool) × Tables
after_find (ok found, t) = (ok found.exists, (touch found.needs_touch t).1)
after_find (err e, t) = (err e, t)

-- `HasBlobs`
unfoldable pub has_blobs : LiteSql → List Str → Act (Dict Bool)
unfolding find_blobs touch
has_blobs s hashes t = after_find (find_blobs s hashes t)

-- `HasBlob`
unfoldable pub has_blob : LiteSql → Str → Act Bool
unfolding has_blobs
has_blob s hash = do exists ← has_blobs s (hash ∷ []); pure (truth_at hash exists)

-- `Delete`
unfoldable pub delete : Str → Act (Unit {0})
unfolding exec blob_mark_missing
delete hash = do exec (blob_mark_missing hash); pure tt

-- The hashes of the rows with `is_stored = 1`.
abbrev pub stored_hashes : List BlobRow → List Str
stored_hashes rows = map (λ (b : BlobRow). b.hash) (keep_if (λ (b : BlobRow). b.is_stored) rows)

-- `GetLRUBlobs`
unfoldable pub get_lru_blobs : LiteSql → ℕ → Act (List Str)
unfolding once
get_lru_blobs s max_blobs = do
  need_connection s
  once (λ t. (
    ok (
        map (λ (b : BlobRow). b.hash)
          (take max_blobs (sort_by_access (keep_if (λ (b : BlobRow). b.is_stored) t.blob_)))),
    t,
  ))

-- `BlobsCount`
unfoldable pub blobs_count : LiteSql → Act ℕ
unfolding once
blobs_count s = do need_connection s; once (λ t. (ok (length (stored_hashes t.blob_)), t))

-- `AllBlobs`: the count is only the capacity of the slice, but its error is returned.
unfoldable pub all_blobs : LiteSql → Act (List Str)
unfolding blobs_count
all_blobs s = do
  need_connection s
  blobs ← once (λ t. (ok (stored_hashes t.blob_), t))
  blobs_count s
  pure blobs
