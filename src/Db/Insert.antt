-- ===== src/Db/Insert.antt =====
-- db/db.go: `AddBlob`, `insertBlob`, `insertStream`, `touchBlobs`, `touchStreams`.
pub mod Leaves
pub mod Stored
use reflector_go.Db.Tables.{
  BlobRow, StreamRow, blob_insert, blob_touch, stream_touch, stream_insert, find_blob,
}
use reflector_go.Db.Exec.{Act, pure, fail, ◌>>=◌, ◌>>◌, once, exec, guard}
use reflector_go.Prelude.Int.{ℤ, pos, negsuc}
use reflector_go.Prelude.{
  Bool, List, Option, Str, if◌then◌else◌, ℕ, true, none, ◌∷◌, some, ◌==◌, [], suc, false, zero,
}
use reflector_go.Errors.{error_text, external}

-- `trackAccess`
pub data TrackAccess : Type 0 where
  track_access_none track_access_streams track_access_blobs : TrackAccess

-- `SQL`, without its connection's tables and the switch that logs queries
pub record Sql : Type 0 where
  pub connected : Bool
  pub track_access : TrackAccess
  pub soft_delete : Bool

abbrev pub tracks_blobs : Sql → Bool
tracks_blobs s = elim s.track_access [ track_access_blobs ↦ true | _ ↦ false ]

abbrev pub tracks_streams : Sql → Bool
tracks_streams s = elim s.track_access [ track_access_streams ↦ true | _ ↦ false ]

-- `if s.conn == nil`
abbrev pub need_connection : Sql → Act (Unit {0})
need_connection s = guard s.connected (error_text "not connected")

abbrev ignore : Act ℕ → Act (Unit {0})
ignore m = m >>= λ _. pure tt

unfoldable pub touch_blobs : List ℕ → Act (Unit {0})
unfolding exec blob_touch
touch_blobs [] = pure tt
touch_blobs (i ∷ ids) = λ t. ignore (exec (blob_touch t.now (i ∷ ids))) t

unfoldable pub touch_streams : List ℕ → Act (Unit {0})
unfolding exec stream_touch
touch_streams [] = pure tt
touch_streams (i ∷ ids) = λ t. ignore (exec (stream_touch t.now (i ∷ ids))) t

-- `SELECT id FROM blob_ WHERE hash = ?`, where no row is the driver's `ErrNoRows`
abbrev pub no_rows : ℕ
no_rows = 100

abbrev id_of : Option BlobRow → Act ℕ
id_of none = fail (external no_rows)
id_of (some r) = pure r.id

select_blob_id : Str → Act ℕ
unfolding find_blob
select_blob_id hash t = id_of (find_blob hash t.blob_) t

-- The part of `insertBlob` behind a reported id of 0.
pub blob_id_by_select : Sql → Str → Act ℕ
unfolding once select_blob_id touch_blobs
blob_id_by_select s hash = do
  id ← once (select_blob_id hash)
  if id == 0
      then fail (error_text "blob ID is 0 even after INSERTing and SELECTing")
      else do if tracks_blobs s then touch_blobs (id ∷ []) else pure tt; pure id

insert_positive : Sql → Str → ℕ → Bool → Act ℕ
unfolding exec blob_insert blob_id_by_select
insert_positive s hash length is_stored = do
  id ← (λ t.
      exec (blob_insert hash is_stored length (if tracks_blobs s then some t.now else none)) t)
  if id == 0 then blob_id_by_select s hash else pure id

-- `insertBlob`
unfoldable pub insert_blob : Sql → Str → ℤ → Bool → Act ℕ
unfolding insert_positive
insert_blob s hash (pos zero) is_stored = fail (error_text "length must be positive")
insert_blob s hash (pos (suc n)) is_stored = insert_positive s hash (suc n) is_stored
insert_blob s hash (negsuc n) is_stored = fail (error_text "length must be positive")

-- `AddBlob`
unfoldable pub add_blob : Sql → Str → ℤ → Bool → Act (Unit {0})
unfolding insert_blob
add_blob s hash length is_stored = do
  need_connection s
  ignore (insert_blob s hash length is_stored)

-- `SELECT id FROM stream WHERE sd_blob_id = ?`
find_stream : ℕ → List StreamRow → Option StreamRow
find_stream sd_blob_id [] = none
find_stream sd_blob_id (r ∷ rows) =
    if r.sd_blob_id == sd_blob_id then some r else find_stream sd_blob_id rows

abbrev stream_id_of : Option StreamRow → Act ℕ
stream_id_of none = fail (external no_rows)
stream_id_of (some r) = pure r.id

select_stream_id : ℕ → Act ℕ
unfolding find_stream
select_stream_id sd_blob_id t = stream_id_of (find_stream sd_blob_id t.stream) t

stream_id_by_select : Sql → ℕ → Act ℕ
unfolding once select_stream_id touch_streams
stream_id_by_select s sd_blob_id = do
  id ← once (select_stream_id sd_blob_id)
  if id == 0
      then fail (error_text "stream ID is 0 even after INSERTing and SELECTing")
      else do if tracks_streams s then touch_streams (id ∷ []) else pure tt; pure id

-- `insertStream`
unfoldable pub insert_stream : Sql → Str → ℕ → Act ℕ
unfolding exec stream_insert stream_id_by_select
insert_stream s hash sd_blob_id = do
  id ← (λ t. exec (stream_insert hash sd_blob_id (if tracks_streams s then some t.now else none)) t)
  if id == 0 then stream_id_by_select s sd_blob_id else pure id
