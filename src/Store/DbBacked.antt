-- ===== src/Store/DbBacked.antt =====
-- store/dbbacked.go: `DBBackedStore`. `json.Unmarshal` into a `db.SdBlob` is the parameter `decode`.
-- Its mutex makes each of the calls on `blocked` one step.
pub mod Blocking
use reflector_go.Store.{
  Blob, BlobStore, Str, Result, Bool, BlobTrace, Error, ok, err, blob_not_found,
}
use reflector_go.Db.Tables.{Tables}
use reflector_go.Db.Insert
use reflector_go.Db.Insert.{Sql}
use reflector_go.Db.Lookup
use reflector_go.Db.Manage
use reflector_go.Db.Streams
use reflector_go.Db.Streams.{SdBlob}
use reflector_go.Prelude.Dict
use reflector_go.Prelude.Dict.{Dict}
use reflector_go.Prelude.Int.{pos}
use reflector_go.Prelude.{
  none, bytes, length, List, false, if◌then◌else◌, Option, not, str_eq, some, true, [], ◌&&◌,
}
use reflector_go.Shared.{stack, new_blob_trace}
use reflector_go.Errors.{is_not_found, error_text}

abbrev name_db_backed : Str
name_db_backed = bytes "db-backed"

module _ (blobs : BlobStore) (decode : Blob → Result SdBlob) (db : Sql)
    (delete_on_miss : Bool) where
  -- The fields that change. `blocked` is nil until it is read from the database.
  pub record DbBackedStore : Type 0 where
    pub blob_state : blobs.State
    pub tables : Tables
    pub blocked : Option (Dict Bool)

  -- A call on the store, and the calls that it makes on its two parts.
  abbrev pub Method {ℓ} : Type ℓ → Type ℓ
  Method A = DbBackedStore → Result A × DbBackedStore

  unfoldable pub on_db {ℓ} : {A : Type ℓ} → (Tables → Result A × Tables) → Method A
  on_db m d = let (r, t) = m d.tables in (r, record d { tables = t })

  unfoldable pub on_blobs {ℓ} : {A : Type ℓ} → (blobs.State → Result A × blobs.State) → Method A
  on_blobs m d = let (r, s) = m d.blob_state in (r, record d { blob_state = s })

  unfoldable pub pure {ℓ} : {A : Type ℓ} → A → Method A
  pure a d = (ok a, d)

  unfoldable pub fail {ℓ} : {A : Type ℓ} → Error → Method A
  fail e d = (err e, d)

  unfoldable pub lift {ℓ} : {A : Type ℓ} → Result A → Method A
  lift r d = (r, d)

  abbrev pub continue {ℓ κ} :
      {A : Type ℓ} {B : Type κ}
      → Result A × DbBackedStore
      → (A → Method B)
      → Result B × DbBackedStore
  continue (ok a, d) f = f a d
  continue (err e, d) f = (err e, d)

  infixl 5 ◌>>=◌ ◌>>◌
  unfoldable pub ◌>>=◌ {ℓ κ} : {A : Type ℓ} {B : Type κ} → Method A → (A → Method B) → Method B
  unfolding on_db on_blobs pure fail lift
  ◌>>=◌ m f d = continue (m d) f

  abbrev pub ◌>>◌ {ℓ κ} : {A : Type ℓ} {B : Type κ} → Method A → Method B → Method B
  m >> k = m >>= λ _. k

  unfoldable pub has : Str → Method Bool
  unfolding Lookup.has_blob on_db
  has hash = on_db (Lookup.has_blob db hash false)

  unfoldable pub delete : Str → Method (Unit {0})
  unfolding Manage.delete
  delete hash = do on_blobs (blobs.delete hash); on_db (Manage.delete db hash)

  -- The part of `Get` behind a successful `HasBlob`; the error of the deletion is only logged.
  abbrev pub is_miss : Result Blob → Bool
  is_miss (ok b) = false
  is_miss (err e) = is_not_found e

  unfoldable pub get_blob : Str → DbBackedStore → Result Blob × BlobTrace × DbBackedStore
  unfolding delete
  get_blob hash d =
      let (r, trace, s) = blobs.get hash d.blob_state in
      let d' = record d { blob_state = s } in
      (
        r,
        stack trace name_db_backed,
        if delete_on_miss && is_miss r then (delete hash d').1 else d',
      )

  abbrev pub get_if : Str → Result Bool × DbBackedStore → Result Blob × BlobTrace × DbBackedStore
  get_if hash (ok true, d) = get_blob hash d
  get_if hash (ok false, d) = (err blob_not_found, new_blob_trace name_db_backed, d)
  get_if hash (err e, d) = (err e, new_blob_trace name_db_backed, d)

  unfoldable pub get : Str → DbBackedStore → Result Blob × BlobTrace × DbBackedStore
  unfolding get_blob Lookup.has_blob on_db
  get hash d = get_if hash (on_db (Lookup.has_blob db hash true) d)

  unfoldable pub put : Str → Blob → Method (Unit {0})
  unfolding Insert.add_blob
  put hash blob = do
    on_blobs (blobs.put hash blob)
    on_db (Insert.add_blob db hash (pos (length blob)) true)

  unfoldable pub put_sd : Str → Blob → Method (Unit {0})
  unfolding Streams.add_sd_blob
  put_sd hash blob = do
    blob_contents ← lift (decode blob)
    if str_eq blob_contents.stream_hash []
        then fail (error_text "sd blob is missing stream hash")
        else do
          on_blobs (blobs.put_sd hash blob)
          on_db (Streams.add_sd_blob db hash (pos (length blob)) blob_contents)

  -- `initBlocked`
  abbrev pub read_blocked : Result (Dict Bool) × Tables → Method (Dict Bool)
  read_blocked (ok blocked, t) d = (ok blocked, record d { tables = t; blocked = some blocked })
  read_blocked (err e, t) d = (err e, record d { tables = t })

  abbrev pub blocked_or_read : Option (Dict Bool) → Method (Dict Bool)
  blocked_or_read (some blocked) d = (ok blocked, d)
  blocked_or_read none d = read_blocked (Manage.get_blocked d.tables) d

  unfoldable pub init_blocked : Method (Dict Bool)
  unfolding Manage.get_blocked
  init_blocked d = blocked_or_read d.blocked d

  -- `isBlocked`
  unfoldable pub is_blocked : Str → Method Bool
  unfolding init_blocked
  is_blocked hash = do blocked ← init_blocked; pure (Lookup.truth_at hash blocked)

  unfoldable pub set_blocked : Dict Bool → Method (Unit {0})
  set_blocked blocked d = (ok tt, record d { blocked = some blocked })

  -- `markBlocked`
  unfoldable pub mark_blocked : Str → Method (Unit {0})
  unfolding init_blocked set_blocked
  mark_blocked hash = do blocked ← init_blocked; set_blocked (Dict.insert hash true blocked)

  -- The part of `Block` behind its early return.
  unfoldable pub block_unblocked : Str → Method (Unit {0})
  unfolding mark_blocked Manage.block Manage.delete Lookup.has_blob
  block_unblocked hash = do
    on_db (Manage.block hash)
    present ← on_db (Lookup.has_blob db hash false)
    if present then (do on_blobs (blobs.delete hash); on_db (Manage.delete db hash)) else pure tt
    mark_blocked hash

  -- `Block`
  unfoldable pub block : Str → Method (Unit {0})
  unfolding is_blocked block_unblocked
  block hash = do blocked ← is_blocked hash; if blocked then pure tt else block_unblocked hash

  -- `Wants`
  unfoldable pub wants : Str → Method Bool
  unfolding is_blocked has
  wants hash = do
    blocked ← is_blocked hash
    if blocked then pure false else (do present ← has hash; pure (not present))

  -- `MissingBlobsForKnownStream`
  unfoldable pub missing_blobs_for_known_stream : Str → Method (List Str)
  unfolding Streams.missing_blobs_for_known_stream on_db
  missing_blobs_for_known_stream sd_hash = on_db (Streams.missing_blobs_for_known_stream db sd_hash)

  abbrev pub db_backed_store : BlobStore
  db_backed_store = record {
    State = DbBackedStore;
    name = name_db_backed;
    has = has;
    get = get;
    put = put;
    put_sd = put_sd;
    delete = delete;
    shutdown = λ d. record d { blob_state = blobs.shutdown d.blob_state };
  }
