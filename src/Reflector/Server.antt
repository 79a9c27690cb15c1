-- ===== src/Reflector/Server.antt =====
-- reflector/server.go: the handling of one connection, `handleConn`.
-- A connection is the list of the byte runs that its reads will yield, each with the end or the
-- error behind it, and of the replies written. JSON decoding (`decode`), the digest and the limit
-- `stream.MaxBlobSize` are parameters, and so are the two stores, over one state since they may
-- share it. Deadlines, logs and metrics are left out.
pub mod Storage
pub mod Ends
pub mod Replies
use reflector_go.Reflector.Hash.{blob_hash}
use reflector_go.Prelude.Int.{ℤ, pos, negsuc, exceeds, equals}
use reflector_go.Store.{Blob}
use reflector_go.Prelude.{
  ◌&&◌, Bool, List, Option, Str, ℕ, leb, none, ◌||◌, ◌∷◌, true, length, if◌then◌else◌, false,
  String, not, suc, take, some, [], str_eq, zero, ◌++◌, ◌&&◌,
}
use reflector_go.Errors.{Error, Result, ok, error_text, Done, err}

-- The JSON objects that the server reads: `handshakeRequestResponse` and `sendBlobRequest`. A field
-- that is not there is nil, "" or 0.
pub record Message : Type 0 where
  pub version : Option ℤ
  pub blob_hash : Str
  pub blob_size : ℤ
  pub sd_blob_hash : Str
  pub sd_blob_size : ℤ

-- `handshakeRequestResponse`, `sendBlobResponse`, `sendSdBlobResponse`, `blobTransferResponse` and
-- `sdBlobTransferResponse`
pub data Reply : Type 0 where
  handshake : ℤ → Reply
  send_blob : Bool → Reply
  send_sd_blob : Bool → List Str → Reply
  received_blob received_sd_blob : Bool → Reply

pub record Conn : Type 0 where
  pub inbox : List (List ℕ)
  pub ending : Error
  pub outbox : List Reply
  -- whether the writes to come fail
  pub write_errors : List (Option Error)

-- `underlyingStore` and `outerStore`, as far as the server calls them. `wants` and
-- `missing_blobs_for_known_stream` are there if the underlying store is a `Blocklister` and a
-- `neededBlobChecker`.
pub record Stores : Type 1 where
  pub State : Type 0
  pub has : Str → State → Result Bool × State
  pub wants : Option (Str → State → Result Bool × State)
  pub missing_blobs_for_known_stream : Option (Str → State → Result (List Str) × State)
  pub put : Str → Blob → State → Done × State
  pub put_sd : Str → Blob → State → Done × State

-- How a call ends: also by a panic, which nothing recovers and which ends the process.
pub data Outcome {ℓ} (A : Type ℓ) : Type ℓ where
  returns : A → Outcome A
  fails : Error → Outcome A
  panics : Outcome A

abbrev pub outcome {ℓ} : {A : Type ℓ} → Result A → Outcome A
outcome (ok a) = returns a
outcome (err e) = fails e

-- The next run of bytes that the connection yields.
abbrev pub take_run : List (List ℕ) → Error → Outcome (List ℕ) × List (List ℕ)
take_run [] e = (fails e, [])
take_run (run ∷ rest) e = (returns run, rest)

abbrev pub take_error : List (Option Error) → Option Error × List (Option Error)
take_error [] = (none, [])
take_error (e ∷ rest) = (e, rest)

-- `protocolVersion1` and `protocolVersion2`
abbrev pub supported : ℤ → Bool
supported v = equals v 0 || equals v 1

pub record BlobRequest : Type 0 where
  pub size : ℤ
  pub hash : Str
  pub is_sd : Bool

-- `isSdBlob := sendRequest.SdBlobHash != ""` and the choice of the fields
abbrev pub chosen : Message → BlobRequest
chosen m =
    if str_eq m.sd_blob_hash []
    then record { size = m.blob_size; hash = m.blob_hash; is_sd = false }
    else record { size = m.sd_blob_size; hash = m.sd_blob_hash; is_sd = true }

-- `sendBlobResponse`
abbrev pub blob_response : Bool → Bool → List Str → Reply
blob_response wants is_sd needed = if is_sd then send_sd_blob wants needed else send_blob wants

-- `sendTransferResponse`
abbrev pub transfer_response : Bool → Bool → Reply
transfer_response received is_sd =
    if is_sd then received_sd_blob received else received_blob received

module _ (stores : Stores) (decode : List ℕ → Option Message) (digest : List ℕ → List ℕ)
    (max_blob_size : ℕ) where
  pub record Session : Type 0 where
    pub conn : Conn
    pub store : stores.State

  abbrev pub Serve {ℓ} : Type ℓ → Type ℓ
  Serve A = Session → Outcome A × Session

  unfoldable pub pure {ℓ} : {A : Type ℓ} → A → Serve A
  pure a w = (returns a, w)

  unfoldable pub fail {ℓ} : {A : Type ℓ} → Error → Serve A
  fail e w = (fails e, w)

  unfoldable pub panic {ℓ} : {A : Type ℓ} → Serve A
  panic w = (panics, w)

  -- A call on the stores.
  unfoldable pub call {ℓ} : {A : Type ℓ} → (stores.State → Result A × stores.State) → Serve A
  call m w = let (r, s) = m w.store in (outcome r, record w { store = s })

  -- `if err != nil { return err }`
  unfoldable pub require : Bool → String → Serve (Unit {0})
  require c e w = (if c then returns tt else fails (error_text e), w)

  -- `blobHash[:8]`, which panics for a shorter hash
  unfoldable pub prefix8 : Str → Serve (Unit {0})
  prefix8 hash w = (if leb 8 (length hash) then returns tt else panics, w)

  abbrev pub continue {ℓ κ} :
      {A : Type ℓ} {B : Type κ} → Outcome A × Session → (A → Serve B) → Outcome B × Session
  continue (returns a, w) f = f a w
  continue (fails e, w) f = (fails e, w)
  continue (panics, w) f = (panics, w)

  infixl 5 ◌>>=◌ ◌>>◌
  unfoldable pub ◌>>=◌ {ℓ κ} : {A : Type ℓ} {B : Type κ} → Serve A → (A → Serve B) → Serve B
  unfolding pure fail panic call require prefix8
  ◌>>=◌ m f w = continue (m w) f

  abbrev pub ◌>>◌ {ℓ κ} : {A : Type ℓ} {B : Type κ} → Serve A → Serve B → Serve B
  m >> k = m >>= λ _. k

  unfoldable pub receive : Serve (List ℕ)
  receive w =
      let (r, rest) = take_run w.conn.inbox w.conn.ending in
      (r, record w { conn = record w.conn { inbox = rest } })

  -- `s.read(conn, v)`
  abbrev pub decoded : Option Message → Serve Message
  decoded none = fail (error_text "invalid json")
  decoded (some m) = pure m

  unfoldable pub read : Serve Message
  unfolding receive
  read = do run ← receive; decoded (decode run)

  -- `s.write(conn, b)`
  unfoldable pub write : Reply → Serve (Unit {0})
  write r w =
      let (e, rest) = take_error w.conn.write_errors in
      elim e [
        | none ↦ (
          returns tt,
          record w {
            conn = record w.conn { outbox = w.conn.outbox ++ (r ∷ []); write_errors = rest };
          },
        )
        | some x ↦ (fails x, record w { conn = record w.conn { write_errors = rest } })
      ]

  abbrev pub answer_version : Option ℤ → Serve (Unit {0})
  answer_version none = fail (error_text "handshake is missing protocol version")
  answer_version (some v) = do
    require (supported v) "protocol version not supported"
    write (handshake v)

  unfoldable pub do_handshake : Serve (Unit {0})
  unfolding read write
  do_handshake = do m ← read; answer_version m.version

  unfoldable pub read_blob_request : Serve BlobRequest
  unfolding read
  read_blob_request = do
    m ← read
    let q = chosen m
    require (not (str_eq q.hash [])) "blob hash is empty"
    require (not (exceeds q.size max_blob_size)) "blob must be at most max_blob_size bytes"
    require (not (equals q.size 0)) "0-byte blob received"
    pure q

  -- Does the server want the blob?
  abbrev pub asks : Option (Str → stores.State → Result Bool × stores.State) → Str → Serve Bool
  asks none hash = do exists ← call (stores.has hash); pure (not exists)
  asks (some wants) hash = call (wants hash)

  -- What to answer for an sd blob that is not wanted: the blobs that its stream still needs, or, if
  -- the store cannot tell, that the sd blob is wanted after all.
  abbrev pub needed_for :
      Option (Str → stores.State → Result (List Str) × stores.State) → Str → Serve (Bool × List Str)
  needed_for none hash = pure (true, [])
  needed_for (some missing) hash = do needed ← call (missing hash); pure (false, needed)

  unfoldable pub decide : BlobRequest → Serve (Bool × List Str)
  decide q = do
    wants_blob ← asks stores.wants q.hash
    if q.is_sd && not wants_blob
        then needed_for stores.missing_blobs_for_known_stream q.hash
        else pure (wants_blob, [])

  -- `readRawBlob`: `make([]byte, blobSize)` panics at a negative size. The reader of the call is
  -- thrown away with what it read beyond the blob.
  unfoldable pub read_raw_blob : ℤ → Serve Blob
  unfolding receive
  read_raw_blob (negsuc n) = panic
  read_raw_blob (pos n) = do
    run ← receive
    require (leb n (length run)) "unexpected EOF"
    pure (take n run)

  -- What `receiveBlob` does when `readRawBlob` failed: a write error takes precedence.
  abbrev pub reject_read : BlobRequest → Error → Serve Blob
  reject_read q e = do write (transfer_response false q.is_sd); prefix8 q.hash; fail e

  abbrev pub or_reject : BlobRequest → Outcome Blob × Session → Outcome Blob × Session
  or_reject q (returns b, w) = (returns b, w)
  or_reject q (fails e, w) = reject_read q e w
  or_reject q (panics, w) = (panics, w)

  unfoldable pub read_blob : BlobRequest → Serve Blob
  unfolding read_raw_blob write
  read_blob q w = or_reject q (read_raw_blob q.size w)

  -- The part behind the bytes: they are stored if they have the hash that was announced.
  unfoldable pub store_blob : BlobRequest → Blob → Serve (Unit {0})
  unfolding write blob_hash
  store_blob q blob =
      if str_eq q.hash (blob_hash digest blob)
      then (do
        prefix8 q.hash
        call (if q.is_sd then stores.put_sd q.hash blob else stores.put q.hash blob)
        write (transfer_response true q.is_sd))
      else (do
        write (transfer_response false q.is_sd)
        fail (error_text "hash of received blob data does not match hash from send request"))

  unfoldable pub receive_blob : Serve (Unit {0})
  unfolding read_blob_request decide write read_blob store_blob
  receive_blob = do
    q ← read_blob_request
    answer ← decide q
    write (blob_response (answer.0) q.is_sd (answer.1))
    if answer.0 then (do blob ← read_blob q; store_blob q blob) else pure tt

  -- The loop of `handleConn`: it ends with the first error. Each round reads a run, so a fuel above
  -- the number of runs is enough.
  unfoldable pub serve_loop : ℕ → Serve (Unit {0})
  unfolding receive_blob
  serve_loop zero = pure tt
  serve_loop (suc fuel) = do receive_blob; serve_loop fuel

  -- `handleConn`. Errors are only logged; the connection is closed at the end.
  unfoldable pub handle_conn : Serve (Unit {0})
  unfolding do_handshake serve_loop
  handle_conn w = (do do_handshake; serve_loop (length w.conn.inbox)) w
