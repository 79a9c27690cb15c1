-- ===== src/Reflector/Client.antt =====
-- reflector/client.go: `Client`. A connection is the list of the JSON replies that its reads will yield,
-- with the end or the error behind them, and of the byte runs written. The JSON of a request
-- (`encode`), `stream.Blob.HashHex` and `stream.Blob.ValidForSend` are parameters.
pub mod Upload
pub mod Exchanges
use reflector_go.Prelude.Int.{ℤ, pos, equals}
use reflector_go.Reflector.Server.{
  Message, Reply, handshake, send_blob, send_sd_blob, received_blob, received_sd_blob, take_error,
}
use reflector_go.Store.{Blob}
use reflector_go.Errors.{Error, Result, ok, err, error_text}
use reflector_go.Prelude.{
  Bool, List, Option, some, ◌∷◌, if◌then◌else◌, false, none, Str, [], ℕ, length, true, ◌++◌,
}

-- `Client`, with its connection.
pub record Client : Type 0 where
  pub connected : Bool
  pub inbox : List Reply
  pub ending : Error
  pub outbox : List (List ℕ)
  -- whether the writes to come fail
  pub write_errors : List (Option Error)

abbrev pub Act {ℓ} : Type ℓ → Type ℓ
Act A = Client → Result A × Client

abbrev pub fail {ℓ} : {A : Type ℓ} → Error → Act A
fail e c = (err e, c)

abbrev pub continue {ℓ κ} :
    {A : Type ℓ} {B : Type κ} → Result A × Client → (A → Act B) → Result B × Client
continue (ok a, c) f = f a c
continue (err e, c) f = (err e, c)

infixl 5 ◌>>=◌ ◌>>◌
unfoldable pub ◌>>=◌ {ℓ κ} : {A : Type ℓ} {B : Type κ} → Act A → (A → Act B) → Act B
◌>>=◌ m f c = continue (m c) f

abbrev pub ◌>>◌ {ℓ κ} : {A : Type ℓ} {B : Type κ} → Act A → Act B → Act B
m >> k = m >>= λ _. k

-- `if … { return errors.Err(…) }`
unfoldable pub require : Bool → Error → Act (Unit {0})
require b e c = (if b then ok tt else err e, c)

abbrev pub need_connected : Act (Unit {0})
need_connected c = require c.connected (error_text "not connected") c

-- `c.conn.Write(b)`
abbrev pub written : Option Error → List ℕ → Client → Result (Unit {0}) × Client
written none run c = (ok tt, record c { outbox = c.outbox ++ (run ∷ []) })
written (some e) run c = (err e, c)

unfoldable pub write : List ℕ → Act (Unit {0})
write run c =
    let (e, rest) = take_error c.write_errors in written e run (record c { write_errors = rest })

-- `dec.Decode(…)`
abbrev pub next_reply : List Reply → Client → Result Reply × Client
next_reply [] c = (err c.ending, c)
next_reply (r ∷ rest) c = (ok r, record c { inbox = rest })

unfoldable pub receive : Act Reply
receive c = next_reply c.inbox c

-- The fields that the client reads of a reply. One that is not there is nil or false.
abbrev pub version_of : Reply → Option ℤ
version_of (handshake v) = some v
version_of _ = none

abbrev pub wants_blob : Bool → Reply → Bool
wants_blob false (send_blob b) = b
wants_blob true (send_sd_blob b needed) = b
wants_blob _ _ = false

abbrev pub has_received : Bool → Reply → Bool
has_received false (received_blob b) = b
has_received true (received_sd_blob b) = b
has_received _ _ = false

-- `sendBlobRequest`
abbrev pub send_request : Bool → Str → ℕ → Message
send_request is_sd hash size =
    if is_sd
    then record {
      version = none;
      blob_hash = [];
      blob_size = pos 0;
      sd_blob_hash = hash;
      sd_blob_size = pos size;
    }
    else record {
      version = none;
      blob_hash = hash;
      blob_size = pos size;
      sd_blob_hash = [];
      sd_blob_size = pos 0;
    }

abbrev pub version_request : ℕ → Message
version_request v = record {
  version = some (pos v);
  blob_hash = [];
  blob_size = pos 0;
  sd_blob_hash = [];
  sd_blob_size = pos 0;
}

-- `ErrBlobExists`
abbrev pub blob_exists : Error
blob_exists = error_text "blob exists on server"

module _ (encode : Message → List ℕ) (hash_hex : Blob → Str)
    (valid_for_send : Blob → Option Error) where
  abbrev pub check_valid : Option Error → Act (Unit {0})
  check_valid none c = (ok tt, c)
  check_valid (some e) c = (err e, c)

  -- `sendBlob`
  unfoldable pub send : Blob → Bool → Act (Unit {0})
  unfolding require write receive
  send blob is_sd = do
    need_connected
    check_valid (valid_for_send blob)
    write (encode (send_request is_sd (hash_hex blob) (length blob)))
    answer ← receive
    require (wants_blob is_sd answer) blob_exists
    write blob
    transfer ← receive
    require (has_received is_sd transfer) (error_text "server did not received blob")

  abbrev pub check_version : Option ℤ → ℕ → Act (Unit {0})
  check_version none version = fail (error_text "invalid handshake")
  check_version (some v) version =
      require (equals v version) (error_text "handshake version mismatch")

  -- `doHandshake`
  unfoldable pub do_handshake : ℕ → Act (Unit {0})
  unfolding write receive require
  do_handshake version = do
    need_connected
    write (encode (version_request version))
    resp ← receive
    check_version (version_of resp) version
