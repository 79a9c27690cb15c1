-- ===== src/Tests/Clients.antt =====
-- A reflector client that sends one blob to a server with a memory store, twice. The digest of a blob is
-- the blob itself with four bytes behind it, and the one message has a JSON of one byte.
use reflector_go.Reflector.Client
use reflector_go.Reflector.Client.{Client, send_request, blob_exists}
use reflector_go.Reflector.Client.Exchanges.{IsSendable, client, session}
use reflector_go.Reflector.Client.Upload.{upload_accepted, upload_declined}
use reflector_go.Reflector.Server
use reflector_go.Reflector.Server.{Message, Reply, Stores, Session, returns}
use reflector_go.Reflector.Hash.{blob_hash}
use reflector_go.Store.{Blob}
use reflector_go.Store.Mem
use reflector_go.Store.Mem.{MemStore}
use reflector_go.Errors.{Error, ok, err, external}
use reflector_go.Prelude.Dict
use reflector_go.Prelude.Dict.{lookup}
use reflector_go.Prelude.{
  List, Option, Str, [], false, str_eq, ◌∷◌, bytes, none, ℕ, arith, refl, ◌++◌, ◌≡◌, some, length,
}

abbrev stores : Stores
stores = record {
  State = MemStore;
  has = Mem.has;
  wants = none;
  missing_blobs_for_known_stream = none;
  put = Mem.put;
  put_sd = Mem.put;
}

abbrev digest : List ℕ → List ℕ
digest b = b ++ (0 ∷ 0 ∷ 0 ∷ 0 ∷ [])

abbrev blob : Blob
blob = 7 ∷ []

abbrev hash : Str
hash = bytes "0700000000"

abbrev encode : Message → List ℕ
encode m = 9 ∷ []

abbrev decode : List ℕ → Option Message
decode run = some (send_request false (blob_hash digest blob) 1)

abbrev hash_hex : Blob → Str
hash_hex b = blob_hash digest b

abbrev always : Blob → Option Error
always b = none

abbrev before : MemStore
before = record { blobs = [] }

abbrev after : MemStore
after = record { blobs = (blob_hash digest blob, blob) ∷ [] }

blob-IsSendable : IsSendable stores decode digest 10 encode hash_hex always blob false
unfolding blob_hash
blob-IsSendable = record {
  valid = refl;
  hashed = refl;
  named = omega arith;
  some_bytes = omega arith;
  fits = omega arith;
  decodes = refl;
}

upload_accepted_example :
    (replies : List Reply) × (runs : List (List ℕ)) × let (sent, c) =
        Client.send encode hash_hex always blob false
          (client stores decode digest 10 encode hash_hex always replies (external 1)) in
      let (served, w) =
        Server.receive_blob stores decode digest 10
          (session stores decode digest 10 encode runs (external 1) before) in
      (sent ≡ ok tt)
      × (c.outbox ≡ runs)
      × (served ≡ returns tt)
      × (w.conn.outbox ≡ replies)
      × (w.store ≡ after)
unfolding Server.decide Server.call Server.◌>>=◌ Server.pure Mem.has Mem.put lookup Dict.insert
upload_accepted_example =
    upload_accepted stores decode digest 10 encode hash_hex always blob false [] (external 1) before
      before after blob-IsSendable refl refl

upload_declined_example :
    (replies : List Reply) × (runs : List (List ℕ)) × let (sent, c) =
        Client.send encode hash_hex always blob false
          (client stores decode digest 10 encode hash_hex always replies (external 1)) in
      let (served, w) =
        Server.receive_blob stores decode digest 10
          (session stores decode digest 10 encode runs (external 1) after) in
      (sent ≡ err blob_exists)
      × (c.outbox ≡ runs)
      × (length runs ≡ 1)
      × (served ≡ returns tt)
      × (w.conn.outbox ≡ replies)
      × (w.store ≡ after)
unfolding Server.decide Server.call Server.◌>>=◌ Server.pure Mem.has lookup str_eq blob_hash
upload_declined_example =
    upload_declined stores decode digest 10 encode hash_hex always blob false [] (external 1) after
      after blob-IsSendable refl
