-- ===== src/Tests/Protocols.antt =====
-- The two protocols.
use reflector_go.Reflector.Server.Ends.{handle_conn_ends}
use reflector_go.Prelude.{
  bytes, refl, false, length, Str, ◌++◌, ◌≢◌, [], none, Option, ◌∷◌, List, ◌≡◌, ℕ, arith, true,
  Bool, str_eq, if◌then◌else◌, ◌==◌, some,
}
use reflector_go.Prelude.Int.{ℤ, pos, negsuc}
use reflector_go.Prelude.Dict
use reflector_go.Prelude.Dict.{lookup}
use reflector_go.Errors.{external}
use reflector_go.Store.{Blob}
use reflector_go.Store.Mem
use reflector_go.Store.Mem.{MemStore, mem_store, mem_spec, mem_store-Implements}
use reflector_go.Peer.Message.{Buffer, Reading, read_next_message}
use reflector_go.Peer.Message.Scan.{
  scan, IsFramed, read_next_message-eq-scan, read_next_message-IsFramed,
}
use reflector_go.Reflector.Hash.{hex_encode, blob_hash, length-hex_encode}
use reflector_go.Reflector.Server.{
  ◌>>=◌, Message, Stores, Session, BlobRequest, handle_conn, store_blob, returns, handshake,
  send_blob, received_blob,
}
use reflector_go.Reflector.Server.Storage.{IsStable, handle_conn-IsStable}

-- `{"a":"}"}` and what follows it: the first `}` is inside a string.
abbrev request : Str
request = bytes "{\"a\":\"}\"}"

abbrev is_request : List ℕ → Bool
is_request m = str_eq m request

abbrev stream : Buffer
stream = record { input = request ++ bytes "{\"b\""; ending = none }

read_next_message_run :
    read_next_message is_request stream ≡ (Reading.message request, bytes "{\"b\"")
unfolding read_next_message str_eq
read_next_message_run = refl

read_next_message-eq-scan_example :
    read_next_message is_request stream ≡ scan is_request none [] stream.input
read_next_message-eq-scan_example = read_next_message-eq-scan is_request stream

read_next_message-IsFramed_example :
    IsFramed is_request stream.input (read_next_message is_request stream)
read_next_message-IsFramed_example = read_next_message-IsFramed is_request stream

length-hex_encode_example : length (hex_encode (7 ∷ 255 ∷ [])) ≡ 4
length-hex_encode_example = length-hex_encode (7 ∷ 255 ∷ [])

-- The digest of a blob is the blob itself with four bytes behind it.
abbrev digest : List ℕ → List ℕ
digest b = b ++ (0 ∷ 0 ∷ 0 ∷ 0 ∷ [])

abbrev hash : Str
hash = bytes "0700000000"

abbrev message_of : Option ℤ → ℤ → Message
message_of v size = record {
  version = v;
  blob_hash = hash;
  blob_size = size;
  sd_blob_hash = [];
  sd_blob_size = pos 0;
}

abbrev decode : List ℕ → Option Message
decode (n ∷ []) =
    if n == 1
    then some (message_of (some (pos 0)) (pos 0))
    else if n == 2
    then some (message_of none (pos 1))
    else if n == 3
    then some (message_of none (negsuc 0))
    else none
decode _ = none

abbrev Fits : Str → Blob → Type 0
Fits h b = blob_hash digest b ≡ h

abbrev mem_stores : Stores
mem_stores = record {
  State = MemStore;
  has = mem_store.has;
  wants = none;
  missing_blobs_for_known_stream = none;
  put = mem_store.put;
  put_sd = mem_store.put_sd;
}

abbrev session : List (List ℕ) → Session mem_stores decode digest 2097152
session inbox = record {
  conn = record { inbox = inbox; ending = external 0; outbox = []; write_errors = [] };
  store = record { blobs = [] };
}

abbrev upload : List (List ℕ)
upload = (1 ∷ []) ∷ (2 ∷ []) ∷ (7 ∷ []) ∷ []

handle_conn_run :
    let w = (handle_conn mem_stores decode digest 2097152 (session upload)).1 in
    (w.store.blobs ≡ (hash, 7 ∷ []) ∷ [])
    × (w.conn.outbox ≡ handshake (pos 0) ∷ send_blob true ∷ received_blob true ∷ [])
unfolding handle_conn ◌>>=◌ str_eq lookup Dict.insert Mem.has Mem.put
handle_conn_run = (refl, refl)

-- Every blob is stored under its own hash.
abbrev IsOwn : MemStore → Type 0
IsOwn m = (mem_spec Fits).IsValid m

IsOwn-IsStable : IsStable mem_stores digest IsOwn
IsOwn-IsStable =
    let I = mem_store-Implements Fits in
    record {
      has = λ h s p. (I.has_read h s p).valid;
      wants = λ ask e h s p. cc;
      missing = λ ask e h s p. cc;
      put = λ h b s e p. (I.put_write h b s e p).valid;
      put_sd = λ h b s e p. (I.put_sd_write h b s e p).valid;
    }

none-IsOwn : IsOwn (record { blobs = [] })
unfolding lookup
none-IsOwn h b e = cc

handle_conn-IsStable_example :
    IsOwn (handle_conn mem_stores decode digest 2097152 (session upload)).1.store
handle_conn-IsStable_example =
    handle_conn-IsStable mem_stores decode digest 2097152 IsOwn-IsStable (session upload) none-IsOwn

abbrev sent : BlobRequest
sent = record { size = pos 1; hash = hash; is_sd = false }

store_blob_run :
    (store_blob mem_stores decode digest 2097152 sent (7 ∷ []) (session [])).0 ≡ returns tt
unfolding store_blob str_eq ◌>>=◌ Mem.put
store_blob_run = refl

another_hash : blob_hash digest (8 ∷ []) ≢ hash
unfolding blob_hash
another_hash e = ground arith

handle_conn_ends_example :
    (handle_conn mem_stores decode digest 2097152 (session upload)).0 ≢ returns tt
handle_conn_ends_example = handle_conn_ends mem_stores decode digest 2097152 (session upload)
