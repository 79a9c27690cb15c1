-- ===== src/Peer/Store.antt =====
-- server/peer/store.go: `Store`, which makes a client for each call. `dial` says whether the connection is
-- made; `mentions`, whether the text of an error has "blob not found" in it. Since `Get` may panic, its
-- result is the client's.
use reflector_go.Peer.Client
use reflector_go.Peer.Message.{Buffer}
use reflector_go.Prelude.{Str, List, bytes, ℕ, Bool, Option, true, [], if◌then◌else◌, none, some}
use reflector_go.Peer.Client.{lift, BlobResponse, Got, answers, panics}
use reflector_go.Errors.{Result, Error, Done, err, ok, not_implemented, blob_not_found}
use reflector_go.Store.{Blob}
use reflector_go.Shared.{new_blob_trace}

abbrev pub name_peer : Str
name_peer = bytes "peer"

module _ (Net : Type 0) (answer : List ℕ → Net → Buffer × Net) (valid_json : List ℕ → Bool)
    (encode_available encode_blob : Str → Result (List ℕ))
    (decode_available : List ℕ → Result (List Str)) (decode_blob : List ℕ → Result BlobResponse)
    (prefix : Str → Error → Error) (dial : Net → Option Error) (mentions : Error → Bool) where
  abbrev pub PeerClient : Type 0
  PeerClient =
      Client.Client Net answer valid_json encode_available encode_blob decode_available decode_blob
        prefix

  abbrev pub connected_client : Net → PeerClient
  connected_client n = record {
    connected = true;
    buffer = record { input = []; ending = none };
    net = n;
    write_errors = [];
  }

  abbrev pub made_by : Option Error → Net → Result PeerClient
  made_by none n = ok (connected_client n)
  made_by (some e) n = err (prefix (bytes "connection error") e)

  -- `getClient`
  unfoldable pub get_client : Net → Result PeerClient
  get_client n = made_by (dial n) n

  abbrev pub has_by : Result PeerClient → Str → Net → Result Bool × Net
  has_by (err e) hash n = (err e, n)
  has_by (ok c) hash n =
      let (r, c') =
        Client.has_blob Net answer valid_json encode_available encode_blob decode_available
          decode_blob prefix hash c in
      (r, c'.net)

  -- `Has`
  unfoldable pub has : Str → Net → Result Bool × Net
  unfolding get_client Client.has_blob
  has hash n = has_by (get_client n) hash n

  -- `if err != nil && strings.Contains(err.Error(), "blob not found")`
  abbrev pub not_found_of : Got → Got
  not_found_of (answers (ok blob) trace) = answers (ok blob) trace
  not_found_of (answers (err e) trace) =
      answers (err (if mentions e then blob_not_found else e)) trace
  not_found_of panics = panics

  abbrev pub get_by : Result PeerClient → Str → Net → Got × Net
  get_by (err e) hash n = (answers (err e) (new_blob_trace name_peer), n)
  get_by (ok c) hash n =
      let (r, c') =
        Client.get_blob Net answer valid_json encode_available encode_blob decode_available
          decode_blob prefix hash c in
      (not_found_of r, c'.net)

  -- `Get`
  unfoldable pub get : Str → Net → Got × Net
  unfolding get_client Client.get_blob
  get hash n = get_by (get_client n) hash n

  -- `Put`, `PutSD` and `Delete`
  unfoldable pub put : Str → Blob → Net → Done × Net
  put hash blob n = (err not_implemented, n)

  unfoldable pub put_sd : Str → Blob → Net → Done × Net
  put_sd hash blob n = (err not_implemented, n)

  unfoldable pub delete : Str → Net → Done × Net
  delete hash n = (err not_implemented, n)
