-- ===== src/Peer/Conversation.antt =====
-- The client of server/peer/client.go before a connection of server/peer/server.go: the server reads the
-- run that the client has written, and the client what arrives of the bytes that the server has written.
-- The JSON codec is a parameter on both ends.
pub mod Replies
pub mod Gets
pub mod Downloads
pub mod Requests
pub mod Endings
use mathlib.Core.List.{append-nil}
use reflector_go.Peer.Server.{
  nothing, not_found, incoming, CompositeResponse, CompositeRequest, handle_composite_request,
  IncomingBlob,
}
use reflector_go.Prelude.Int.{pos}
use reflector_go.Prelude.{
  Option, Str, ℕ, List, Bool, [], some, ◌∷◌, none, bytes, take, ◌++◌, flat_map, ◌≡◌, ◌<◌, length,
  suc, refl, arith, zero,
}
use reflector_go.Store.{BlobStore, Blob}
use reflector_go.Errors.{Error, external, Result, ok, err}
use reflector_go.Peer.Client.{BlobResponse}
use reflector_go.Peer.Connection.{
  PeerConn, connection_loop, handle_connection, unreadable, respond_to,
}
use reflector_go.Peer.Message.{Buffer, read_next_message, read_loop, Reading, read_bytes}
use reflector_go.Peer.Message.Frames.{IsFrame, read_next_message-whole}

-- How a request fares: all of the answer arrives, its first bytes with the end or an error behind them,
-- or the server does not get the request.
pub data Delivery : Type 0 where
  arrives : Delivery
  cut : ℕ → Option ℕ → Delivery
  lost : Option ℕ → Delivery

abbrev pub broken_by : Option ℕ → Option Error
broken_by none = none
broken_by (some n) = some (external n)

-- The request for one blob, and the question for one blob, as the server reads them.
abbrev pub blob_request : Str → CompositeRequest
blob_request hash = record {
  requested_blobs = [];
  blob_data_payment_rate = pos 0;
  requested_blob = hash;
}

abbrev pub availability_request : Str → CompositeRequest
availability_request hash = record {
  requested_blobs = hash ∷ [];
  blob_data_payment_rate = pos 0;
  requested_blob = [];
}

-- What the client reads of a response: the server sends no trace.
abbrev pub seen : IncomingBlob → BlobResponse
seen nothing = record { error = []; blob_hash = []; length = pos 0; request_trace = none }
seen not_found = record {
  error = bytes "blob not found";
  blob_hash = [];
  length = pos 0;
  request_trace = none;
}
seen (incoming hash n) = record {
  error = [];
  blob_hash = hash;
  length = pos n;
  request_trace = none;
}

module _ (store : BlobStore) (digest : List ℕ → List ℕ) (valid_json : List ℕ → Bool)
    (decode : List ℕ → Option CompositeRequest) (encode : CompositeResponse → List ℕ) where
  -- The server's store and how the requests to come fare.
  pub record Upstream : Type 0 where
    pub server : store.State
    pub deliveries : List Delivery

  abbrev pub response_bytes : CompositeResponse × Blob → List ℕ
  response_bytes (r, b) = encode r ++ b

  -- A new connection of the server that has this run to read.
  abbrev pub accepted : List ℕ → store.State → PeerConn store digest valid_json decode
  accepted run s = record {
    buffer = record { input = run; ending = none };
    responses = [];
    write_errors = [];
    store_state = s;
  }

  abbrev pub served : List ℕ → store.State → List ℕ × store.State
  served run s =
      let (closing, c) = handle_connection store digest valid_json decode (accepted run s) in
      (flat_map response_bytes c.responses, c.store_state)

  abbrev pub arriving : Delivery → List ℕ × store.State → store.State → Buffer × store.State
  arriving arrives (answer, t) s = (record { input = answer; ending = none }, t)
  arriving (cut n e) (answer, t) s = (record { input = take n answer; ending = broken_by e }, t)
  arriving (lost e) (answer, t) s = (record { input = []; ending = broken_by e }, s)

  abbrev pub next_delivery : List Delivery → Delivery × List Delivery
  next_delivery [] = (arrives, [])
  next_delivery (d ∷ rest) = (d, rest)

  abbrev pub answer : List ℕ → Upstream → Buffer × Upstream
  answer run u =
      let (d, rest) = next_delivery u.deliveries in
      let (buffer, s) = arriving d (served run u.server) u.server in
      (buffer, record { server = s; deliveries = rest })

  -- What a request says to the server.
  pub record IsRequest (m : Result (List ℕ)) (q : CompositeRequest) : Type 0 where
    pub run : List ℕ
    pub sent : m ≡ ok run
    pub frame : IsFrame valid_json run
    pub decodes : decode run ≡ some q

  abbrev pub composite_answer :
      Result (CompositeResponse × Blob) × store.State → List ℕ × store.State
  composite_answer (ok r, t) = (response_bytes r, t)
  composite_answer (err e, t) = ([], t)

  closed :
      (fuel : ℕ) (responses : List (CompositeResponse × Blob)) (s : store.State)
      → let c : PeerConn store digest valid_json decode = record (accepted [] s) {
        responses = responses;
      } in
        connection_loop store digest valid_json decode (suc fuel) c ≡ (unreadable, c)
  unfolding connection_loop read_next_message read_loop read_bytes
  closed fuel responses s = refl

  unread :
      (m : List ℕ)
      → IsFrame valid_json m
      → read_next_message valid_json (record { input = m; ending = none }) ≡ (Reading.message m, [])
  unread m v = rw (append-nil m) at (read_next_message-whole valid_json m v [] none)

  answered :
      (k : ℕ) (s : store.State) (r : Result (CompositeResponse × Blob) × store.State)
      → let (closing, c) =
          respond_to store digest valid_json decode r
            (accepted [] s)
            (connection_loop store digest valid_json decode (suc k)) in
        (flat_map response_bytes c.responses, c.store_state) ≡ composite_answer r
  answered k s (err e, t) = refl
  answered k s (ok (r, b), t) = rw (closed k ((r, b) ∷ []) t) (rw (append-nil (encode r ++ b)) refl)

  served_by :
      (fuel : ℕ) (m : List ℕ) (q : CompositeRequest) (s : store.State)
      → 1 < fuel
      → IsFrame valid_json m
      → decode m ≡ some q
      → let (closing, c) = connection_loop store digest valid_json decode fuel (accepted m s) in
        (flat_map response_bytes c.responses, c.store_state)
        ≡ composite_answer (handle_composite_request store digest q s)
  unfolding connection_loop
  served_by zero m q s l v e = absurd (omega arith)
  served_by (suc zero) m q s l v e = absurd (omega arith)
  served_by (suc (suc k)) m q s l v e =
      rw (unread m v, e) (answered k s (handle_composite_request store digest q s))

  -- The server answers the one request and closes the connection.
  pub served_lem :
      (m : List ℕ) (q : CompositeRequest) (s : store.State)
      → IsFrame valid_json m
      → decode m ≡ some q
      → served m s ≡ composite_answer (handle_composite_request store digest q s)
  unfolding handle_connection
  served_lem m q s v e = served_by (suc (length m)) m q s (omega (arith, v.some_bytes)) v e
