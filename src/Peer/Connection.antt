-- ===== src/Peer/Connection.antt =====
-- server/peer/server.go: `handleConnection`. JSON decoding is the parameter `decode`; the responses
-- are collected as values, and whether the writes to come fail is an input.
pub mod Ends
use reflector_go.Peer.Message.{Buffer, Reading, read_next_message, max_request_size}
use reflector_go.Peer.Server.{CompositeRequest, CompositeResponse, handle_composite_request}
use reflector_go.Store.{Blob, BlobStore}
use reflector_go.Prelude.{
  List, ℕ, Bool, Option, ◌++◌, some, suc, length, none, ◌≢◌, zero, [], ◌+◌, ◌∷◌, ◌<◌, false,
  Bool-cases, arith, ◌≡◌, ltb, length-append, true, ◌==◌, inl, inr,
}
use reflector_go.Errors.{Error, Result, ok, err}

-- Why a connection is closed: nothing can be read (the end, an error, or a message that is too
-- large), a request is not JSON, a request fails, a response cannot be written, or, which does not
-- happen, the model has no fuel left.
pub data Closing : Type 0 where
  unreadable bad_request failed unwritten out_of_fuel : Closing

module _ (store : BlobStore) (digest : List ℕ → List ℕ) (valid_json : List ℕ → Bool)
    (decode : List ℕ → Option CompositeRequest) where
  pub record PeerConn : Type 0 where
    pub buffer : Buffer
    pub responses : List (CompositeResponse × Blob)
    pub write_errors : List Bool
    pub store_state : store.State

  -- `conn.Write(response)`
  abbrev pub write_response :
      List Bool
      → CompositeResponse × Blob
      → PeerConn
      → (PeerConn → Closing × PeerConn)
      → Closing × PeerConn
  write_response [] r c next = next (record c { responses = c.responses ++ (r ∷ []) })
  write_response (false ∷ errors) r c next =
      next (record c { responses = c.responses ++ (r ∷ []); write_errors = errors })
  write_response (true ∷ errors) r c next = (unwritten, record c { write_errors = errors })

  abbrev pub respond_to :
      Result (CompositeResponse × Blob) × store.State
      → PeerConn
      → (PeerConn → Closing × PeerConn)
      → Closing × PeerConn
  respond_to (ok r, s) c next = write_response c.write_errors r (record c { store_state = s }) next
  respond_to (err e, s) c next = (failed, record c { store_state = s })

  abbrev pub handle_request :
      Option CompositeRequest → PeerConn → (PeerConn → Closing × PeerConn) → Closing × PeerConn
  handle_request none c next = (bad_request, c)
  handle_request (some q) c next =
      respond_to (handle_composite_request store digest q c.store_state) c next

  abbrev pub after_reading :
      Reading → PeerConn → (PeerConn → Closing × PeerConn) → Closing × PeerConn
  after_reading (Reading.message m) c next = handle_request (decode m) c next
  after_reading (Reading.too_large m) c next = (unreadable, c)
  after_reading Reading.end_of_file c next = (unreadable, c)
  after_reading (Reading.broken e) c next = (unreadable, c)

  -- The loop: a message has at least one byte, so a fuel above the number of bytes is enough.
  unfoldable pub connection_loop : ℕ → PeerConn → Closing × PeerConn
  unfolding handle_composite_request read_next_message
  connection_loop zero c = (out_of_fuel, c)
  connection_loop (suc fuel) c =
      let (r, rest) = read_next_message valid_json c.buffer in
      after_reading r (record c { buffer = record c.buffer { input = rest } })
        (connection_loop fuel)

  -- `handleConnection`
  unfoldable pub handle_connection : PeerConn → Closing × PeerConn
  unfolding connection_loop
  handle_connection c = connection_loop (suc (length c.buffer.input)) c
