-- ===== src/Peer/Connection/Ends.antt =====
-- A connection of the peer server ends: every message takes bytes of the stream.
use reflector_go.Peer.Message.{Buffer, Reading, read_next_message, max_request_size}
use reflector_go.Peer.Message.Scan.{scan, finish, read_next_message-eq-scan}
use reflector_go.Peer.Server.{CompositeRequest, CompositeResponse, handle_composite_request}
use reflector_go.Peer.Connection.{
  Closing, out_of_fuel, PeerConn, write_response, respond_to, handle_request, after_reading,
  connection_loop, handle_connection, Error, Result, ok, err,
}
use reflector_go.Store.{Blob, BlobStore}
use reflector_go.Prelude.{
  List, ℕ, Bool, Option, ◌≢◌, ◌≤◌, length, arith, ◌<◌, [], ◌+◌, suc, ◌≡◌, zero, ◌∷◌, some, false,
  none, ◌++◌, Bool-cases, ltb, true, length-append, inl, ◌==◌, inr,
}

module _ (store : BlobStore) (digest : List ℕ → List ℕ) (valid_json : List ℕ → Bool)
    (decode : List ℕ → Option CompositeRequest) where
  abbrev Conn : Type 0
  Conn = PeerConn store digest valid_json decode

  -- A message takes at least one of the `n` bytes.
  abbrev Shrinks : ℕ → Reading × List ℕ → Type 0
  Shrinks n (Reading.message m, rest) = length rest < n
  Shrinks n (Reading.too_large m, rest) = Unit
  Shrinks n (Reading.end_of_file, rest) = Unit
  Shrinks n (Reading.broken e, rest) = Unit

  finish-Shrinks :
      (e : Option Error) (msg : List ℕ) → Shrinks (length msg) (finish valid_json e msg, [])
  finish-Shrinks (some e) msg = tt
  finish-Shrinks none [] = tt
  finish-Shrinks none (c ∷ msg) = elim (Bool-cases (ltb max_request_size (length (c ∷ msg)))) [
    | inl big ↦ rw big tt
    | inr fits ↦ rw fits (omega arith)
  ]

  scan-Shrinks :
      (e : Option Error) (msg input : List ℕ)
      → Shrinks (length msg + length input) (scan valid_json e msg input)
  unfolding scan
  scan-Shrinks e msg [] =
      let same : length msg + 0 ≡ length msg = omega arith in rw same (finish-Shrinks e msg)
  scan-Shrinks e msg (c ∷ input) =
      let now = msg ++ (c ∷ []) in
      let size : length now + length input ≡ length msg + suc (length input) =
        omega (arith, length-append msg (c ∷ [])) in
      let ih : Shrinks (length msg + suc (length input)) (scan valid_json e now input) =
        rw size at (scan-Shrinks e now input) in
      elim (Bool-cases (c == b'}')) [
        | inr go ↦ rw go ih
        | inl stop ↦ elim (Bool-cases (ltb max_request_size (length now))) [
          | inl big ↦ rw (stop, big) tt
          | inr fits ↦ elim (Bool-cases (valid_json now)) [
            | inl json ↦ rw (stop, fits, json) (omega arith)
            | inr not_json ↦ rw (stop, fits, not_json) ih
          ]
        ]
      ]

  -- The buffer that the rounds to come start with.
  abbrev Ends : ℕ → (Conn → Closing × Conn) → Type 0
  Ends n next = (c : Conn) → length c.buffer.input < n → (next c).0 ≢ out_of_fuel

  write_response-Ends :
      (n : ℕ) (errors : List Bool) (r : CompositeResponse × Blob) (c : Conn)
      (next : Conn → Closing × Conn)
      → Ends n next
      → length c.buffer.input < n
      → (write_response store digest valid_json decode errors r c next).0 ≢ out_of_fuel
  write_response-Ends n [] r c next p q = p _ q
  write_response-Ends n (false ∷ errors) r c next p q = p _ q
  write_response-Ends n (true ∷ errors) r c next p q = λ e. cc

  respond_to-Ends :
      (n : ℕ) (r : Result (CompositeResponse × Blob) × store.State) (c : Conn)
      (next : Conn → Closing × Conn)
      → Ends n next
      → length c.buffer.input < n
      → (respond_to store digest valid_json decode r c next).0 ≢ out_of_fuel
  respond_to-Ends n (ok r, s) c next p q = write_response-Ends n c.write_errors r _ next p q
  respond_to-Ends n (err e, s) c next p q = λ f. cc

  handle_request-Ends :
      (n : ℕ) (o : Option CompositeRequest) (c : Conn) (next : Conn → Closing × Conn)
      → Ends n next
      → length c.buffer.input < n
      → (handle_request store digest valid_json decode o c next).0 ≢ out_of_fuel
  handle_request-Ends n none c next p q = λ f. cc
  handle_request-Ends n (some o) c next p q =
      respond_to-Ends n (handle_composite_request store digest o c.store_state) c next p q

  after_reading-Ends :
      (n k : ℕ) (r : Reading × List ℕ) (c : Conn) (next : Conn → Closing × Conn)
      → Ends n next
      → Shrinks k r
      → k ≤ n
      → (after_reading store digest valid_json decode r.0
          (record c { buffer = record c.buffer { input = r.1 } })
          next).0
        ≢ out_of_fuel
  after_reading-Ends n k (Reading.message m, rest) c next p q l =
      handle_request-Ends n (decode m) _ next p (omega arith)
  after_reading-Ends n k (Reading.too_large m, rest) c next p q l = λ f. cc
  after_reading-Ends n k (Reading.end_of_file, rest) c next p q l = λ f. cc
  after_reading-Ends n k (Reading.broken e, rest) c next p q l = λ f. cc

  read-Shrinks : (buf : Buffer) → Shrinks (length buf.input) (read_next_message valid_json buf)
  read-Shrinks buf =
      let same : 0 + length buf.input ≡ length buf.input = omega arith in
      rw (read_next_message-eq-scan valid_json buf)
        (rw same at (scan-Shrinks buf.ending [] buf.input))

  connection_loop_ends :
      (fuel : ℕ) (c : Conn)
      → length c.buffer.input < fuel
      → (connection_loop store digest valid_json decode fuel c).0 ≢ out_of_fuel
  unfolding connection_loop
  connection_loop_ends zero c p = absurd (omega arith)
  connection_loop_ends (suc fuel) c p =
      after_reading-Ends fuel (length c.buffer.input) (read_next_message valid_json c.buffer) c
        (connection_loop store digest valid_json decode fuel) (connection_loop_ends fuel)
        (read-Shrinks c.buffer) (omega arith)

  -- Every connection of the peer server is closed for one of the code's reasons, whatever the client
  -- sends and the store answers: the rounds that `handle_connection` allows are enough.
  pub handle_connection_ends :
      (c : Conn) → (handle_connection store digest valid_json decode c).0 ≢ out_of_fuel
  unfolding handle_connection
  handle_connection_ends c = connection_loop_ends (suc (length c.buffer.input)) c (omega arith)
