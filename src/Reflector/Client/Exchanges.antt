-- ===== src/Reflector/Client/Exchanges.antt =====
-- The client of reflector/client.go before the server of reflector/server.go: what either makes of the runs and
-- replies that the other writes.
use reflector_go.Reflector.Client
use reflector_go.Reflector.Client.{Client, send_request, blob_exists}
use reflector_go.Reflector.Server
use reflector_go.Reflector.Server.{
  Message, Reply, Stores, Session, Conn, BlobRequest, chosen, returns, blob_response,
  transfer_response, Outcome,
}
use reflector_go.Reflector.Hash.{blob_hash}
use reflector_go.Store.{Blob}
use reflector_go.Prelude.Int.{pos}
use reflector_go.Errors.{Error, ok, err}
use reflector_go.Prelude.{
  List, ℕ, Option, [], str_eq, Bool, ◌≢◌, ◌≡◌, length, str_eq_ne, some, ◌<◌, false, ◌≤◌, refl, true,
  ◌∷◌, arith, Str, none, if◌then◌else◌, ap, ◌++◌, leb, take-length, str_eq_refl,
}

-- What the client sends and the server serves.
module _ (stores : Stores) (decode : List ℕ → Option Message) (digest : List ℕ → List ℕ)
    (max_blob_size : ℕ) (encode : Message → List ℕ) where
  abbrev pub request_for : Blob → Bool → BlobRequest
  request_for b is_sd = record { size = pos (length b); hash = blob_hash digest b; is_sd = is_sd }

  abbrev pub request_run : Blob → Bool → List ℕ
  request_run b is_sd = encode (send_request is_sd (blob_hash digest b) (length b))

  -- A server's session that has these runs to read and has written nothing.
  abbrev pub session :
      List (List ℕ) → Error → stores.State → Session stores decode digest max_blob_size
  session runs ending s = record {
    conn = record { inbox = runs; ending = ending; outbox = []; write_errors = [] };
    store = s;
  }

  chosen_lem :
      (b : Blob) (is_sd : Bool)
      → blob_hash digest b ≢ []
      → chosen (send_request is_sd (blob_hash digest b) (length b)) ≡ request_for b is_sd
  unfolding str_eq
  chosen_lem b false ne = refl
  chosen_lem b true ne = rw (str_eq_ne (blob_hash digest b) [] ne) refl

  read_blob_request_lem :
      (b : Blob) (is_sd : Bool) (rest : List (List ℕ)) (e : Error) (s : stores.State)
      → decode (request_run b is_sd) ≡ some (send_request is_sd (blob_hash digest b) (length b))
      → blob_hash digest b ≢ []
      → 0 < length b
      → length b ≤ max_blob_size
      → Server.read_blob_request stores decode digest max_blob_size
          (session (request_run b is_sd ∷ rest) e s)
        ≡ (returns (request_for b is_sd), session rest e s)
  unfolding Server.read_blob_request Server.◌>>=◌
  read_blob_request_lem b is_sd rest e s d ne some_bytes fits =
      rw (d, chosen_lem b is_sd ne, str_eq_ne (blob_hash digest b) [] ne) (ground arith)

  module _ (hash_hex : Blob → Str) (valid_for_send : Blob → Option Error) where
    -- A client that is connected, has these replies to read, and has written nothing.
    abbrev pub client : List Reply → Error → Client
    client replies ending = record {
      connected = true;
      inbox = replies;
      ending = ending;
      outbox = [];
      write_errors = [];
    }

    -- A blob that the client may send and the server can take.
    pub record IsSendable (b : Blob) (is_sd : Bool) : Type 0 where
      pub valid : valid_for_send b ≡ none
      pub hashed : hash_hex b ≡ blob_hash digest b
      pub named : 8 ≤ length (blob_hash digest b)
      pub some_bytes : 0 < length b
      pub fits : length b ≤ max_blob_size
      pub decodes :
          decode (request_run b is_sd) ≡ some (send_request is_sd (blob_hash digest b) (length b))

    named_ne : (h : Str) → 8 ≤ length h → h ≢ []
    named_ne h long e = absurd (omega (arith, ap length e))

    leb-true : (m n : ℕ) → m ≤ n → leb m n ≡ true
    leb-true m n le = ground arith

    -- The server reads the blob, stores it, and says so.
    receives :
        (b : Blob) (is_sd : Bool) (out : List Reply) (e : Error) (s' t : stores.State)
        → IsSendable b is_sd
        → (if is_sd
            then stores.put_sd (blob_hash digest b) b s'
            else stores.put (blob_hash digest b) b s')
          ≡ (ok tt, t)
        → let w : Session stores decode digest max_blob_size = record {
          conn = record { inbox = b ∷ []; ending = e; outbox = out; write_errors = [] };
          store = s';
        } in
          Server.◌>>=◌ stores decode digest max_blob_size
            (Server.read_blob stores decode digest max_blob_size (request_for b is_sd))
            (λ blob.
              Server.store_blob stores decode digest max_blob_size (request_for b is_sd) blob)
            w
          ≡ (
            returns tt,
            record {
              conn = record {
                inbox = [];
                ending = e;
                outbox = out ++ (transfer_response true is_sd ∷ []);
                write_errors = [];
              };
              store = t;
            },
          )
    unfolding Server.◌>>=◌ Server.read_blob Server.read_raw_blob Server.store_blob Server.write
        Server.receive Server.call Server.require Server.prefix8
    receives b true out e s' t v taken =
        rw
          (
            leb-true (length b) (length b) (omega arith),
            take-length b,
            str_eq_refl (blob_hash digest b),
            leb-true 8 (length (blob_hash digest b)) v.named,
            taken,
          )
          refl
    receives b false out e s' t v taken =
        rw
          (
            leb-true (length b) (length b) (omega arith),
            take-length b,
            str_eq_refl (blob_hash digest b),
            leb-true 8 (length (blob_hash digest b)) v.named,
            taken,
          )
          refl

    -- What the server makes of the two runs, if it wants the blob and the store takes it.
    pub accepted :
        (b : Blob) (is_sd : Bool) (needed : List Str) (e : Error) (s s' t : stores.State)
        → IsSendable b is_sd
        → Server.decide stores decode digest max_blob_size
            (request_for b is_sd)
            (session (b ∷ []) e s)
          ≡ (returns (true, needed), session (b ∷ []) e s')
        → (if is_sd
            then stores.put_sd (blob_hash digest b) b s'
            else stores.put (blob_hash digest b) b s')
          ≡ (ok tt, t)
        → Server.receive_blob stores decode digest max_blob_size
            (session (request_run b is_sd ∷ b ∷ []) e s)
          ≡ (
            returns tt,
            record (session [] e t) {
              conn = record (session [] e t).conn {
                outbox = blob_response true is_sd needed ∷ transfer_response true is_sd ∷ [];
              };
            },
          )
    unfolding Server.receive_blob Server.◌>>=◌ Server.write Server.pure
    accepted b is_sd needed e s s' t v wanted taken =
        rw
          (read_blob_request_lem b is_sd (b ∷ []) e s v.decodes (named_ne _ v.named) v.some_bytes
            v.fits)
          (rw wanted (receives b is_sd _ e s' t v taken))

    pub sends :
        (b : Blob) (is_sd : Bool) (needed : List Str) (e : Error)
        → IsSendable b is_sd
        → Client.send encode hash_hex valid_for_send b is_sd
            (client (blob_response true is_sd needed ∷ transfer_response true is_sd ∷ []) e)
          ≡ (ok tt, record (client [] e) { outbox = request_run b is_sd ∷ b ∷ [] })
    unfolding Client.send Client.◌>>=◌ Client.write Client.receive Client.require
    sends b true needed e v = rw (v.valid, v.hashed) refl
    sends b false needed e v = rw (v.valid, v.hashed) refl

    pub asks :
        (b : Blob) (is_sd : Bool) (needed : List Str) (e : Error)
        → IsSendable b is_sd
        → Client.send encode hash_hex valid_for_send b is_sd
            (client (blob_response false is_sd needed ∷ []) e)
          ≡ (err blob_exists, record (client [] e) { outbox = request_run b is_sd ∷ [] })
    unfolding Client.send Client.◌>>=◌ Client.write Client.receive Client.require
    asks b true needed e v = rw (v.valid, v.hashed) refl
    asks b false needed e v = rw (v.valid, v.hashed) refl

    pub declined :
        (b : Blob) (is_sd : Bool) (needed : List Str) (e : Error) (s s' : stores.State)
        → IsSendable b is_sd
        → Server.decide stores decode digest max_blob_size (request_for b is_sd) (session [] e s)
          ≡ (returns (false, needed), session [] e s')
        → Server.receive_blob stores decode digest max_blob_size
            (session (request_run b is_sd ∷ []) e s)
          ≡ (
            returns tt,
            record (session [] e s') {
              conn = record (session [] e s').conn {
                outbox = blob_response false is_sd needed ∷ [];
              };
            },
          )
    unfolding Server.receive_blob Server.◌>>=◌ Server.write Server.pure
    declined b is_sd needed e s s' v unwanted =
        rw (read_blob_request_lem b is_sd [] e s v.decodes (named_ne _ v.named) v.some_bytes v.fits)
          (rw unwanted refl)
