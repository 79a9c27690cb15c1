-- ===== src/Reflector/Client/Upload.antt =====
-- The client of reflector/client.go against the server of reflector/server.go: each reads what the other has
-- written.
use reflector_go.Reflector.Client
use reflector_go.Reflector.Server
use reflector_go.Reflector.Hash.{blob_hash}
use reflector_go.Reflector.Client.Exchanges
use reflector_go.Reflector.Server.{Stores, returns, blob_response, transfer_response}
use reflector_go.Prelude.{
  List, ℕ, Option, Str, Bool, [], ◌∷◌, ◌≡◌, true, false, if◌then◌else◌, length, ap, refl,
}
use reflector_go.Reflector.Client.{Message, Blob, Error, Reply, err, blob_exists, ok}

module _ (stores : Stores) (decode : List ℕ → Option Message) (digest : List ℕ → List ℕ)
    (max_blob_size : ℕ) (encode : Message → List ℕ) (hash_hex : Blob → Str)
    (valid_for_send : Blob → Option Error) where
  -- If the server wants the blob and its store takes it, client and server understand each other: what
  -- the client writes makes the server store the blob and write the replies that make the client
  -- write just that, and both end without an error.
  pub upload_accepted :
      (b : Blob) (is_sd : Bool) (needed : List Str) (e : Error) (s s' t : stores.State)
      → Exchanges.IsSendable stores decode digest max_blob_size encode hash_hex valid_for_send b
          is_sd
      → Server.decide stores decode digest max_blob_size
          (Exchanges.request_for stores decode digest max_blob_size encode b is_sd)
          (Exchanges.session stores decode digest max_blob_size encode (b ∷ []) e s)
        ≡ (
          returns (true, needed),
          Exchanges.session stores decode digest max_blob_size encode (b ∷ []) e s',
        )
      → (if is_sd
          then stores.put_sd (blob_hash digest b) b s'
          else stores.put (blob_hash digest b) b s')
        ≡ (ok tt, t)
      → (replies : List Reply) × (runs : List (List ℕ)) × let (sent, c) =
            Client.send encode hash_hex valid_for_send b is_sd (
              Exchanges.client stores decode digest max_blob_size encode hash_hex valid_for_send
                replies e) in
          let (served, w) =
            Server.receive_blob stores decode digest max_blob_size
              (Exchanges.session stores decode digest max_blob_size encode runs e s) in
          (sent ≡ ok tt)
          × (c.outbox ≡ runs)
          × (served ≡ returns tt)
          × (w.conn.outbox ≡ replies)
          × (w.store ≡ t)
  upload_accepted b is_sd needed e s s' t v wanted taken =
      let sent =
        Exchanges.sends stores decode digest max_blob_size encode hash_hex valid_for_send b is_sd
          needed e v in
      let served =
        Exchanges.accepted stores decode digest max_blob_size encode hash_hex valid_for_send b is_sd
          needed e s s' t v wanted taken in
      (
        blob_response true is_sd needed ∷ transfer_response true is_sd ∷ [],
        Exchanges.request_run stores decode digest max_blob_size encode b is_sd ∷ b ∷ [],
        (
          ap (λ x. x.0) sent,
          ap (λ x. x.1.outbox) sent,
          ap (λ x. x.0) served,
          ap (λ x. x.1.conn.outbox) served,
          ap (λ x. x.1.store) served,
        ),
      )

  -- If the server does not want the blob, the client learns that the server has it, sends no bytes
  -- of the blob, and the server stores nothing.
  pub upload_declined :
      (b : Blob) (is_sd : Bool) (needed : List Str) (e : Error) (s s' : stores.State)
      → Exchanges.IsSendable stores decode digest max_blob_size encode hash_hex valid_for_send b
          is_sd
      → Server.decide stores decode digest max_blob_size
          (Exchanges.request_for stores decode digest max_blob_size encode b is_sd)
          (Exchanges.session stores decode digest max_blob_size encode [] e s)
        ≡ (
          returns (false, needed),
          Exchanges.session stores decode digest max_blob_size encode [] e s',
        )
      → (replies : List Reply) × (runs : List (List ℕ)) × let (sent, c) =
            Client.send encode hash_hex valid_for_send b is_sd (
              Exchanges.client stores decode digest max_blob_size encode hash_hex valid_for_send
                replies e) in
          let (served, w) =
            Server.receive_blob stores decode digest max_blob_size
              (Exchanges.session stores decode digest max_blob_size encode runs e s) in
          (sent ≡ err blob_exists)
          × (c.outbox ≡ runs)
          × (length runs ≡ 1)
          × (served ≡ returns tt)
          × (w.conn.outbox ≡ replies)
          × (w.store ≡ s')
  upload_declined b is_sd needed e s s' v unwanted =
      let sent =
        Exchanges.asks stores decode digest max_blob_size encode hash_hex valid_for_send b is_sd
          needed e v in
      let served =
        Exchanges.declined stores decode digest max_blob_size encode hash_hex valid_for_send b is_sd
          needed e s s' v unwanted in
      (
        blob_response false is_sd needed ∷ [],
        Exchanges.request_run stores decode digest max_blob_size encode b is_sd ∷ [],
        (
          ap (λ x. x.0) sent,
          ap (λ x. x.1.outbox) sent,
          refl,
          ap (λ x. x.0) served,
          ap (λ x. x.1.conn.outbox) served,
          ap (λ x. x.1.store) served,
        ),
      )
