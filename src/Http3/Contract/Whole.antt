-- ===== src/Http3/Contract/Whole.antt =====
-- The HTTP/3 store before an HTTP/3 server over another store. How each exchange between the two ends fares
-- is an input.
use reflector_go.Http3
use reflector_go.Http3.{http3_store, Response}
use reflector_go.Prelude.Dict
use reflector_go.Prelude.Dict.{Dict}
use reflector_go.Http3.Contract.{Delivery, exchange}
use reflector_go.Store.{Blob, BlobStore, Spec, Implements}
use reflector_go.Shared.{BlobTrace}
use reflector_go.Errors.{Error, Result, ok, err, blob_not_found}
use reflector_go.Prelude.{Str, Bool, ◌≡◌, Option, some, [], false, ◌≢◌, bytes, List, ℕ}
use reflector_go.Http.Contract.{next_delivery}

module _ (store : BlobStore) (serialize : BlobTrace → Result Str) (text : Error → Str)
    (encode : Bool → Result Blob) (A : Spec store) where
  -- The server and the exchanges to come.
  pub record Upstream : Type 0 where
    pub server : store.State
    pub deliveries : List Delivery
    pub now : ℕ

  abbrev pub request :
      (store.State → Response × store.State) → Upstream → Result Response × Upstream
  request handle n =
      let (d, rest) = next_delivery n.deliveries in
      let (r, s) = exchange d handle n.server in (r, record n { server = s; deliveries = rest })

  module _ (deserialize : Str → Result BlobTrace) (get_client : Upstream → Option Error)
      (mentions : Error → Bool) where
    abbrev pub whole : BlobStore
    whole =
        http3_store deserialize Upstream
          (λ h n. request (Http3.handle_has_blob store serialize text encode h) n)
          (λ h n. request (Http3.handle_get_blob store serialize text encode (bytes "true") h) n)
          get_client mentions (λ n. n.now)

    -- What the store says of a hash is what the server's store holds, and no misses are noted.
    abbrev pub whole_spec : Spec whole
    whole_spec = record {
      IsValid = λ p. A.IsValid p.net.server × (p.not_found_cache ≡ []);
      Fits = A.Fits;
      view = λ p h. A.view p.net.server h;
    }

    -- What the making of a client may answer: no error that has "blob not found" in its text.
    pub record IsPlain : Type 0 where
      pub silent : (n : Upstream) (e : Error) → get_client n ≡ some e → mentions e ≡ false
      pub other : (n : Upstream) → get_client n ≢ some blob_not_found

    module _ (I : Implements A) (total : (t : BlobTrace) → (x : Str) × (serialize t ≡ ok x))
        (encodes : (b : Bool) → (x : Blob) × (encode b ≡ ok x))
        (parses : (via : Str) → deserialize via ≢ err blob_not_found) where
      abbrev has_handler : Str → store.State → Response × store.State
      has_handler h = Http3.handle_has_blob store serialize text encode h

      abbrev get_handler : Str → store.State → Response × store.State
      get_handler h = Http3.handle_get_blob store serialize text encode (bytes "true") h
