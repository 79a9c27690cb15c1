-- ===== src/Http/Contract.antt =====
-- An `HttpStore` whose upstream is an HTTP server over a store. How each exchange between the two ends
-- is an input: `Delivery`.
pub mod Laws
pub mod Exchanges
use reflector_go.Http
use reflector_go.Http.{Response, Delivery, arrives, exchange}
use reflector_go.Http.Server
use reflector_go.Http.Server.{HttpServer}
use reflector_go.Store.{Blob, BlobStore, Spec}
use reflector_go.Store.Gcache.{Cache}
use reflector_go.Store.Http.{http_store}
use reflector_go.Shared.{BlobTrace}
use reflector_go.Errors.{Error, Result}
use reflector_go.Prelude.{List, Str, ◌∷◌, ◌≡◌, true, [], none, ◌⊎◌}

abbrev pub next_delivery : List Delivery → Delivery × List Delivery
next_delivery [] = (arrives, [])
next_delivery (d ∷ rest) = (d, rest)

-- What the cache of gcache promises: it has no keys but those that were set.
pub record IsCache (misses : Cache) : Type 0 where
  pub has_set :
      (k h : Str) (s : misses.State)
      → misses.has h (misses.set k s).1 ≡ true
      → (h ≡ k) ⊎ (misses.has h s ≡ true)

module _ (store : BlobStore) (misses : Cache) (serialize : BlobTrace → Result Str)
    (text : Error → Str) where
  pub record Upstream : Type 0 where
    pub server : HttpServer store misses serialize text
    pub deliveries : List Delivery

  abbrev pub request :
      (HttpServer store misses serialize text → Response × HttpServer store misses serialize text)
      → Upstream
      → Result Response × Upstream
  request handle n =
      let (d, rest) = next_delivery n.deliveries in
      let (r, s) = exchange d handle n.server in (r, record { server = s; deliveries = rest })

  abbrev pub head_request : Str → Upstream → Result Response × Upstream
  head_request hash n = request (Server.has_blob store misses serialize text hash) n

  abbrev pub get_request : Str → Upstream → Result Response × Upstream
  get_request hash n = request (Server.handle_get_blob store misses serialize text hash) n

  -- The server's store is as it should be, and what the server remembers as missing is missing.
  pub record IsServing (A : Spec store) (s : HttpServer store misses serialize text) : Type 0 where
    pub valid : A.IsValid s.store_state
    pub missed : (h : Str) → misses.has h s.misses_cache ≡ true → A.view s.store_state h ≡ none

  abbrev pub upstream_store : (Str → Result BlobTrace) → BlobStore
  upstream_store deserialize = http_store deserialize Upstream head_request get_request

  abbrev pub upstream_spec :
      (deserialize : Str → Result BlobTrace) → Spec store → Spec (upstream_store deserialize)
  upstream_spec deserialize A = record {
    IsValid = λ n. IsServing A n.server;
    Fits = A.Fits;
    view = λ n h. A.view n.server.store_state h;
  }
