-- ===== src/Http/Contract/Exchanges.antt =====
-- What the exchanges and the client make of honest responses: the pair of client and server keeps
-- the contract of the server's store.
use reflector_go.Http.{Response}
use reflector_go.Http.Contract.Laws.{IsHonest, Handled}
use reflector_go.Store.{BlobStore, Spec}
use reflector_go.Store.Http as Client
use reflector_go.Shared.{BlobTrace}
use reflector_go.Errors.{Result, Error}
use reflector_go.Prelude.{Str, ◌≡◌}
use reflector_go.Store.Gcache.{Cache}
use reflector_go.Http.Contract.{upstream_store, IsServing, upstream_spec}

module _ (store : BlobStore) (misses : Cache) (serialize : BlobTrace → Result Str)
    (text : Error → Str) (A : Spec store) where
  -- What one exchange has done, with the result that the client gets.
  record IsExchanged (h : Str) (s : Handled store misses serialize text A)
      (out : Result Response × Handled store misses serialize text A) : Type 0 where
    honest : IsHonest (A.view s.store_state h) (out.0)
    serving : IsServing store misses serialize text A (out.1)
    same : (j : Str) → A.view (out.1.store_state) j ≡ A.view s.store_state j

  module _ (deserialize : Str → Result BlobTrace) where
    abbrev the_spec : Spec (upstream_store store misses serialize text deserialize)
    the_spec = upstream_spec store misses serialize text deserialize A
