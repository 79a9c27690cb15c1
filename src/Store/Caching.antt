-- ===== src/Store/Caching.antt =====
-- store/caching.go: `CachingStore`. The stores `origin` and `cache` share no state.
pub mod Coherence
pub mod Laws
pub mod Hits
use reflector_go.Store.{Blob, BlobStore, Result, Done, Str, ok, BlobTrace, Bool, true, err}
use reflector_go.Prelude.{bytes, if◌then◌else◌, not}
use reflector_go.Shared.{stack}
use reflector_go.Store.SingleFlight.{Group, with_single_flight}
use reflector_go.Errors.{is_not_found}

abbrev name_caching : Str
name_caching = bytes "caching"

module _ (origin cache : BlobStore) where
  pub record CachingStore : Type 0 where
    pub origin_state : origin.State
    pub cache_state : cache.State

  -- `has || err != nil`
  abbrev settles : Result Bool → Bool
  settles (ok has) = has
  settles (err e) = true

  unfoldable pub has : Str → CachingStore → Result Bool × CachingStore
  has hash c =
      let (r, s) = cache.has hash c.cache_state in
      if settles r
      then (r, record c { cache_state = s })
      else (let (r2, t) = origin.has hash c.origin_state in
          (r2, record { origin_state = t; cache_state = s }))

  -- `err == nil || !errors.Is(err, ErrBlobNotFound)`
  abbrev is_hit : Result Blob → Bool
  is_hit (ok blob) = true
  is_hit (err e) = not (is_not_found e)

  -- The part of `Get` behind a miss. A failure to save the blob in the cache is only logged.
  unfoldable pub get_from_origin : Str → CachingStore → Result Blob × BlobTrace × CachingStore
  get_from_origin hash c =
      let (r, trace, t) = origin.get hash c.origin_state in
      elim r [
        | ok blob ↦ (
          ok blob,
          stack trace name_caching,
          record { origin_state = t; cache_state = (cache.put hash blob c.cache_state).1 },
        )
        | err e ↦ (err e, stack trace name_caching, record c { origin_state = t })
      ]

  unfoldable pub get : Str → CachingStore → Result Blob × BlobTrace × CachingStore
  unfolding get_from_origin
  get hash c =
      let (r, trace, s) = cache.get hash c.cache_state in
      if is_hit r
      then (r, stack trace name_caching, record c { cache_state = s })
      else get_from_origin hash (record c { cache_state = s })

  -- What `Put`, `PutSD` and `Delete` share: the call on the origin, then, if that returned no error,
  -- the call on the cache, each given with its effect on its part's state.
  abbrev pub both_parts :
      CachingStore → Done × origin.State → Done × cache.State → Done × CachingStore
  both_parts c (ok _, t) (r, s) = (r, record { origin_state = t; cache_state = s })
  both_parts c (err e, t) (r, s) = (err e, record c { origin_state = t })

  unfoldable pub put : Str → Blob → CachingStore → Done × CachingStore
  put hash blob c =
      both_parts c (origin.put hash blob c.origin_state) (cache.put hash blob c.cache_state)

  unfoldable pub put_sd : Str → Blob → CachingStore → Done × CachingStore
  put_sd hash blob c =
      both_parts c (origin.put_sd hash blob c.origin_state) (cache.put_sd hash blob c.cache_state)

  unfoldable pub delete : Str → CachingStore → Done × CachingStore
  delete hash c = both_parts c (origin.delete hash c.origin_state) (cache.delete hash c.cache_state)

  pub shutdown : CachingStore → CachingStore
  shutdown c = record {
    origin_state = origin.shutdown c.origin_state;
    cache_state = cache.shutdown c.cache_state;
  }

  abbrev pub caching_store : BlobStore
  caching_store = record {
    State = CachingStore;
    name = name_caching;
    has = has;
    get = get;
    put = put;
    put_sd = put_sd;
    delete = delete;
    shutdown = shutdown;
  }

-- `NewCachingStore`
abbrev pub new_caching_store :
    (origin cache : BlobStore) → Group origin.State → Group cache.State → BlobStore
new_caching_store origin cache of_origin of_cache =
    caching_store (with_single_flight origin of_origin) (with_single_flight cache of_cache)
