-- ===== src/Http/Server.antt =====
-- server/http/routes.go: the handlers of the HTTP server. `misses` is the cache of gcache that the
-- server keeps, `serialize` is the JSON of a trace, and `text` that of an error. A request passes
-- a queue and a worker on its way (server/http/worker.go), which hand it on as it is. Panics of a
-- store are left out.
use reflector_go.Http
use reflector_go.Http.{Response}
use reflector_go.Store.{Blob, BlobStore}
use reflector_go.Store.Gcache.{Cache}
use reflector_go.Shared.{BlobTrace, new_blob_trace}
use reflector_go.Errors.{Error, Result, ok, err, is_not_found}
use reflector_go.Prelude.{Str, Bool, if◌then◌else◌, [], bytes}

module _ (store : BlobStore) (misses : Cache) (serialize : BlobTrace → Result Str)
    (text : Error → Str) where
  -- `Server`
  pub record HttpServer : Type 0 where
    pub store_state : store.State
    pub misses_cache : misses.State

  abbrev pub failure : Error → Response
  failure e = record { status = Http.status_internal_server_error; via = []; body = ok (text e) }

  -- The answer of `HandleGetBlob` to a hash in `missesCache`.
  abbrev pub miss_response : Result Str → Response
  miss_response (ok via) = record { status = Http.status_not_found; via = via; body = ok [] }
  miss_response (err e) = failure e

  -- The part of `HandleGetBlob` behind `s.store.Get`.
  unfoldable pub get_response : Str → Result Blob → Result Str → HttpServer → Response × HttpServer
  get_response hash (ok blob) (ok via) s =
      (record { status = Http.status_ok; via = via; body = ok blob }, s)
  get_response hash (ok blob) (err x) s = (failure x, s)
  get_response hash (err e) (err x) s = (failure e, s)
  get_response hash (err e) (ok via) s =
      if is_not_found e
      then (
        record { status = Http.status_not_found; via = via; body = ok [] },
        record s { misses_cache = (misses.set hash s.misses_cache).1 },
      )
      else (record (failure e) { via = via }, s)

  -- `HandleGetBlob`
  unfoldable pub handle_get_blob : Str → HttpServer → Response × HttpServer
  unfolding get_response
  handle_get_blob hash s =
      let (r, trace, t) = store.get hash s.store_state in
      if misses.has hash s.misses_cache
      then (miss_response (serialize (new_blob_trace (bytes "http"))), s)
      else get_response hash r (serialize trace) (record s { store_state = t })

  abbrev pub has_response : Result Bool → Response
  has_response (ok has) = Http.bare (if has then Http.status_no_content else Http.status_not_found)
  has_response (err e) = failure e

  -- `hasBlob`
  unfoldable pub has_blob : Str → HttpServer → Response × HttpServer
  has_blob hash s =
      let (r, t) = store.has hash s.store_state in (has_response r, record s { store_state = t })
