-- ===== src/Http3.antt =====
-- server/http3: the handlers of the HTTP/3 server, its client, and the store over that client. The JSON of
-- traces and of an availability response, and the texts of errors, are parameters. A request passes a
-- queue and a worker (server/http3/worker.go), which hand it on as it is.
pub mod Contract
use reflector_go.Http
use reflector_go.Http.{Response}
use reflector_go.Store.{Blob, BlobStore}
use reflector_go.Shared.{BlobTrace, new_blob_trace, stack}
use reflector_go.Errors.{
  Error, Result, ok, err, is_not_found, blob_not_found, not_implemented, error_text,
}
use reflector_go.Prelude.Dict
use reflector_go.Prelude.Dict.{Dict, lookup}
use reflector_go.Order.{mem_str}
use reflector_go.Prelude.{
  Bool, Str, if◌then◌else◌, Option, [], bytes, ℕ, true, ◌==◌, str_eq, false, ◌∷◌, some, none, ltb,
  ◌+◌, ◌*◌,
}

-- `strconv.ParseBool`, whose error counts as false.
unfoldable pub parse_bool : Str → Bool
parse_bool s =
    mem_str s (bytes "1" ∷ bytes "t" ∷ bytes "T" ∷ bytes "TRUE" ∷ bytes "true" ∷ bytes "True" ∷ [])

module _ (store : BlobStore) (serialize : BlobTrace → Result Str) (text : Error → Str)
    (encode : Bool → Result Blob) where
  -- `http.Error(w, …, status)`
  abbrev pub http_error : ℕ → Str → Error → Response
  http_error status via e = record { status = status; via = via; body = ok (text e) }

  abbrev pub blob_response : Str → Result Blob → Response
  blob_response via (ok blob) = record { status = Http.status_ok; via = via; body = ok blob }
  blob_response via (err e) =
      http_error (if is_not_found e then Http.status_not_found else Http.status_bad_request) via e

  abbrev pub with_trace : Result Str → Result Blob → Response
  with_trace (ok via) r = blob_response via r
  with_trace (err e) r = http_error Http.status_not_found [] e

  -- `HandleGetBlob`, with the query's parameter `trace`
  unfoldable pub handle_get_blob : Str → Str → store.State → Response × store.State
  unfolding parse_bool
  handle_get_blob trace_param hash s =
      let (r, trace, s') = store.get hash s in
      (if parse_bool trace_param then with_trace (serialize trace) r else blob_response [] r, s')

  abbrev pub available : Result Blob → Response
  available (ok body) = record { status = Http.status_ok; via = []; body = ok body }
  available (err e) = http_error Http.status_internal_server_error [] e

  -- The status is written before the JSON is made.
  abbrev pub unavailable : Result Blob → Response
  unavailable (ok body) = record { status = Http.status_not_found; via = []; body = ok body }
  unavailable (err e) = http_error Http.status_not_found [] e

  abbrev pub has_response : Result Bool → Response
  has_response (ok true) = available (encode true)
  has_response (ok false) = unavailable (encode false)
  has_response (err e) = http_error Http.status_bad_request [] e

  -- The handler of "/has/{hash}".
  unfoldable pub handle_has_blob : Str → store.State → Response × store.State
  handle_has_blob hash s = let (r, s') = store.has hash s in (has_response r, s')

abbrev pub name_http3 : Str
name_http3 = bytes "http3"

abbrev pub bad_status : Error
bad_status = error_text "non 200 status code returned"

-- What `HasBlob` makes of the response to its request.
unfoldable pub has_answer : Result Response → Result Bool
has_answer (err e) = err e
has_answer (ok res) =
    if res.status == Http.status_ok
    then ok true
    else if res.status == Http.status_not_found
    then ok false
    else err bad_status

module _ (deserialize : Str → Result BlobTrace) where
  unfoldable pub trace_of : Str → Result BlobTrace
  trace_of via = if str_eq via [] then ok (new_blob_trace name_http3) else deserialize via

  abbrev pub traced : Result Blob → Result BlobTrace → Result Blob × BlobTrace
  traced body (ok trace) = (body, stack trace name_http3)
  traced body (err e) = (err e, new_blob_trace name_http3)

  -- What `GetBlob` makes of the response to its request.
  unfoldable pub get_answer : Result Response → Result Blob × BlobTrace
  unfolding trace_of
  get_answer (err e) = (err e, new_blob_trace name_http3)
  get_answer (ok res) =
      if res.status == Http.status_not_found
      then (err blob_not_found, new_blob_trace name_http3)
      else if res.status == Http.status_ok
      then traced res.body (trace_of res.via)
      else (err bad_status, new_blob_trace name_http3)

  -- `Store`: `not_found_cache` has the times of misses; `get_client` is what making a client answers,
  -- an error or none, and `mentions` says whether the text of an error has "blob not found" in it.
  module _ (Net : Type 0) (has_request get_request : Str → Net → Result Response × Net)
      (get_client : Net → Option Error) (mentions : Error → Bool) (now : Net → ℕ) where
    pub record Http3Store : Type 0 where
      pub net : Net
      pub not_found_cache : Dict ℕ

    abbrev pub has_by : Option Error → Str → Http3Store → Result Bool × Http3Store
    has_by (some e) hash p = (err e, p)
    has_by none hash p = let (r, n) = has_request hash p.net in (has_answer r, record p { net = n })

    -- `Has`
    unfoldable pub has : Str → Http3Store → Result Bool × Http3Store
    unfolding has_answer
    has hash p = has_by (get_client p.net) hash p

    -- `lastChecked.After(time.Now().Add(-5 * time.Minute))`
    abbrev pub is_recent : Option ℕ → ℕ → Bool
    is_recent none now = false
    is_recent (some last_checked) now = ltb now (last_checked + 5 * 60)

    abbrev pub note_miss : Error → Str → Http3Store → Http3Store
    note_miss e hash p =
        if mentions e
        then record p { not_found_cache = Dict.insert hash (now p.net) p.not_found_cache }
        else p

    abbrev pub get_by : Option Error → Str → Http3Store → Result Blob × BlobTrace × Http3Store
    get_by (some e) hash p = (err e, new_blob_trace name_http3, note_miss e hash p)
    get_by none hash p =
        let (r, n) = get_request hash p.net in
        ((get_answer r).0, (get_answer r).1, record p { net = n })

    -- `Get`
    unfoldable pub get : Str → Http3Store → Result Blob × BlobTrace × Http3Store
    unfolding get_answer
    get hash p =
        if is_recent (lookup hash p.not_found_cache) (now p.net)
        then (err blob_not_found, new_blob_trace (bytes "http3-notfoundcache"), p)
        else get_by (get_client p.net) hash p

    -- `Put`, `PutSD`, `Delete` and `Shutdown`
    abbrev pub http3_store : BlobStore
    http3_store = record {
      State = Http3Store;
      name = name_http3;
      has = has;
      get = get;
      put = λ hash blob p. (err not_implemented, p);
      put_sd = λ hash blob p. (err not_implemented, p);
      delete = λ hash p. (err not_implemented, p);
      shutdown = λ p. p;
    }
