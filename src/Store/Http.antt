-- ===== src/Store/Http.antt =====
-- store/http.go: `HttpStore`. The requests that it makes of its upstream are parameters, with what they
-- may change (`Net`), and so is the parsing of a trace. The texts of the errors leave out the status
-- and the body that the code adds to them.
use reflector_go.Http
use reflector_go.Http.{Response}
use reflector_go.Store.{Blob, BlobStore}
use reflector_go.Shared.{BlobTrace, new_blob_trace, stack}
use reflector_go.Errors.{Error, Result, ok, err, error_text, blob_not_found, not_implemented}
use reflector_go.Prelude.{Bool, Str, bytes, if◌then◌else◌, ◌==◌, str_eq, false, [], true}

abbrev pub name_http : Str
name_http = bytes "http"

abbrev pub upstream_error : Error
upstream_error = error_text "upstream error"

-- What `Has` makes of the response to its request.
unfoldable pub has_answer : Result Response → Result Bool
has_answer (err e) = err e
has_answer (ok res) =
    if res.status == Http.status_not_found
    then ok false
    else (if res.status == Http.status_no_content then ok true else err upstream_error)

module _ (deserialize : Str → Result BlobTrace) where
  -- The trace of a response: that of the header `Via`, if there is one.
  unfoldable pub trace_of : Str → Result BlobTrace
  trace_of via = if str_eq via [] then ok (new_blob_trace name_http) else deserialize via

  abbrev pub stacked : Result Blob → BlobTrace → Result Blob × BlobTrace
  stacked r trace = (r, stack trace name_http)

  unfoldable pub blob_answer : Response → Result BlobTrace → Result Blob × BlobTrace
  blob_answer res (err e) = (err e, new_blob_trace name_http)
  blob_answer res (ok trace) =
      if res.status == Http.status_not_found
      then stacked (err blob_not_found) trace
      else (if res.status == Http.status_ok
          then stacked res.body trace
          else stacked (err upstream_error) trace)

  -- What `Get` makes of the response to its request.
  unfoldable pub get_answer : Result Response → Result Blob × BlobTrace
  unfolding trace_of blob_answer
  get_answer (err e) = (err e, new_blob_trace name_http)
  get_answer (ok res) = blob_answer res (trace_of res.via)

  module _ (Net : Type 0) (head get_request : Str → Net → Result Response × Net) where
    -- `Has`
    unfoldable pub has : Str → Net → Result Bool × Net
    unfolding has_answer
    has hash n = let (r, n') = head hash n in (has_answer r, n')

    -- `Get`
    unfoldable pub get : Str → Net → Result Blob × BlobTrace × Net
    unfolding get_answer
    get hash n = let (r, n') = get_request hash n in ((get_answer r).0, (get_answer r).1, n')

    -- `Put`, `PutSD`, `Delete` and `Shutdown`
    abbrev pub http_store : BlobStore
    http_store = record {
      State = Net;
      name = name_http;
      has = has;
      get = get;
      put = λ hash blob n. (err not_implemented, n);
      put_sd = λ hash blob n. (err not_implemented, n);
      delete = λ hash n. (err not_implemented, n);
      shutdown = λ n. n;
    }
