-- ===== src/Http.antt =====
-- HTTP, as far as server/http, server/http3, store/http.go and store/cloudfront_ro.go use it:
-- responses, and how a request and its response fare on the way. The transport is a library's.
pub mod Server
pub mod Contract
use reflector_go.Store.{Blob}
use reflector_go.Errors.{Result, external, ok, err}
use reflector_go.Prelude.{ℕ, Str, []}

-- The status, the header `Via` ("" if it is not there), and the body as the client reads it.
pub record Response : Type 0 where
  pub status : ℕ
  pub via : Str
  pub body : Result Blob

abbrev pub status_ok : ℕ
status_ok = 200

abbrev pub status_no_content : ℕ
status_no_content = 204

abbrev pub status_bad_request : ℕ
status_bad_request = 400

abbrev pub status_forbidden : ℕ
status_forbidden = 403

abbrev pub status_not_found : ℕ
status_not_found = 404

abbrev pub status_internal_server_error : ℕ
status_internal_server_error = 500

abbrev pub bare : ℕ → Response
bare status = record { status = status; via = []; body = ok [] }

-- How an exchange ends: as it should, with a request that is lost, or with a response that is lost or
-- whose body breaks off. The number is that of the client's error.
pub data Delivery : Type 0 where
  arrives : Delivery
  request_lost response_lost body_cut : ℕ → Delivery

-- One exchange with a server that handles the request by `handle`.
abbrev pub exchange :
    {State : Type 0} → Delivery → (State → Response × State) → State → Result Response × State
exchange arrives handle s = let (res, s') = handle s in (ok res, s')
exchange (request_lost n) handle s = (err (external n), s)
exchange (response_lost n) handle s = (err (external n), (handle s).1)
exchange (body_cut n) handle s =
    let (res, s') = handle s in (ok (record res { body = err (external n) }), s')
