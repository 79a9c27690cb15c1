-- ===== src/Http3/Contract.antt =====
-- What the results of HTTP/3 requests say of the blob that the server's store holds, and how the client
-- reads them.
pub mod Whole
pub mod Handlers
use reflector_go.Http3
use reflector_go.Http3.{Http3Store, http3_store}
use reflector_go.Http.{Response, Delivery, arrives, request_lost, response_lost, body_cut, exchange}
use reflector_go.Store.{Blob}
use reflector_go.Shared.{BlobTrace}
use reflector_go.Errors.{Result, ok, err, external, blob_not_found, same_error}
use reflector_go.Prelude.{Option, Str, ℕ, ◌≡◌, Bool, ◌≢◌, arith, is_some, some, true, none, refl}

-- What the result of a request for a blob says of the blob that is held.
pub record IsBlobAnswer (held : Option Blob) (r : Result Response) : Type 0 where
  pub reached : r ≢ err blob_not_found
  pub gets :
      (res : Response) (b : Blob) → r ≡ ok res → res.status ≡ 200 → res.body ≡ ok b → held ≡ some b
  pub misses : (res : Response) → r ≡ ok res → res.status ≡ 404 → held ≡ none
  pub reads : (res : Response) → r ≡ ok res → res.body ≢ err blob_not_found

-- What the result of a question for a blob says of it.
pub record IsHasAnswer (held : Option Blob) (r : Result Response) : Type 0 where
  pub yes : (res : Response) → r ≡ ok res → res.status ≡ 200 → is_some held ≡ true
  pub no : (res : Response) → r ≡ ok res → res.status ≡ 404 → held ≡ none

-- An exchange whose handler's response has a property that losses and cuts keep.
pub exchange_answer :
    {State : Type 0} (Q : Result Response → Type 0) (d : Delivery)
    (handle : State → Response × State) (s : State)
    → Q (ok (handle s).0)
    → ((n : ℕ) → Q (err (external n)))
    → ((n : ℕ) → Q (ok (record (handle s).0 { body = err (external n) })))
    → Q (exchange d handle s).0
exchange_answer Q arrives handle s q lost cut = q
exchange_answer Q (request_lost n) handle s q lost cut = lost n
exchange_answer Q (response_lost n) handle s q lost cut = lost n
exchange_answer Q (body_cut n) handle s q lost cut = cut n

pub exchange_state :
    {State : Type 0} (P : State → Type 0) (d : Delivery) (handle : State → Response × State)
    (s : State)
    → P s
    → P (handle s).1
    → P (exchange d handle s).1
exchange_state P arrives handle s before after = after
exchange_state P (request_lost n) handle s before after = before
exchange_state P (response_lost n) handle s before after = after
exchange_state P (body_cut n) handle s before after = after

pub lost-IsBlobAnswer : (held : Option Blob) (n : ℕ) → IsBlobAnswer held (err (external n))
lost-IsBlobAnswer held n = record {
  reached = λ e. cc;
  gets = λ res b e s t. cc;
  misses = λ res e s. cc;
  reads = λ res e t. cc;
}

pub cut-IsBlobAnswer :
    (held : Option Blob) (n : ℕ) (res : Response)
    → IsBlobAnswer held (ok res)
    → IsBlobAnswer held (ok (record res { body = err (external n) }))
cut-IsBlobAnswer held n res v = record {
  reached = λ e. cc;
  gets = λ res' b e s t. ground arith;
  misses = λ res' e s. v.misses res refl (ground arith);
  reads = λ res' e t. ground arith;
}

pub lost-IsHasAnswer : (held : Option Blob) (n : ℕ) → IsHasAnswer held (err (external n))
lost-IsHasAnswer held n = record { yes = λ res e s. cc; no = λ res e s. cc }

pub cut-IsHasAnswer :
    (held : Option Blob) (n : ℕ) (res : Response)
    → IsHasAnswer held (ok res)
    → IsHasAnswer held (ok (record res { body = err (external n) }))
cut-IsHasAnswer held n res v = record {
  yes = λ res' e s. v.yes res refl (ground arith);
  no = λ res' e s. v.no res refl (ground arith);
}

-- The client's reading of the results.
pub has_answer_lem :
    (held : Option Blob) (r : Result Response) (b : Bool)
    → IsHasAnswer held r
    → Http3.has_answer r ≡ ok b
    → b ≡ is_some held
unfolding Http3.has_answer
has_answer_lem held (err e) b v f = cc
has_answer_lem held (ok res) b v f = ground (arith, v.yes res refl, v.no res refl)

module _ (deserialize : Str → Result BlobTrace)
    (parses : (via : Str) → deserialize via ≢ err blob_not_found) where
  trace_of_parses : (via : Str) → Http3.trace_of deserialize via ≢ err blob_not_found
  unfolding Http3.trace_of
  trace_of_parses via e = ground (arith, parses via)

  traced_ok :
      (body : Result Blob) (t : Result BlobTrace) (b : Blob)
      → (Http3.traced deserialize body t).0 ≡ ok b
      → body ≡ ok b
  traced_ok body (ok t) b e = e
  traced_ok body (err x) b e = cc

  traced_missing :
      (body : Result Blob) (t : Result BlobTrace)
      → t ≢ err blob_not_found
      → (Http3.traced deserialize body t).0 ≡ err blob_not_found
      → body ≡ err blob_not_found
  traced_missing body (ok t) ne e = e
  traced_missing body (err x) ne e = absurd (ne (same_error e))

  pub get_answer_lem :
      (held : Option Blob) (r : Result Response)
      → IsBlobAnswer held r
      → ((b : Blob) → (Http3.get_answer deserialize r).0 ≡ ok b → held ≡ some b)
        × ((Http3.get_answer deserialize r).0 ≡ err blob_not_found → held ≡ none)
  unfolding Http3.get_answer
  get_answer_lem held (err e) v = (λ b f. cc, λ f. absurd (v.reached (same_error f)))
  get_answer_lem held (ok res) v =
      let t = Http3.trace_of deserialize res.via in
      (
        λ b f. ground (arith, v.gets res b refl, traced_ok res.body t b),
        λ f. ground (
          arith,
          v.misses res refl,
          v.reads res refl,
          traced_missing res.body t (trace_of_parses res.via),
        ),
      )
