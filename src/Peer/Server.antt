-- ===== src/Peer/Server.antt =====
-- server/peer/server.go: `handleCompositeRequest` and `handleAvailabilityRequest` over a blob store.
-- The JSON codec and the digest are parameters; a response is the value that is encoded, with the
-- blob behind it. `LbrycrdAddress` is a constant of every response and is left out.
-- A float64 is a whole number of the smallest positive float, 2^-1074.
pub mod Answers
use reflector_go.Reflector.Hash.{blob_hash}
use reflector_go.Store.{Blob, BlobStore}
use reflector_go.Prelude.Int.{ℤ, is_negative}
use reflector_go.Prelude.{List, Str, ℕ, if◌then◌else◌, Bool, ◌∷◌, str_eq, [], length, ◌==◌}
use reflector_go.Errors.{Result, ok, err, is_not_found, error_text}
use reflector_go.Shared.{BlobTrace}

pub record CompositeRequest : Type 0 where
  pub requested_blobs : List Str
  pub blob_data_payment_rate : ℤ
  pub requested_blob : Str

-- `paymentRateAccepted` and `paymentRateTooLow`
pub data PaymentRate : Type 0 where
  rate_accepted rate_too_low : PaymentRate

-- `incomingBlob`: its zero value, the error that the blob was not found, or the blob's hash and
-- length.
pub data IncomingBlob : Type 0 where
  nothing not_found : IncomingBlob
  incoming : Str → ℕ → IncomingBlob

pub record CompositeResponse : Type 0 where
  pub available_blobs : List Str
  pub blob_data_payment_rate : PaymentRate
  pub incoming_blob : IncomingBlob

-- `stream.BlobHashHexLength`, the length of a SHA-384 digest in hex
abbrev pub blob_hash_hex_length : ℕ
blob_hash_hex_length = 96

module _ (store : BlobStore) (digest : List ℕ → List ℕ) where
  abbrev Method {ℓ} : Type ℓ → Type ℓ
  Method A = store.State → Result A × store.State

  abbrev keep_available :
      Str → Bool → Result (List Str) × store.State → Result (List Str) × store.State
  keep_available h exists (ok available, s) = (ok (if exists then h ∷ available else available), s)
  keep_available h exists (err e, s) = (err e, s)

  -- The loop of both handlers: the requested hashes that the store has, in their order.
  unfoldable pub available : List Str → Method (List Str)
  available [] s = (ok [], s)
  available (h ∷ hashes) s =
      let (r, s') = store.has h s in
      elim r [ ok exists ↦ keep_available h exists (available hashes s') | err e ↦ (err e, s') ]

  abbrev payment_rate : ℤ → PaymentRate
  payment_rate rate = if is_negative rate then rate_too_low else rate_accepted

  -- The response part for a requested blob, and the bytes that follow the response.
  abbrev pub answer_blob :
      Result Blob × BlobTrace × store.State → Result (IncomingBlob × Blob) × store.State
  answer_blob (ok blob, trace, s) = (ok (incoming (blob_hash digest blob) (length blob), blob), s)
  answer_blob (err e, trace, s) = (if is_not_found e then ok (not_found, []) else err e, s)

  unfoldable pub incoming_blob : Str → Method (IncomingBlob × Blob)
  unfolding blob_hash
  incoming_blob hash s =
      if str_eq hash []
      then (ok (nothing, []), s)
      else if length hash == blob_hash_hex_length
      then answer_blob (store.get hash s)
      else (err (error_text "Invalid blob hash length"), s)

  abbrev respond :
      CompositeRequest
      → List Str
      → Result (IncomingBlob × Blob) × store.State
      → Result (CompositeResponse × Blob) × store.State
  respond q hashes (ok (part, blob), s) = (
    ok (
      record {
        available_blobs = hashes;
        blob_data_payment_rate = payment_rate q.blob_data_payment_rate;
        incoming_blob = part;
      },
      blob,
    ),
    s,
  )
  respond q hashes (err e, s) = (err e, s)

  abbrev respond_with :
      CompositeRequest
      → Result (List Str) × store.State
      → Result (CompositeResponse × Blob) × store.State
  respond_with q (ok hashes, s) = respond q hashes (incoming_blob q.requested_blob s)
  respond_with q (err e, s) = (err e, s)

  -- `handleCompositeRequest`, behind the decoding of the request
  unfoldable pub handle_composite_request : CompositeRequest → Method (CompositeResponse × Blob)
  unfolding available incoming_blob
  handle_composite_request q s = respond_with q (available q.requested_blobs s)

  -- `handleAvailabilityRequest`, behind the decoding of the request: the hashes of the response
  unfoldable pub handle_availability_request : List Str → Method (List Str)
  unfolding available
  handle_availability_request requested_blobs = available requested_blobs
