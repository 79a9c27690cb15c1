-- ===== src/Http3/Contract/Handlers.antt =====
-- What the handlers of the HTTP/3 server answer of a store that keeps the contract.
use reflector_go.Http3
use reflector_go.Http3.{http3_store, Response}
use reflector_go.Http3.Contract.{IsBlobAnswer, IsHasAnswer}
use reflector_go.Store.{Blob, BlobStore, Spec, Implements, not_some}
use reflector_go.Shared.{BlobTrace}
use reflector_go.Errors.{Error, Result, ok, err, blob_not_found, is_not_found, is_not_found_lem}
use reflector_go.Prelude.{
  Str, Bool, ◌≡◌, Option, Bool-cases, is_some, some, inl, none, sym, inr, arith, [], ap, true,
  false, refl,
}

module _ (store : BlobStore) (serialize : BlobTrace → Result Str) (text : Error → Str)
    (encode : Bool → Result Blob) (A : Spec store) where
  pub has_response-IsHasAnswer :
      (held : Option Blob) (r : Result Bool)
      → ((b : Bool) → r ≡ ok b → b ≡ is_some held)
      → ((b : Bool) → (x : Blob) × (encode b ≡ ok x))
      → IsHasAnswer held (ok (Http3.has_response store serialize text encode r))
  has_response-IsHasAnswer held (ok true) f encodes =
      let (x, e) = encodes true in
      rw e (record { yes = λ res p s. sym (f true refl); no = λ res p s. ground arith })
  has_response-IsHasAnswer held (ok false) f encodes =
      let (x, e) = encodes false in
      rw e (record {
        yes = λ res p s. ground arith;
        no = λ res p s. not_some held (sym (f false refl));
      })
  has_response-IsHasAnswer held (err e) f encodes = record {
    yes = λ res p s. ground arith;
    no = λ res p s. ground arith;
  }

  blob_response-IsBlobAnswer :
      (held : Option Blob) (via : Str) (r : Result Blob)
      → ((b : Blob) → r ≡ ok b → held ≡ some b)
      → (r ≡ err blob_not_found → held ≡ none)
      → IsBlobAnswer held (ok (Http3.blob_response store serialize text encode via r))
  blob_response-IsBlobAnswer held via (ok b) f g = record {
    reached = λ e. cc;
    gets = λ res c e s t. f c (ground arith);
    misses = λ res e s. ground arith;
    reads = λ res e t. ground arith;
  }
  blob_response-IsBlobAnswer held via (err x) f g = elim (Bool-cases (is_not_found x)) [
    | inl missing ↦ rw missing (record {
      reached = λ e. cc;
      gets = λ res c e s t. ground arith;
      misses = λ res e s. g (ap err (is_not_found_lem x missing));
      reads = λ res e t. ground arith;
    })
    | inr other ↦ rw other (record {
      reached = λ e. cc;
      gets = λ res c e s t. ground arith;
      misses = λ res e s. ground arith;
      reads = λ res e t. ground arith;
    })
  ]

  pub handle_get_blob-IsBlobAnswer :
      (param h : Str) (s : store.State)
      → Implements A
      → ((t : BlobTrace) → (x : Str) × (serialize t ≡ ok x))
      → A.IsValid s
      → IsBlobAnswer
          (A.view s h)
          (ok (Http3.handle_get_blob store serialize text encode param h s).0)
  unfolding Http3.handle_get_blob
  handle_get_blob-IsBlobAnswer param h s I total v =
      let found = λ (via : Str).
        blob_response-IsBlobAnswer (A.view s h) via (store.get h s).0 (λ b e. I.get_ok h s b v e)
          (λ e. I.get_missing h s v e) in
      let (x, e) = total (store.get h s).1 in
      elim (Bool-cases (Http3.parse_bool param)) [
        | inl traced ↦ rw (traced, e) (found x)
        | inr plain ↦ rw plain (found [])
      ]
