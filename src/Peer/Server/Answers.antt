-- ===== src/Peer/Server/Answers.antt =====
-- What the peer server answers about the blobs of a store that keeps its contract.
use reflector_go.Errors.{
  Result-cases, ok, Result, err, blob_not_found, message, external, not_implemented,
}
use reflector_go.Peer.Server.{
  IncomingBlob, nothing, not_found, incoming, available, keep_available, blob_hash,
  handle_composite_request, CompositeRequest, incoming_blob, BlobTrace, CompositeResponse,
  answer_blob, respond, payment_rate, is_negative, rate_too_low, rate_accepted,
  blob_hash_hex_length, respond_with,
}
use reflector_go.Store.{Blob, BlobStore, Spec, Implements, IsRead}
use reflector_go.Prelude.{
  List, ℕ, ◌∙◌, Option, Str, ◌∷◌, ◌≡◌, keep_if, Bool, inl, [], is_some, arith, refl, true, none,
  inr, some, false, length, if◌then◌else◌, Bool-cases, str_eq, subst, str_eq_iff, ◌==◌,
}

module _ {store : BlobStore} (A : Spec store) (digest : List ℕ → List ℕ) where
  -- The requested hashes under which the store holds a blob, in their order.
  abbrev pub held : store.State → List Str → List Str
  held s hashes = keep_if (λ h. is_some (A.view s h)) hashes

  -- The part of a response about the requested blob, and the bytes behind the response.
  abbrev pub IsAnswer : Option Blob → Str → IncomingBlob × Blob → Type 0
  IsAnswer v hash (nothing, b) = (hash ≡ []) × (b ≡ [])
  IsAnswer v hash (not_found, b) = (v ≡ none) × (b ≡ [])
  IsAnswer v hash (incoming k n, b) = (v ≡ some b) × (k ≡ blob_hash digest b) × (n ≡ length b)

  module _ (I : Implements A) where
    joined-IsRead : (s t u : store.State) → IsRead A s t → IsRead A t u → IsRead A s u
    joined-IsRead s t u r q = record { valid = q.valid; same = λ j. q.same j ∙ r.same j }

    held-same :
        (s t : store.State) (hashes : List Str) → IsRead A s t → held t hashes ≡ held s hashes
    held-same s t [] r = refl
    held-same s t (h ∷ hashes) r = rw (r.same h) (ground (arith, held-same s t hashes r))

    keep_available-same :
        (h : Str) (b : Bool) (r : Result (List Str) × store.State)
        → (keep_available store digest h b r).1 ≡ r.1
    keep_available-same h b (ok hashes, s) = refl
    keep_available-same h b (err e, s) = refl

    available-IsRead :
        (hashes : List Str) (s : store.State)
        → A.IsValid s
        → IsRead A s (available store digest hashes s).1
    unfolding available
    available-IsRead [] s v = record { valid = v; same = λ j. refl }
    available-IsRead (h ∷ hashes) s v =
        let r = I.has_read h s v in
        elim (Result-cases (store.has h s).0) [
          | inl (b, e) ↦
              rw
                (
                  e,
                  available,
                  keep_available-same h b (available store digest hashes (store.has h s).1),
                )
                (joined-IsRead s _ _ r (available-IsRead hashes _ r.valid))
          | inr (x, e) ↦ rw (e, available) r
        ]

    available-held :
        (hashes : List Str) (s : store.State) (answer : List Str)
        → A.IsValid s
        → (available store digest hashes s).0 ≡ ok answer
        → answer ≡ held s hashes
    unfolding available
    available-held [] s answer v e = ground arith
    available-held (h ∷ hashes) s answer v e =
        let t = (store.has h s).1 in
        elim (Result-cases (available store digest hashes t).0) [
          | inl (a, f) ↦ ground (
            arith,
            Result-cases (store.has h s).0,
            I.has_ok h s true v,
            I.has_ok h s false v,
            held-same s t hashes (I.has_read h s v),
            available-held hashes t a (I.has_read h s v).valid,
          )
          | inr (x, f) ↦ ground (arith, Result-cases (store.has h s).0)
        ]

    answer_blob-IsAnswer :
        (h : Str) (s : store.State) (r : Result Blob × BlobTrace × store.State)
        (answer : IncomingBlob × Blob)
        → ((b : Blob) → r.0 ≡ ok b → A.view s h ≡ some b)
        → (r.0 ≡ err blob_not_found → A.view s h ≡ none)
        → (answer_blob store digest r).0 ≡ ok answer
        → IsAnswer (A.view s h) h answer
    answer_blob-IsAnswer h s (ok b, trace, t) (incoming k n, c) held gone e =
        ground (arith, held b refl)
    answer_blob-IsAnswer h s (ok b, trace, t) (nothing, c) held gone e = ground arith
    answer_blob-IsAnswer h s (ok b, trace, t) (not_found, c) held gone e = ground arith
    answer_blob-IsAnswer h s (err blob_not_found, trace, t) (nothing, c) held gone e = ground arith
    answer_blob-IsAnswer h s (err blob_not_found, trace, t) (not_found, c) held gone e =
        ground (arith, gone refl)
    answer_blob-IsAnswer h s (err blob_not_found, trace, t) (incoming k n, c) held gone e =
        ground arith
    answer_blob-IsAnswer h s (err not_implemented, trace, t) answer held gone e = cc
    answer_blob-IsAnswer h s (err (message x), trace, t) answer held gone e = cc
    answer_blob-IsAnswer h s (err (external x), trace, t) answer held gone e = cc

    ok_injective {ℓ} : {B : Type ℓ} {x y : B} → ok x ≡ ok y → x ≡ y
    ok_injective e = cc

    incoming_blob-IsAnswer :
        (h : Str) (s : store.State) (answer : IncomingBlob × Blob)
        → A.IsValid s
        → (incoming_blob store digest h s).0 ≡ ok answer
        → IsAnswer (A.view s h) h answer
    unfolding incoming_blob
    incoming_blob-IsAnswer h s answer v e = elim (Bool-cases (str_eq h [])) [
      | inl none_asked ↦
          subst (IsAnswer (A.view s h) h) (ok_injective (rw none_asked at e))
            ((str_eq_iff h []).0 none_asked, refl)
      | inr asked ↦ elim (Bool-cases (length h == blob_hash_hex_length)) [
        | inl fits ↦
            answer_blob-IsAnswer h s (store.get h s) answer (λ b f. I.get_ok h s b v f)
              (I.get_missing h s v) (rw (asked, fits) at e)
        | inr wrong ↦ let f = rw (asked, wrong) at e in cc
      ]
    ]

    respond-eq :
        (q : CompositeRequest) (hashes : List Str) (r : Result (IncomingBlob × Blob) × store.State)
        (p : CompositeResponse) (b : Blob)
        → (respond store digest q hashes r).0 ≡ ok (p, b)
        → (r.0 ≡ ok (p.incoming_blob, b))
          × (p.available_blobs ≡ hashes)
          × (p.blob_data_payment_rate ≡ payment_rate store digest q.blob_data_payment_rate)
    respond-eq q hashes (ok (part, blob), t) p b e = ground arith
    respond-eq q hashes (err x, t) p b e = cc

    -- A composite request over a store that keeps its contract, where it is answered: the response
    -- lists the requested hashes that the store holds, in their order; it refuses exactly the negative
    -- rates; and for a requested blob it carries the blob that the store holds, with its hash and its
    -- length, or says that the store does not hold it.
    pub handle_composite_request-IsAnswer :
        (q : CompositeRequest) (s : store.State) (p : CompositeResponse) (b : Blob)
        → A.IsValid s
        → (handle_composite_request store digest q s).0 ≡ ok (p, b)
        → (p.available_blobs ≡ held s q.requested_blobs)
          × (p.blob_data_payment_rate
              ≡ (if is_negative q.blob_data_payment_rate then rate_too_low else rate_accepted))
          × IsAnswer (A.view s q.requested_blob) q.requested_blob (p.incoming_blob, b)
    unfolding handle_composite_request
    handle_composite_request-IsAnswer q s p b v e =
        let t = (available store digest q.requested_blobs s).1 in
        let r = available-IsRead q.requested_blobs s v in
        elim (Result-cases (available store digest q.requested_blobs s).0) [
          | inr (x, f) ↦ let g = rw (f, respond_with) at e in cc
          | inl (hashes, f) ↦
              let (part, same, rate) =
                respond-eq q hashes (incoming_blob store digest q.requested_blob t) p b
                  (rw (f, respond_with) at e) in
              (
                same ∙ available-held q.requested_blobs s hashes v f,
                rate,
                subst (λ x. IsAnswer x q.requested_blob (p.incoming_blob, b))
                    (r.same q.requested_blob)
                    (incoming_blob-IsAnswer q.requested_blob t (p.incoming_blob, b) r.valid part),
              )
        ]

    answer_blob-same :
        (r : Result Blob × BlobTrace × store.State) → (answer_blob store digest r).1 ≡ r.2
    answer_blob-same (ok b, trace, s) = refl
    answer_blob-same (err e, trace, s) = refl

    incoming_blob-IsRead :
        (h : Str) (s : store.State) → A.IsValid s → IsRead A s (incoming_blob store digest h s).1
    unfolding incoming_blob
    incoming_blob-IsRead h s v =
        let unread : IsRead A s s = record { valid = v; same = λ j. refl } in
        elim (Bool-cases (str_eq h [])) [
          | inl none_asked ↦ rw none_asked unread
          | inr asked ↦ elim (Bool-cases (length h == blob_hash_hex_length)) [
            | inl fits ↦ rw (asked, fits, answer_blob-same (store.get h s)) (I.get_read h s v)
            | inr wrong ↦ rw (asked, wrong) unread
          ]
        ]

    respond-same :
        (q : CompositeRequest) (hashes : List Str) (r : Result (IncomingBlob × Blob) × store.State)
        → (respond store digest q hashes r).1 ≡ r.1
    respond-same q hashes (ok (part, b), s) = refl
    respond-same q hashes (err e, s) = refl

    respond_with-IsRead :
        (q : CompositeRequest) (s : store.State) (r : Result (List Str) × store.State)
        → IsRead A s r.1
        → IsRead A s (respond_with store digest q r).1
    respond_with-IsRead q s (ok hashes, t) v =
        rw (respond-same q hashes (incoming_blob store digest q.requested_blob t))
          (joined-IsRead s t _ v (incoming_blob-IsRead q.requested_blob t v.valid))
    respond_with-IsRead q s (err e, t) v = v

    -- A composite request changes nothing that the store holds.
    pub handle_composite_request-IsRead :
        (q : CompositeRequest) (s : store.State)
        → A.IsValid s
        → IsRead A s (handle_composite_request store digest q s).1
    unfolding handle_composite_request
    handle_composite_request-IsRead q s v =
        respond_with-IsRead q s (available store digest q.requested_blobs s)
          (available-IsRead q.requested_blobs s v)
