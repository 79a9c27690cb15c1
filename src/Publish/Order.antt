-- ===== src/Publish/Order.antt =====
-- A transaction is sent only when its stream is on the reflector.
use reflector_go.Reflector.Client
use reflector_go.Publish
use reflector_go.Publish.{
  Details, Claim, ScriptOp, Encoded, StreamProto, make_stream, reflect, reflect_loop, Message, Blob,
  Error, Result, ok, err,
}
use reflector_go.Prelude.{
  List, ℕ, Str, Option, Bool, ◌≡◌, ◌∷◌, ◌⊎◌, true, false, ◌++◌, [], inl, arith, refl, inr, subst,
  ap,
}
use reflector_go.Errors.{Result-cases}

module _ (encode : Message → List ℕ) (hash_hex : Blob → Str) (valid_for_send : Blob → Option Error)
    (Address Tx TxId : Type 0) (decode_address : Str → Result Address)
    (base_tx : Address → Result Tx) (encode_file : Str → Result Encoded)
    (marshal : Claim → Result (List ℕ)) (amount : Result ℕ)
    (pay_to_addr_script : Address → Result (List ℕ))
    (script_bytes : List ScriptOp → Result (List ℕ)) (add_tx_out : Tx → ℕ → List ℕ → Tx)
    (sign : Tx → Result (Tx × Bool)) (connect : Str → Result Client.Client)
    (send_raw : Tx → Result TxId) where
  abbrev Network : Type 0
  Network =
      Publish.Network encode hash_hex valid_for_send Address Tx TxId decode_address base_tx
        encode_file marshal amount pay_to_addr_script script_bytes add_tx_out sign connect send_raw

  abbrev Publishes {ℓ} : Type ℓ → Type ℓ
  Publishes A = Network → Result A × Network

  abbrev bind {ℓ κ} : {A : Type ℓ} {B : Type κ} → Publishes A → (A → Publishes B) → Publishes B
  bind =
      Publish.◌>>=◌ encode hash_hex valid_for_send Address Tx TxId decode_address base_tx
        encode_file marshal amount pay_to_addr_script script_bytes add_tx_out sign connect send_raw

  abbrev lift {ℓ} : {A : Type ℓ} → Result A → Publishes A
  lift =
      Publish.lift encode hash_hex valid_for_send Address Tx TxId decode_address base_tx encode_file
        marshal amount pay_to_addr_script script_bytes add_tx_out sign connect send_raw

  abbrev require : Bool → Error → Publishes (Unit {0})
  require =
      Publish.require encode hash_hex valid_for_send Address Tx TxId decode_address base_tx
        encode_file marshal amount pay_to_addr_script script_bytes add_tx_out sign connect send_raw

  -- Every blob of the list was accepted by the reflector, the first as an sd blob, one after another on
  -- one connection.
  abbrev pub AreAccepted : Bool → List Blob → Client.Client → Type 0
  AreAccepted is_sd [] c = Unit
  AreAccepted is_sd (b ∷ blobs) c =
      let (r, c') = Client.send encode hash_hex valid_for_send b is_sd c in
      (r ≡ ok tt) × AreAccepted false blobs c'

  accepted_first :
      (blobs : List Blob) (r : Result (Unit {0}) × Client.Client)
      → ((c : Client.Client)
          → (reflect_loop encode hash_hex valid_for_send false blobs c).0 ≡ ok tt
          → AreAccepted false blobs c)
      → (Client.continue r (λ done. reflect_loop encode hash_hex valid_for_send false blobs)).0
        ≡ ok tt
      → (r.0 ≡ ok tt) × AreAccepted false blobs r.1
  accepted_first blobs (ok _, c) rest e = (refl, rest c e)
  accepted_first blobs (err x, c) rest e = cc

  reflect_loop-AreAccepted :
      (is_sd : Bool) (blobs : List Blob) (c : Client.Client)
      → (reflect_loop encode hash_hex valid_for_send is_sd blobs c).0 ≡ ok tt
      → AreAccepted is_sd blobs c
  unfolding reflect_loop
  reflect_loop-AreAccepted is_sd [] c e = tt
  reflect_loop-AreAccepted is_sd (b ∷ blobs) c e =
      accepted_first blobs (Client.send encode hash_hex valid_for_send b is_sd c)
        (reflect_loop-AreAccepted false blobs) e

  module _ (path reflector_address : Str) where
    -- The stream of the file was uploaded.
    abbrev pub IsUploaded : Type 0
    IsUploaded =
        (blobs : List Blob) × (proto : StreamProto) × (c : Client.Client) × (make_stream encode_file
            path
          ≡ ok (blobs, proto))
        × (connect reflector_address ≡ ok c)
        × AreAccepted true blobs c

    record IsSafe {ℓ} {A : Type ℓ} (m : Publishes A) : Type ℓ where
      at :
          (n : Network)
          → ((m n).1.chain ≡ n.chain)
            ⊎ ((tx : Tx) × ((m n).1.chain ≡ n.chain ++ (tx ∷ [])) × IsUploaded)

    -- A step that only computes, or fails.
    IsSafe-lift {ℓ κ} :
        {A : Type ℓ} {B : Type κ} (r : Result A) (f : A → Publishes B)
        → ((a : A) → r ≡ ok a → IsSafe (f a))
        → IsSafe (bind (lift r) f)
    unfolding Publish.◌>>=◌ Publish.lift
    IsSafe-lift (ok a) f p = record { at = λ n. (p a refl).at n }
    IsSafe-lift (err e) f p = record { at = λ n. inl refl }

    IsSafe-require {ℓ} :
        {B : Type ℓ} (b : Bool) (e : Error) (f : Unit {0} → Publishes B)
        → IsSafe (f tt)
        → IsSafe (bind (require b e) f)
    unfolding Publish.◌>>=◌ Publish.require
    IsSafe-require true e f p = record { at = λ n. p.at n }
    IsSafe-require false e f p = record { at = λ n. inl refl }

    -- A step that leaves all as it is.
    record IsQuiet {ℓ} {A : Type ℓ} (m : Publishes A) : Type ℓ where
      same : (n : Network) → (m n).1 ≡ n

    continued {ℓ κ} :
        {A : Type ℓ} {B : Type κ} (r : Result A × Network) (f : A → Publishes B) (n : Network)
        → ((a : A) → IsSafe (f a))
        → r.1 ≡ n
        → let n' =
            (Publish.continue encode hash_hex valid_for_send Address Tx TxId decode_address base_tx
              encode_file marshal amount pay_to_addr_script script_bytes add_tx_out sign connect
              send_raw r f).1 in
          (n'.chain ≡ n.chain) ⊎ ((tx : Tx) × (n'.chain ≡ n.chain ++ (tx ∷ [])) × IsUploaded)
    continued (ok a, m) f n p e =
        subst
          (λ (k : Network).
            ((f a m).1.chain ≡ k.chain)
            ⊎ ((tx : Tx) × ((f a m).1.chain ≡ k.chain ++ (tx ∷ [])) × IsUploaded))
          e ((p a).at m)
    continued (err x, m) f n p e = inl (ap (λ (k : Network). k.chain) e)

    IsSafe-quiet {ℓ κ} :
        {A : Type ℓ} {B : Type κ} (m : Publishes A) (f : A → Publishes B)
        → IsQuiet m
        → ((a : A) → IsSafe (f a))
        → IsSafe (bind m f)
    unfolding Publish.◌>>=◌
    IsSafe-quiet m f q p = record { at = λ n. continued (m n) f n p (q.same n) }

    add_claim-IsQuiet :
        (tx : Tx) (claim : Claim) (name : Str) (address : Address)
        → IsQuiet (
            Publish.add_claim_to_tx encode hash_hex valid_for_send Address Tx TxId decode_address
              base_tx encode_file marshal amount pay_to_addr_script script_bytes add_tx_out sign
              connect send_raw tx claim name address)
    unfolding Publish.add_claim_to_tx Publish.◌>>=◌
    add_claim-IsQuiet tx claim name address = record {
      same = λ n. ground (arith, Result-cases (marshal claim), Result-cases amount);
    }

    -- The last two calls.
    abbrev upload_and_send : List Blob → Tx → Publishes (Tx × TxId)
    upload_and_send blobs tx =
        bind
          (Publish.upload encode hash_hex valid_for_send Address Tx TxId decode_address base_tx
            encode_file marshal amount pay_to_addr_script script_bytes add_tx_out sign connect
            send_raw blobs reflector_address)
          (λ done.
            bind
              (Publish.send_transaction encode hash_hex valid_for_send Address Tx TxId
                decode_address base_tx encode_file marshal amount pay_to_addr_script script_bytes
                add_tx_out sign connect send_raw tx)
              (λ tx_id. lift (ok (tx, tx_id))))

    IsSafe-upload_and_send :
        (blobs : List Blob) (proto : StreamProto) (tx : Tx)
        → make_stream encode_file path ≡ ok (blobs, proto)
        → IsSafe (upload_and_send blobs tx)
    unfolding Publish.◌>>=◌ Publish.upload Publish.send_transaction Publish.lift reflect
    IsSafe-upload_and_send blobs proto tx e = record {
      at = λ n. elim (Result-cases (connect reflector_address)) [
        | inl (c, made) ↦
            elim (Result-cases (reflect_loop encode hash_hex valid_for_send true blobs c).0) [
              | inl (u, done) ↦
                  let chain : (upload_and_send blobs tx n).1.chain ≡ n.chain ++ (tx ∷ []) =
                    elim (Result-cases (send_raw tx)) [
                      | inl (i, g) ↦ rw (made, done, g) refl
                      | inr (x, g) ↦ rw (made, done, g) refl
                    ] in
                  inr (
                    tx,
                    chain,
                    (blobs, proto, c, e, made, reflect_loop-AreAccepted true blobs c done),
                  )
              | inr (x, failed) ↦ inl (rw (made, failed) refl)
            ]
        | inr (x, refused) ↦ inl (rw refused refl)
      ];
    }

    -- If `Publish` hands a transaction to the chain, then it hands over one, and only after the
    -- reflector has accepted every blob of the file's stream, the first as the sd blob.
    pub publish-IsOrdered :
        (name address : Str) (details : Details) (n : Network)
        → let n' =
            (Publish.publish encode hash_hex valid_for_send Address Tx TxId decode_address base_tx
              encode_file marshal amount pay_to_addr_script script_bytes add_tx_out sign connect
              send_raw path name address details reflector_address n).1 in
          (n'.chain ≡ n.chain) ⊎ ((tx : Tx) × (n'.chain ≡ n.chain ++ (tx ∷ [])) × IsUploaded)
    unfolding Publish.publish
    publish-IsOrdered name address details n =
        (IsSafe-require _ _ _ (
            IsSafe-lift (decode_address address) _ λ addr a. IsSafe-lift (base_tx addr) _ λ tx b.
              IsSafe-lift (make_stream encode_file path) _ λ made e.
                IsSafe-quiet _ _ (add_claim-IsQuiet tx _ name addr) λ with_claim.
                  IsSafe-lift (sign with_claim) _ λ signed s.
                    IsSafe-require _ _ _ (IsSafe-upload_and_send made.0 made.1 signed.0 e))).at
          n
