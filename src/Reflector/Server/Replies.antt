-- ===== src/Reflector/Server/Replies.antt =====
-- What a connection answers to an upload.
use reflector_go.Reflector.Server.{
  Message, Stores, returns, Session, BlobRequest, ◌>>=◌, write, store_blob, transfer_response, Blob,
  Done, ok,
}
use reflector_go.Reflector.Hash.{blob_hash}
use reflector_go.Prelude.{
  List, ℕ, Option, ◌≡◌, ◌≢◌, ◌∷◌, if◌then◌else◌, ◌++◌, true, [], false, ◌⊎◌, arith, str_eq_ne, sym,
  str_eq_iff,
}

module _ (stores : Stores) (decode : List ℕ → Option Message) (digest : List ℕ → List ℕ)
    (max_blob_size : ℕ) where
  -- The put that a request asks for.
  abbrev pub put_of : BlobRequest → Blob → stores.State → Done × stores.State
  put_of q b s = if q.is_sd then stores.put_sd q.hash b s else stores.put q.hash b s

  -- A round that stores its blob.
  pub record IsStored (q : BlobRequest) (b : Blob)
      (w w' : Session stores decode digest max_blob_size) : Type 0 where
    pub hashed : blob_hash digest b ≡ q.hash
    pub taken : (put_of q b w.store).0 ≡ ok tt
    pub stored : w'.store ≡ (put_of q b w.store).1
    pub acknowledged : w'.conn.outbox ≡ w.conn.outbox ++ (transfer_response true q.is_sd ∷ [])

  -- An upload succeeds only if the bytes have the announced hash and the store took them, and then
  -- the one reply is the acknowledgement.
  pub store_blob-IsStored :
      (q : BlobRequest) (b : Blob) (w : Session stores decode digest max_blob_size)
      → (store_blob stores decode digest max_blob_size q b w).0 ≡ returns tt
      → IsStored q b w (store_blob stores decode digest max_blob_size q b w).1
  unfolding store_blob ◌>>=◌ write
  store_blob-IsStored q b w e = ground (arith, str_eq_iff q.hash (blob_hash digest b))

  -- Bytes with another hash than the announced one are refused: the stores stay as they are, the
  -- upload fails, and the reply, if it can be written, says that no blob was received.
  pub store_blob_mismatch :
      (q : BlobRequest) (b : Blob) (w : Session stores decode digest max_blob_size)
      → blob_hash digest b ≢ q.hash
      → let (r, w') = store_blob stores decode digest max_blob_size q b w in
        (r ≢ returns tt)
        × (w'.store ≡ w.store)
        × ((w'.conn.outbox ≡ w.conn.outbox ++ (transfer_response false q.is_sd ∷ []))
            ⊎ (w'.conn.outbox ≡ w.conn.outbox))
  unfolding store_blob ◌>>=◌ write
  store_blob_mismatch q b w ne =
      rw (str_eq_ne q.hash (blob_hash digest b) (λ e. ne (sym e))) (ground arith)
