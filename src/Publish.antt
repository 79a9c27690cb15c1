-- ===== src/Publish.antt =====
-- publish/publish.go: making a claim for a file, uploading its stream and sending the transaction. The
-- calls of lbrycrd, of the libraries of lbry and of the btcd libraries are parameters, with values of
-- their types; `float` is the arithmetic of the amounts, which `baseTx` and `NewAmount` stand for.
pub mod Mime
pub mod Coins
pub mod Order
use reflector_go.Reflector.Client
use reflector_go.Publish.Mime.{guess_mime_type, normal}
use reflector_go.Prelude.{
  List, Str, ℕ, [], if◌then◌else◌, ◌∷◌, str_eq, ◌==◌, ◌++◌, Option, bytes, none, Bool, true, false,
  not, some,
}
use reflector_go.Reflector.Server.{Message}
use reflector_go.Store.{Blob}
use reflector_go.Errors.{Result, err, Error, ok, error_text}
use reflector_go.Reflector.Uploader.{base}

-- `filepath.Ext`
abbrev pub grown : Str → ℕ → Str
grown [] c = []
grown (d ∷ ext) c = (d ∷ ext) ++ (c ∷ [])

unfoldable pub ext_from : Str → Str → Str
ext_from [] ext = ext
ext_from (c ∷ path) ext =
    ext_from path (if c == b'/' then [] else if c == b'.' then c ∷ [] else grown ext c)

abbrev pub path_ext : Str → Str
path_ext path = ext_from path []

-- The cases of `pb.Stream`'s type that the code sets.
pub data StreamType : Type 0 where
  no_type video audio image : StreamType

-- `pb.Stream`, as far as the code fills it.
pub record StreamProto : Type 0 where
  pub sd_hash : List ℕ
  pub name : Str
  pub size : ℕ
  pub source_hash : List ℕ
  pub media_type : Str
  pub stream_type : StreamType
  pub author : Str
  pub release_time : ℕ

-- What `stream.NewEncoder(file).Stream()` makes of a file.
pub record Encoded : Type 0 where
  pub blobs : List Blob
  pub sd_hash : List ℕ
  pub source_len : ℕ
  pub source_hash : List ℕ

-- `Details`, without the tags, which are not read.
pub record Details : Type 0 where
  pub title : Str
  pub description : Str
  pub author : Str
  pub release_time : ℕ

-- `pb.Claim`
pub record Claim : Type 0 where
  pub title : Str
  pub description : Str
  pub stream : StreamProto

-- `switch category`
unfoldable pub type_of : Str → StreamType
type_of category =
    if str_eq category (bytes "video")
    then video
    else if str_eq category (bytes "audio")
    then audio
    else if str_eq category (bytes "image")
    then image
    else no_type

-- The operations and data of a script, `txscript.NewScriptBuilder`.
pub data ScriptOp : Type 0 where
  op_nop6 op_2drop op_drop : ScriptOp
  add_data : List ℕ → ScriptOp
  add_ops : List ℕ → ScriptOp

-- `getClaimPayoutScript`, behind `txscript.PayToAddrScript`
unfoldable pub claim_payout_script : Str → List ℕ → Result (List ℕ) → Result (List ScriptOp)
claim_payout_script name value (err e) = err e
claim_payout_script name value (ok pkscript) =
    ok (op_nop6 ∷ add_data name ∷ add_data value ∷ op_2drop ∷ op_drop ∷ add_ops pkscript ∷ [])

module _ (encode_file : Str → Result Encoded) where
  abbrev pub stream_of : Str → Result Encoded → Result (List Blob × StreamProto)
  stream_of path (err e) = err e
  stream_of path (ok enc) =
      let (mime_type, category) = guess_mime_type (path_ext path) in
      ok (
        enc.blobs,
        record {
          sd_hash = enc.sd_hash;
          name = base path;
          size = enc.source_len;
          source_hash = enc.source_hash;
          media_type = mime_type;
          stream_type = type_of category;
          author = [];
          release_time = 0;
        },
      )

  -- `makeStream`
  unfoldable pub make_stream : Str → Result (List Blob × StreamProto)
  unfolding guess_mime_type type_of ext_from
  make_stream path = stream_of path (encode_file path)

module _ (encode : Message → List ℕ) (hash_hex : Blob → Str)
    (valid_for_send : Blob → Option Error) where
  -- The loop of `reflect`: the first blob is the sd blob.
  unfoldable pub reflect_loop : Bool → List Blob → Client.Act (Unit {0})
  reflect_loop is_sd [] c = (ok tt, c)
  reflect_loop is_sd (b ∷ blobs) c =
      Client.continue (Client.send encode hash_hex valid_for_send b is_sd c)
        (λ done. reflect_loop false blobs)

  -- `reflect`, with what `c.Connect` returns
  unfoldable pub reflect :
      Result Client.Client → List Blob → Result (Unit {0}) × Option Client.Client
  unfolding reflect_loop
  reflect (err e) blobs = (err e, none)
  reflect (ok c) blobs = let (r, c') = reflect_loop true blobs c in (r, some c')

  module _ (Address Tx TxId : Type 0) (decode_address : Str → Result Address)
      (base_tx : Address → Result Tx) (encode_file : Str → Result Encoded)
      (marshal : Claim → Result (List ℕ)) (amount : Result ℕ)
      (pay_to_addr_script : Address → Result (List ℕ))
      (script_bytes : List ScriptOp → Result (List ℕ)) (add_tx_out : Tx → ℕ → List ℕ → Tx)
      (sign : Tx → Result (Tx × Bool)) (connect : Str → Result Client.Client)
      (send_raw : Tx → Result TxId) where
    -- What a publication has done: the connection to the reflector, behind the upload, and the
    -- transactions that were handed to the chain.
    pub record Network : Type 0 where
      pub reflector : Option Client.Client
      pub chain : List Tx

    abbrev pub Publishes {ℓ} : Type ℓ → Type ℓ
    Publishes A = Network → Result A × Network

    abbrev pub continue {ℓ κ} :
        {A : Type ℓ} {B : Type κ} → Result A × Network → (A → Publishes B) → Result B × Network
    continue (ok a, n) f = f a n
    continue (err e, n) f = (err e, n)

    infixl 5 ◌>>=◌ ◌>>◌
    unfoldable pub ◌>>=◌ {ℓ κ} :
        {A : Type ℓ} {B : Type κ} → Publishes A → (A → Publishes B) → Publishes B
    ◌>>=◌ m f n = continue (m n) f

    abbrev pub ◌>>◌ {ℓ κ} : {A : Type ℓ} {B : Type κ} → Publishes A → Publishes B → Publishes B
    m >> k = m >>= λ _. k

    unfoldable pub lift {ℓ} : {A : Type ℓ} → Result A → Publishes A
    lift r n = (r, n)

    unfoldable pub require : Bool → Error → Publishes (Unit {0})
    require b e n = (if b then ok tt else err e, n)

    -- `addClaimToTx`: version 0, no signature of a channel, stands before the claim.
    unfoldable pub add_claim_to_tx : Tx → Claim → Str → Address → Publishes Tx
    unfolding lift claim_payout_script
    add_claim_to_tx tx claim name address = do
      claim_bytes ← lift (marshal claim)
      amt ← lift amount
      script ← lift (claim_payout_script name (0 ∷ claim_bytes) (pay_to_addr_script address))
      bytes_ ← lift (script_bytes script)
      lift (ok (add_tx_out tx amt bytes_))

    -- `err = reflect(st, reflectorAddress)`
    unfoldable pub upload : List Blob → Str → Publishes (Unit {0})
    unfolding reflect
    upload blobs address n =
        let (r, c) = reflect (connect address) blobs in (r, record n { reflector = c })

    -- `client.SendRawTransaction`
    unfoldable pub send_transaction : Tx → Publishes TxId
    send_transaction tx n = (send_raw tx, record n { chain = n.chain ++ (tx ∷ []) })

    -- `Publish`
    unfoldable pub publish : Str → Str → Str → Details → Str → Publishes (Tx × TxId)
    unfolding require lift make_stream add_claim_to_tx upload send_transaction
    publish path name address details reflector_address = do
      require (not (str_eq name [])) (error_text "name required")
      addr ← lift (decode_address address)
      tx ← lift (base_tx addr)
      made ← lift (make_stream encode_file path)
      with_claim ←
          add_claim_to_tx tx
            (record {
              title = details.title;
              description = details.description;
              stream = record made.1 {
                author = details.author;
                release_time = details.release_time;
              };
            })
            name addr
      signed ← lift (sign with_claim)
      require signed.1 (error_text "not all inputs for the tx could be signed")
      upload made.0 reflector_address
      tx_id ← send_transaction signed.0
      lift (ok (signed.0, tx_id))
