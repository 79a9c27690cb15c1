-- ===== src/Peer/Conversation/Endings.antt =====
-- How `GetBlob` ends where the server has the blob: by how much of the answer arrives.
use reflector_go.Peer.Client
use reflector_go.Peer.Client.{answers, panics, BlobResponse, Got}
use reflector_go.Peer.Store as PeerStore
use reflector_go.Peer.Conversation.{
  Upstream, arrives, cut, BlobStore, CompositeRequest, CompositeResponse, Result, Error, Buffer,
  Blob, IsRequest, ok, blob_request, seen, incoming, Delivery, arriving, err, next_delivery, answer,
  read_next_message-whole, broken_by,
}
use reflector_go.Peer.Conversation.Requests
use reflector_go.Peer.Server.{handle_composite_request, available, incoming_blob, answer_blob}
use reflector_go.Reflector.Hash.{blob_hash}
use reflector_go.Prelude.{
  List, ℕ, Bool, Option, Str, str_eq, [], length, ◌≡◌, none, ◌∷◌, ◌<◌, refl, leb, ◌≢◌, arith, true,
  ap, ltb, ◌==◌, str_eq_refl, str_eq_ne, take-length, false, ◌++◌, ◌≤◌, ◌∙◌, ◌+◌, take, ◌-◌,
  length-take,
}
use reflector_go.Peer.Conversation.Replies.{IsSilent, read_of, take-append, take_all}
use reflector_go.Peer.Server.{rate_accepted, available, incoming_blob, blob_hash_hex_length}
use reflector_go.Peer.Message.Frames.{IsMessage}
use reflector_go.Shared.{BlobTrace}

module _ (store : BlobStore) (digest : List ℕ → List ℕ) (valid_json : List ℕ → Bool)
    (decode : List ℕ → Option CompositeRequest) (encode : CompositeResponse → List ℕ)
    (encode_available encode_blob : Str → Result (List ℕ))
    (decode_available : List ℕ → Result (List Str)) (decode_blob : List ℕ → Result BlobResponse)
    (prefix : Str → Error → Error) (mentions : Error → Bool)
    (dial : Upstream store digest valid_json decode encode → Option Error)
    (plain : IsSilent mentions) where
  abbrev Net : Type 0
  Net = Upstream store digest valid_json decode encode

  -- `Get` of a store whose peer is the server.
  abbrev peer_get : Str → Net → Got × Net
  peer_get =
      Requests.peer_get store digest valid_json decode encode encode_available encode_blob
        decode_available decode_blob prefix mentions dial

  abbrev Conn : Type 0
  Conn =
      Requests.Conn store digest valid_json decode encode encode_available encode_blob
        decode_available decode_blob prefix mentions dial

  abbrev after_result : Str → Buffer → Net → Result BlobResponse × List ℕ → Got × Conn
  after_result =
      Requests.after_result store digest valid_json decode encode encode_available encode_blob
        decode_available decode_blob prefix mentions dial plain

  -- The response of a server that has the blob.
  abbrev pub response : Str → Blob → CompositeResponse
  response h b = record {
    available_blobs = [];
    blob_data_payment_rate = rate_accepted;
    incoming_blob = incoming h (length b);
  }

  -- A server that has the blob, and a request for it that both ends understand.
  pub record IsServing (h : Str) (b : Blob) (n : Net) : Type 0 where
    pub request : IsRequest store digest valid_json decode encode (encode_blob h) (blob_request h)
    pub reply :
        IsMessage valid_json decode_blob (encode (response h b)) (seen (incoming h (length b)))
    pub made : dial n ≡ none
    pub has : (store.get h n.server).0 ≡ ok b
    pub named : length h ≡ blob_hash_hex_length
    pub hashed : blob_hash digest b ≡ h
    pub some_bytes : 0 < length b

  answer_blob-ok :
      (b : Blob) (r : Result Blob × BlobTrace × store.State)
      → r.0 ≡ ok b
      → answer_blob store digest r ≡ (ok (incoming (blob_hash digest b) (length b), b), r.2)
  answer_blob-ok b (ok c, trace, s) e = ground arith
  answer_blob-ok b (err x, trace, s) e = cc

  incoming_blob-ok :
      (h : Str) (b : Blob) (n : Net)
      → IsServing h b n
      → incoming_blob store digest h n.server
        ≡ (ok (incoming h (length b), b), (store.get h n.server).2)
  unfolding incoming_blob
  incoming_blob-ok h b n v =
      let asked : h ≢ [] = λ e. absurd (omega (arith, ap length e, v.named)) in
      let fits : (length h == blob_hash_hex_length) ≡ true = ground (arith, v.named) in
      rw (str_eq_ne h [] asked, fits, answer_blob-ok b (store.get h n.server) v.has, v.hashed) refl

  composite_lem :
      (h : Str) (b : Blob) (n : Net)
      → IsServing h b n
      → handle_composite_request store digest (blob_request h) n.server
        ≡ (ok (response h b, b), (store.get h n.server).2)
  unfolding handle_composite_request available
  composite_lem h b n v = rw (incoming_blob-ok h b n v) refl

  -- What is left of the answer behind the response decides.
  ended :
      (h : Str) (b rest : Blob) (buf : Buffer) (n m : Net)
      → IsServing h b m
      → let g = (after_result h buf n (ok (seen (incoming h (length b))), rest)).0 in
        (rest ≡ b → g ≡ answers (ok b) (Client.name_tcp ∷ Client.name_tcp ∷ []))
        × (length rest < length b → g ≡ panics)
  unfolding Client.check_response Client.receive_blob Client.read_raw_blob Client.read_full str_eq
  ended h b rest buf n m v =
      let long : leb 8 (length h) ≡ true = ground (arith, v.named) in
      let sized : ltb 0 (length b) ≡ true = ground (arith, v.some_bytes) in
      let full : leb (length b) (length b) ≡ true = ground arith in
      (
        λ e. rw (str_eq_refl h, long, sized, e, full, take-length b) refl,
        λ l.
            let short : leb (length b) (length rest) ≡ false = ground arith in
            rw (str_eq_refl h, long, sized, short) refl,
      )

  abbrev heard_of : Buffer → Result BlobResponse × List ℕ
  heard_of = read_of mentions plain valid_json decode_blob

  -- How the next request fares.
  abbrev pub next_of : Net → Delivery
  next_of n = (next_delivery store digest valid_json decode encode n.deliveries).0

  abbrev not_found_of : Got → Got
  not_found_of =
      PeerStore.not_found_of Net (answer store digest valid_json decode encode) valid_json
        encode_available encode_blob decode_available decode_blob prefix dial mentions

  -- `Get` reads what arrives of the response and the blob.
  got :
      (h : Str) (b : Blob) (n : Net) (d : Delivery) (buf : Buffer)
      → IsServing h b n
      → next_of n ≡ d
      → (arriving store digest valid_json decode encode d
          (encode (response h b) ++ b, (store.get h n.server).2)
          n.server).0
        ≡ buf
      → (m : Net) × ((peer_get h n).0 ≡ not_found_of (after_result h buf m (heard_of buf)).0)
  got h b n d buf v e f =
      let m =
        Requests.later store digest valid_json decode encode encode_available encode_blob
          decode_available decode_blob prefix mentions dial plain h n in
      let same : (Requests.outcome store digest valid_json decode encode encode_available
            encode_blob decode_available decode_blob prefix mentions dial plain h n).0
          ≡ buf =
        rw (composite_lem h b n v, e) f in
      (
        m,
        Requests.peer_get_lem store digest valid_json decode encode encode_available encode_blob
              decode_available decode_blob prefix mentions dial h n v.made
            ∙ ap (λ (x : Got × Conn). not_found_of x.0)
                (Requests.get_blob_lem store digest valid_json decode encode encode_available
                  encode_blob decode_available decode_blob prefix mentions dial plain h n v.request)
            ∙ ap (λ (x : Buffer). not_found_of (after_result h x m (heard_of x)).0) same,
      )

  -- Behind the whole response, `GetBlob` reads the blob from what is left.
  heard_rest :
      (h : Str) (b rest : Blob) (n : Net) (e : Option Error)
      → IsServing h b n
      → heard_of (record { input = encode (response h b) ++ rest; ending = e })
        ≡ (ok (seen (incoming h (length b))), rest)
  heard_rest h b rest n e v =
      rw
        (
          read_next_message-whole valid_json (encode (response h b)) v.reply.frame rest e,
          v.reply.decodes,
        )
        refl

  -- If the server has a blob with the hash that is asked for and all of its answer arrives, `Get`
  -- returns the blob.
  pub peer_get_whole :
      (h : Str) (b : Blob) (n : Net)
      → IsServing h b n
      → next_of n ≡ arrives
      → (peer_get h n).0 ≡ answers (ok b) (Client.name_tcp ∷ Client.name_tcp ∷ [])
  peer_get_whole h b n v e =
      let buf : Buffer = record { input = encode (response h b) ++ b; ending = none } in
      let (m, g) = got h b n arrives buf v e refl in
      g
      ∙ ap (λ (x : Result BlobResponse × List ℕ). not_found_of (after_result h buf m x).0)
          (heard_rest h b b n none v)
      ∙ ap not_found_of ((ended h b b buf m n v).0 refl)

  -- If the connection ends or breaks within the blob, behind the whole response, `Get` panics: the
  -- server sends no trace, and the client reads through the trace that is not there.
  pub peer_get_cut :
      (h : Str) (b : Blob) (n : Net) (k : ℕ) (e : Option ℕ)
      → IsServing h b n
      → next_of n ≡ cut k e
      → length (encode (response h b)) ≤ k
      → k < length (encode (response h b)) + length b
      → (peer_get h n).0 ≡ panics
  peer_get_cut h b n k e v d above below =
      let rest = take (k - length (encode (response h b))) b in
      let buf : Buffer = record { input = encode (response h b) ++ rest; ending = broken_by e } in
      let (m, g) = got h b n (cut k e) buf v d (
        rw (take-append k (encode (response h b)) b, take_all k (encode (response h b)) above)
          refl) in
      g
      ∙ ap (λ (x : Result BlobResponse × List ℕ). not_found_of (after_result h buf m x).0)
          (heard_rest h b rest n (broken_by e) v)
      ∙ ap not_found_of (
          (ended h b rest buf m n v).1
            (omega (arith, length-take (k - length (encode (response h b))) b)))
