-- ===== src/Peer/Conversation/Requests.antt =====
-- `GetBlob` of a new connection to a peer server: the request, and what arrives of the answer.
use reflector_go.Peer.Client
use reflector_go.Peer.Client.{answers, panics, BlobResponse, Got}
use reflector_go.Peer.Store as PeerStore
use reflector_go.Peer.Conversation.{
  Upstream, BlobStore, CompositeRequest, CompositeResponse, Result, Error, Buffer, Blob, answer,
  handle_composite_request, blob_request, ok, seen, IsRequest, err, arriving, composite_answer,
  next_delivery, served_lem,
}
use reflector_go.Prelude.{List, ℕ, Bool, Option, Str, ◌≡◌, refl, ap, arith, none, some}
use reflector_go.Peer.Message.Frames.{IsMessage}
use reflector_go.Peer.Conversation.Replies.{decoded, IsSilent, read_of}

module _ (store : BlobStore) (digest : List ℕ → List ℕ) (valid_json : List ℕ → Bool)
    (decode : List ℕ → Option CompositeRequest) (encode : CompositeResponse → List ℕ)
    (encode_available encode_blob : Str → Result (List ℕ))
    (decode_available : List ℕ → Result (List Str)) (decode_blob : List ℕ → Result BlobResponse)
    (prefix : Str → Error → Error) (mentions : Error → Bool)
    (dial : Upstream store digest valid_json decode encode → Option Error) where
  abbrev pub Net : Type 0
  Net = Upstream store digest valid_json decode encode

  abbrev pub reply : List ℕ → Net → Buffer × Net
  reply = answer store digest valid_json decode encode

  -- `Get` of a store whose peer is the server.
  abbrev pub peer_get : Str → Net → Got × Net
  peer_get =
      PeerStore.get Net reply valid_json encode_available encode_blob decode_available decode_blob
        prefix dial mentions

  abbrev pub Conn : Type 0
  Conn =
      Client.Client Net reply valid_json encode_available encode_blob decode_available decode_blob
        prefix

  abbrev pub new_client : Net → Conn
  new_client =
      PeerStore.connected_client Net reply valid_json encode_available encode_blob decode_available
        decode_blob prefix dial mentions

  get_by-made :
      (o : Option Error) (h : Str) (n : Net)
      → o ≡ none
      → PeerStore.get_by Net reply valid_json encode_available encode_blob decode_available
          decode_blob prefix dial mentions
          (PeerStore.made_by Net reply valid_json encode_available encode_blob decode_available
            decode_blob prefix dial mentions o n)
          h
          n
        ≡ (
          PeerStore.not_found_of Net reply valid_json encode_available encode_blob decode_available
              decode_blob prefix dial mentions
              (Client.get_blob Net reply valid_json encode_available encode_blob decode_available
                decode_blob prefix h
                (new_client n)).0,
          (Client.get_blob Net reply valid_json encode_available encode_blob decode_available
              decode_blob prefix h
              (new_client n)).1.net,
        )
  get_by-made none h n e = refl
  get_by-made (some x) h n e = cc

  -- `Get` of a store that reaches the server is `GetBlob` of a new client.
  pub peer_get_lem :
      (h : Str) (n : Net)
      → dial n ≡ none
      → (peer_get h n).0
        ≡ PeerStore.not_found_of Net reply valid_json encode_available encode_blob decode_available
            decode_blob prefix dial mentions
            (Client.get_blob Net reply valid_json encode_available encode_blob decode_available
              decode_blob prefix h
              (new_client n)).0
  unfolding PeerStore.get PeerStore.get_client
  peer_get_lem h n e = ap (λ (x : Got × Net). x.0) (get_by-made (dial n) h n e)

  -- The client can read what the server answers to a request for the blob.
  abbrev pub IsUnderstood : Str → store.State → Type 0
  IsUnderstood h s =
      (p : CompositeResponse) (b : Blob)
      → (handle_composite_request store digest (blob_request h) s).0 ≡ ok (p, b)
      → IsMessage valid_json decode_blob (encode p) (seen p.incoming_blob)

  module _ (plain : IsSilent mentions) where
    abbrev pub heard_of : Buffer → Result BlobResponse × List ℕ
    heard_of = read_of mentions plain valid_json decode_blob

    decoded-same :
        (r : Result (List ℕ))
        → Client.decoded Net reply valid_json encode_available encode_blob decode_available
            decode_blob prefix decode_blob r
          ≡ decoded mentions plain valid_json decode_blob r
    decoded-same (ok m) = refl
    decoded-same (err e) = refl

    -- The request is written, and the response read from what arrives.
    asked :
        (h : Str) (n : Net)
        (q : IsRequest store digest valid_json decode encode (encode_blob h) (blob_request h))
        → let (buf, n') = reply q.run n in
          Client.ask_blob Net reply valid_json encode_available encode_blob decode_available
            decode_blob prefix h
            (new_client n)
          ≡ (
            (heard_of buf).0,
            record (new_client n') { buffer = record buf { input = (heard_of buf).1 } },
          )
    unfolding Client.ask_blob Client.◌>>=◌ Client.need_connected Client.lift Client.write
        Client.read
    asked h n q = rw (q.sent, decoded-same) refl

    -- `GetBlob` behind the reading of a response.
    abbrev pub after_result : Str → Buffer → Net → Result BlobResponse × List ℕ → Got × Conn
    after_result h buf n x =
        Client.after_response Net reply valid_json encode_available encode_blob decode_available
          decode_blob prefix h (x.0, record (new_client n) { buffer = record buf { input = x.1 } })

    abbrev pub after_reply : Str → Buffer → Net → Got × Conn
    after_reply h buf n = after_result h buf n (heard_of buf)

    -- The server's store and the bytes that arrive of its answer.
    abbrev pub outcome : Str → Net → Buffer × store.State
    outcome h n =
        arriving store digest valid_json decode encode
          (next_delivery store digest valid_json decode encode n.deliveries).0
          (composite_answer store digest valid_json decode encode
            (handle_composite_request store digest (blob_request h) n.server))
          n.server

    abbrev pub later : Str → Net → Net
    later h n = record {
      server = (outcome h n).1;
      deliveries = (next_delivery store digest valid_json decode encode n.deliveries).1;
    }

    reply_lem :
        (h : Str) (n : Net)
        (q : IsRequest store digest valid_json decode encode (encode_blob h) (blob_request h))
        → reply q.run n ≡ ((outcome h n).0, later h n)
    reply_lem h n q =
        ap
          (λ (x : List ℕ × store.State).
            let (buf, s) =
              arriving store digest valid_json decode encode
                (next_delivery store digest valid_json decode encode n.deliveries).0 x n.server in
            let m : Net = record {
              server = s;
              deliveries = (next_delivery store digest valid_json decode encode n.deliveries).1;
            } in
            (buf, m))
          (served_lem store digest valid_json decode encode q.run (blob_request h) n.server q.frame
            q.decodes)

    -- `GetBlob` on a new connection.
    pub get_blob_lem :
        (h : Str) (n : Net)
        (q : IsRequest store digest valid_json decode encode (encode_blob h) (blob_request h))
        → Client.get_blob Net reply valid_json encode_available encode_blob decode_available
            decode_blob prefix h
            (new_client n)
          ≡ after_reply h (outcome h n).0 (later h n)
    unfolding Client.get_blob
    get_blob_lem h n q =
        rw (asked h n q) (ap (λ (x : Buffer × Net). after_reply h x.0 x.1) (reply_lem h n q))

    check-net :
        (h : Str) (resp : BlobResponse) (c : Conn)
        → (Client.check_response Net reply valid_json encode_available encode_blob decode_available
            decode_blob prefix h resp c).1.net
          ≡ c.net
    unfolding Client.check_response Client.receive_blob Client.read_raw_blob
    check-net h resp c = ground arith

    pub after-net : (h : Str) (buf : Buffer) (n : Net) → (after_reply h buf n).1.net ≡ n
    after-net h buf n = after_net_of (heard_of buf)
      where
        after_net_of : (x : Result BlobResponse × List ℕ) → (after_result h buf n x).1.net ≡ n
        after_net_of (ok resp, rest) = check-net h resp _
        after_net_of (err e, rest) = refl
