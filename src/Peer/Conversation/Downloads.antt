-- ===== src/Peer/Conversation/Downloads.antt =====
-- `Get` of the peer store over a peer server.
use reflector_go.Peer.Client.{answers, panics, BlobResponse, Got}
use reflector_go.Peer.Store as PeerStore
use reflector_go.Peer.Conversation.{
  arrives, cut, lost, Upstream, BlobStore, CompositeRequest, CompositeResponse, Result, Error,
  Buffer, Blob, handle_composite_request, blob_request, ok, seen, IsRequest, err, Delivery,
  arriving, composite_answer, cut, lost, broken_by, next_delivery,
}
use reflector_go.Prelude.{
  List, ℕ, Bool, Option, Str, ◌≡◌, refl, take, [], suc, Bool-cases, none, zero, inl, true, inr,
  false, sym, ◌∙◌, some, subst, bytes,
}
use reflector_go.Peer.Message.Frames.{IsMessage}
use reflector_go.Peer.Conversation.Replies.{
  IsSilent, all-IsHeard, IsHeard, cut-IsHeard, silence, IsOther,
}
use reflector_go.Peer.Conversation.Gets.{IsPrefix, IsSaid, IsGot, heard-IsSaid}
use reflector_go.Store.{Spec, Implements, IsRead}
use reflector_go.Peer.Server.Answers.{
  IsAnswer, handle_composite_request-IsAnswer, handle_composite_request-IsRead,
}
use reflector_go.Peer.Conversation.Requests

module _ (store : BlobStore) (digest : List ℕ → List ℕ) (valid_json : List ℕ → Bool)
    (decode : List ℕ → Option CompositeRequest) (encode : CompositeResponse → List ℕ)
    (encode_available encode_blob : Str → Result (List ℕ))
    (decode_available : List ℕ → Result (List Str)) (decode_blob : List ℕ → Result BlobResponse)
    (prefix : Str → Error → Error) (mentions : Error → Bool)
    (dial : Upstream store digest valid_json decode encode → Option Error) where
  abbrev Net : Type 0
  Net = Upstream store digest valid_json decode encode

  abbrev reply : List ℕ → Net → Buffer × Net
  reply =
      Requests.reply store digest valid_json decode encode encode_available encode_blob
        decode_available decode_blob prefix mentions dial

  abbrev Conn : Type 0
  Conn =
      Requests.Conn store digest valid_json decode encode encode_available encode_blob
        decode_available decode_blob prefix mentions dial

  abbrev new_client : Net → Conn
  new_client =
      Requests.new_client store digest valid_json decode encode encode_available encode_blob
        decode_available decode_blob prefix mentions dial

  abbrev peer_get : Str → Net → Got × Net
  peer_get =
      Requests.peer_get store digest valid_json decode encode encode_available encode_blob
        decode_available decode_blob prefix mentions dial

  abbrev IsUnderstood : Str → store.State → Type 0
  IsUnderstood =
      Requests.IsUnderstood store digest valid_json decode encode encode_available encode_blob
        decode_available decode_blob prefix mentions dial

  module _ (plain : IsSilent mentions) where
    abbrev heard_of : Buffer → Result BlobResponse × List ℕ
    heard_of =
        Requests.heard_of store digest valid_json decode encode encode_available encode_blob
          decode_available decode_blob prefix mentions dial plain

    abbrev after_result : Str → Buffer → Net → Result BlobResponse × List ℕ → Got × Conn
    after_result =
        Requests.after_result store digest valid_json decode encode encode_available encode_blob
          decode_available decode_blob prefix mentions dial plain

    abbrev after_reply : Str → Buffer → Net → Got × Conn
    after_reply =
        Requests.after_reply store digest valid_json decode encode encode_available encode_blob
          decode_available decode_blob prefix mentions dial plain

    abbrev outcome : Str → Net → Buffer × store.State
    outcome =
        Requests.outcome store digest valid_json decode encode encode_available encode_blob
          decode_available decode_blob prefix mentions dial plain

    abbrev later : Str → Net → Net
    later =
        Requests.later store digest valid_json decode encode encode_available encode_blob
          decode_available decode_blob prefix mentions dial plain

    module _ (prefixes : IsPrefix mentions prefix)
        (unconnected : (n : Net) (e : Error)
          → dial n ≡ some e
          → IsOther mentions (prefix (bytes "connection error") e))
        (A : Spec store) where
      -- The server's answer is one that the client can read, and it is right.
      abbrev IsRight : Option Blob → Str → Result (CompositeResponse × Blob) × store.State → Type 0
      IsRight held h r =
          (p : CompositeResponse) (b : Blob)
          → r.0 ≡ ok (p, b)
          → IsMessage valid_json decode_blob (encode p) (seen p.incoming_blob)
            × IsAnswer A digest held h (p.incoming_blob, b)

      said :
          (held : Option Blob) (h : Str) (p : CompositeResponse) (b : Blob) (buf : Buffer) (n : Net)
          → IsAnswer A digest held h (p.incoming_blob, b)
          → IsHeard mentions plain valid_json decode_blob (seen p.incoming_blob) b (heard_of buf)
          → IsSaid mentions held (after_reply h buf n).0
      said held h p b buf n v x =
          heard-IsSaid store digest valid_json decode encode encode_available encode_blob
            decode_available decode_blob prefix mentions plain prefixes A held h p.incoming_blob b
            buf n v x

      unsaid :
          (held : Option Blob) (h : Str) (e : Option ℕ) (n : Net)
          → IsSaid mentions held (after_reply h (record { input = []; ending = broken_by e }) n).0
      unsaid held h e n =
          let (x, (silent, other), same) = silence mentions plain valid_json decode_blob e in
          let buf : Buffer = record { input = []; ending = broken_by e } in
          subst (λ r. IsSaid mentions held (after_result h buf n r).0) (sym same)
            (λ m. let f : true ≡ false = sym m ∙ silent in cc, λ f. absurd (other f))

      take_none : (k : ℕ) → take {A = ℕ} k [] ≡ []
      take_none zero = refl
      take_none (suc k) = refl

      -- The client's result for what arrives of an answer.
      arriving-IsSaid :
          (held : Option Blob) (h : Str) (d : Delivery)
          (r : Result (CompositeResponse × Blob) × store.State) (s : store.State) (n : Net)
          → IsRight held h r
          → let buf =
              (arriving store digest valid_json decode encode d
                (composite_answer store digest valid_json decode encode r)
                s).0 in
            IsSaid mentions held (after_reply h buf n).0
      arriving-IsSaid held h arrives (ok (p, b), t) s n f =
          let (m, v) = f p b refl in
          said held h p b _ n v (
            all-IsHeard mentions plain valid_json decode_blob (seen p.incoming_blob) (encode p) b m)
      arriving-IsSaid held h (cut k e) (ok (p, b), t) s n f =
          let (m, v) = f p b refl in
          said held h p b _ n v (
            cut-IsHeard mentions plain valid_json decode_blob (seen p.incoming_blob) (encode p) b k
              e m)
      arriving-IsSaid held h (lost e) r s n f = unsaid held h e n
      arriving-IsSaid held h arrives (err x, t) s n f = unsaid held h none n
      arriving-IsSaid held h (cut k e) (err x, t) s n f = rw (take_none k) (unsaid held h e n)

      -- What a call does to the server's store.
      arriving-IsRead :
          (d : Delivery) (r : Result (CompositeResponse × Blob) × store.State) (s : store.State)
          → A.IsValid s
          → IsRead A s r.1
          → IsRead A s
              (arriving store digest valid_json decode encode d
                (composite_answer store digest valid_json decode encode r)
                s).1
      arriving-IsRead arrives (ok (p, b), t) s v w = w
      arriving-IsRead arrives (err x, t) s v w = w
      arriving-IsRead (cut k e) (ok (p, b), t) s v w = w
      arriving-IsRead (cut k e) (err x, t) s v w = w
      arriving-IsRead (lost e) r s v w = record { valid = v; same = λ j. refl }

      not_found_of-IsGot :
          (held : Option Blob) (g : Got)
          → IsSaid mentions held g
          → IsGot held (
              PeerStore.not_found_of Net reply valid_json encode_available encode_blob
                decode_available decode_blob prefix dial mentions g)
      not_found_of-IsGot held (answers (ok b) trace) v = v
      not_found_of-IsGot held panics v = tt
      not_found_of-IsGot held (answers (err e) trace) (missing, other) =
          elim (Bool-cases (mentions e)) [
            | inl yes_ ↦ rw yes_ (λ f. missing yes_)
            | inr no_ ↦ rw no_ other
          ]

      module _ (I : Implements A) where
        -- The client's result for the answer that the server has made, as far as it arrives.
        outcome-IsGot :
            (h : Str) (n : Net)
            → IsUnderstood h n.server
            → A.IsValid n.server
            → IsGot (A.view n.server h) (
                PeerStore.not_found_of Net reply valid_json encode_available encode_blob
                  decode_available decode_blob prefix dial mentions
                  (after_reply h (outcome h n).0 (later h n)).0)
        outcome-IsGot h n u v = not_found_of-IsGot (A.view n.server h) _ (
            arriving-IsSaid (A.view n.server h) h
              (next_delivery store digest valid_json decode encode n.deliveries).0
              (handle_composite_request store digest (blob_request h) n.server) n.server _
              (λ p b e. (
                u p b e,
                (handle_composite_request-IsAnswer A digest I (blob_request h) n.server p b v e).2,
              )))

        outcome-IsRead :
            (h : Str) (n : Net)
            → A.IsValid n.server
            → IsRead A n.server (after_reply h (outcome h n).0 (later h n)).1.net.server
        outcome-IsRead h n v =
            subst (λ (m : Net). IsRead A n.server m.server)
              (sym (
                Requests.after-net store digest valid_json decode encode encode_available
                  encode_blob decode_available decode_blob prefix mentions dial plain h
                  (outcome h n).0 (later h n)))
              (arriving-IsRead (next_delivery store digest valid_json decode encode n.deliveries).0
                (handle_composite_request store digest (blob_request h) n.server) n.server v
                (handle_composite_request-IsRead A digest I (blob_request h) n.server v))

        dialed :
            (o : Option Error) (h : Str) (n : Net)
            → dial n ≡ o
            → IsRequest store digest valid_json decode encode (encode_blob h) (blob_request h)
            → IsUnderstood h n.server
            → A.IsValid n.server
            → let (g, n') =
                PeerStore.get_by Net reply valid_json encode_available encode_blob decode_available
                  decode_blob prefix dial mentions
                  (PeerStore.made_by Net reply valid_json encode_available encode_blob
                    decode_available decode_blob prefix dial mentions o n)
                  h
                  n in
              IsGot (A.view n.server h) g × IsRead A n.server n'.server
        dialed (some e) h n o q u v =
            (λ f. absurd ((unconnected n e o).1 f), record { valid = v; same = λ j. refl })
        dialed none h n o q u v =
            subst
              (λ (x : Got × Conn).
                IsGot (A.view n.server h) (
                  PeerStore.not_found_of Net reply valid_json encode_available encode_blob
                    decode_available decode_blob prefix dial mentions x.0)
                × IsRead A n.server x.1.net.server)
              (sym (
                Requests.get_blob_lem store digest valid_json decode encode encode_available
                  encode_blob decode_available decode_blob prefix mentions dial plain h n q))
              (outcome-IsGot h n u v, outcome-IsRead h n v)

        -- If the server's store keeps the contract and the client can read what the server answers, then
        -- whatever arrives of the answer: a blob that `Get` returns is the one that the server's store
        -- holds, "not found" is said only if it holds none, and the call changes nothing that it holds.
        pub peer_get-IsGot :
            (h : Str) (n : Net)
            → IsRequest store digest valid_json decode encode (encode_blob h) (blob_request h)
            → IsUnderstood h n.server
            → A.IsValid n.server
            → IsGot (A.view n.server h) (peer_get h n).0 × IsRead A n.server (peer_get h n).1.server
        unfolding PeerStore.get PeerStore.get_client
        peer_get-IsGot h n q u v = dialed (dial n) h n refl q u v
