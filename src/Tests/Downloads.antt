-- ===== src/Tests/Downloads.antt =====
-- The peer store over a peer server with a memory store, and the download of a stream.
use reflector_go.Peer.Client.{answers, panics, Got, BlobResponse}
use reflector_go.Store.Mem
use reflector_go.Reflector.Hash.{blob_hash}
use reflector_go.Streams.{streams, get_stream}
use reflector_go.Streams.Parts.{AreHeld, get_stream-IsWhole}
use reflector_go.Peer.Conversation.{Upstream, cut, blob_request, seen, IsRequest, Delivery}
use reflector_go.Peer.Conversation.Requests
use reflector_go.Peer.Conversation.Downloads
use reflector_go.Peer.Conversation.Endings
use reflector_go.Peer.Conversation.Endings.{IsServing}
use reflector_go.Prelude.{
  List, Option, Str, [], none, str_eq, ℕ, bytes, ◌≡◌, ◌∷◌, Bool, suc, refl, some, false, ◌++◌,
  arith, length, zero, ◌==◌, if◌then◌else◌, true, ◌<◌, ap, length-append, subst, sym, ◌+◌, map,
}
use reflector_go.Store.{Blob, IsRead}
use reflector_go.Store.Mem.{MemStore, mem_store, mem_spec, mem_store-Implements}
use reflector_go.Peer.Server.{
  CompositeResponse, handle_composite_request, CompositeRequest, incoming, rate_accepted,
}
use reflector_go.Errors.{Error, Result, message, ok, external, err, blob_not_found, not_implemented}
use reflector_go.Peer.Message.Frames.{IsFrame, IsMessage}
use reflector_go.Peer.Conversation.Replies.{IsSilent}
use reflector_go.Peer.Conversation.Gets.{IsPrefix, IsGot}
use reflector_go.Prelude.Dict.{lookup}
use reflector_go.Shared.{BlobTrace}

abbrev copies : ℕ → ℕ → Str
copies zero c = []
copies (suc n) c = c ∷ copies n c

-- A digest whose hex text has 96 times the letter a.
abbrev key : Str
key = copies 96 b'a'

abbrev digest : List ℕ → List ℕ
digest b = copies 48 0xaa

abbrev blob : Blob
blob = 7 ∷ 8 ∷ []

abbrev AnyBlob : Str → Blob → Type 0
AnyBlob h b = Unit

abbrev holding : MemStore
holding = record { blobs = (key, blob) ∷ [] }

-- Messages of three bytes.
abbrev valid_json : List ℕ → Bool
valid_json m = length m == 3

abbrev decode : List ℕ → Option CompositeRequest
decode m = some (blob_request key)

abbrev encode : CompositeResponse → List ℕ
encode r = bytes "{2}"

abbrev encode_request : Str → Result (List ℕ)
encode_request h = ok (bytes "{1}")

abbrev decode_available : List ℕ → Result (List Str)
decode_available m = ok []

abbrev decode_blob : List ℕ → Result BlobResponse
decode_blob m = if length m == 3 then ok (seen (incoming key 2)) else err (external 0)

abbrev prefix : Str → Error → Error
prefix p e = e

abbrev mentions : Error → Bool
mentions (message t) = str_eq t (bytes "blob not found")
mentions blob_not_found = false
mentions not_implemented = false
mentions (external n) = false

abbrev Net : Type 0
Net = Upstream mem_store digest valid_json decode encode

abbrev dial : Net → Option Error
dial n = none

abbrev net : List Delivery → Net
net deliveries = record { server = holding; deliveries = deliveries }

three-IsFrame : (a b : ℕ) → IsFrame valid_json (a ∷ b ∷ b'}' ∷ [])
three-IsFrame a b = record {
  closes = closes;
  some_bytes = omega arith;
  valid = refl;
  fits = omega arith;
  early = early;
}
  where
    closes : (p : List ℕ) (c : ℕ) → p ++ (c ∷ []) ≡ a ∷ b ∷ b'}' ∷ [] → (c == b'}') ≡ true
    closes [] c e = absurd (omega (arith, ap length e))
    closes (x ∷ []) c e = absurd (omega (arith, ap length e))
    closes (x ∷ y ∷ []) c e = ground arith
    closes (x ∷ y ∷ z ∷ p) c e = absurd (omega (arith, ap length e, length-append p (c ∷ [])))

    early : (p r : List ℕ) → p ++ r ≡ a ∷ b ∷ b'}' ∷ [] → 0 < length r → valid_json p ≡ false
    early [] r e l = refl
    early (x ∷ []) r e l = refl
    early (x ∷ y ∷ []) r e l = refl
    early (x ∷ y ∷ z ∷ p) r e l = absurd (omega (arith, ap length e, length-append p r))

three-IsMessage :
    (a b : ℕ) → IsMessage valid_json decode_blob (a ∷ b ∷ b'}' ∷ []) (seen (incoming key 2))
three-IsMessage a b = record { frame = three-IsFrame a b; decodes = refl; parts = parts }
  where
    parts :
        (p r : List ℕ)
        → p ++ r ≡ a ∷ b ∷ b'}' ∷ []
        → 0 < length r
        → (n : ℕ) × (decode_blob p ≡ err (external n))
    parts [] r e l = (0, refl)
    parts (x ∷ []) r e l = (0, refl)
    parts (x ∷ y ∷ []) r e l = (0, refl)
    parts (x ∷ y ∷ z ∷ p) r e l = absurd (omega (arith, ap length e, length-append p r))

abbrev a_request :
    IsRequest mem_store digest valid_json decode encode (encode_request key) (blob_request key)
a_request = record {
  run = bytes "{1}";
  sent = refl;
  frame = three-IsFrame b'{' b'1';
  decodes = refl;
}

silent : IsSilent mentions
unfolding str_eq
silent = record { system = λ n. refl; ended = refl; cut_short = refl; too_large = refl }

prefixed : IsPrefix mentions prefix
unfolding str_eq
prefixed = record {
  missing = λ p. refl;
  mismatch = λ p. (refl, λ e. cc);
  no_length = λ p. (refl, λ e. cc);
}

server_answer : handle_composite_request mem_store digest (blob_request key) holding ≡ (
  ok (
    record {
      available_blobs = [];
      blob_data_payment_rate = rate_accepted;
      incoming_blob = incoming key 2;
    },
    blob,
  ),
  holding,
)
unfolding handle_composite_request Mem.get lookup str_eq
server_answer = refl

serving :
    (deliveries : List Delivery)
    → IsServing mem_store digest valid_json decode encode encode_request encode_request
        decode_available decode_blob prefix mentions dial silent key blob
        (net deliveries)
unfolding Mem.get lookup str_eq blob_hash
serving deliveries = record {
  request = a_request;
  reply = three-IsMessage b'{' b'2';
  made = refl;
  has = refl;
  named = refl;
  hashed = refl;
  some_bytes = omega arith;
}

abbrev get : Net → Got × Net
get n =
    Requests.peer_get mem_store digest valid_json decode encode encode_request encode_request
      decode_available decode_blob prefix mentions dial key n

peer_get_whole_example : (get (net [])).0 ≡ answers (ok blob) (bytes "tcp" ∷ bytes "tcp" ∷ [])
peer_get_whole_example =
    Endings.peer_get_whole mem_store digest valid_json decode encode encode_request encode_request
      decode_available decode_blob prefix mentions dial silent key blob (net []) (serving []) refl

peer_get_cut_example : (get (net (cut 4 none ∷ []))).0 ≡ panics
peer_get_cut_example =
    Endings.peer_get_cut mem_store digest valid_json decode encode encode_request encode_request
      decode_available decode_blob prefix mentions dial silent key blob (net (cut 4 none ∷ [])) 4
      none (serving (cut 4 none ∷ [])) refl (omega arith) (omega arith)

understood :
    Requests.IsUnderstood mem_store digest valid_json decode encode encode_request encode_request
      decode_available decode_blob prefix mentions dial key holding
understood p b e =
    let there : p.incoming_blob ≡ incoming key 2 = ground (arith, server_answer) in
    subst (λ i. IsMessage valid_json decode_blob (bytes "{2}") (seen i)) (sym there)
      (three-IsMessage b'{' b'2')

peer_get-IsGot_example :
    IsGot (lookup key holding.blobs) (get (net (cut 1 (some 5) ∷ []))).0
    × IsRead (mem_spec AnyBlob) holding (get (net (cut 1 (some 5) ∷ []))).1.server
peer_get-IsGot_example =
    Downloads.peer_get-IsGot mem_store digest valid_json decode encode encode_request encode_request
      decode_available decode_blob prefix mentions dial silent prefixed (λ n e f. cc)
      (mem_spec AnyBlob) (mem_store-Implements AnyBlob) key (net (cut 1 (some 5) ∷ [])) a_request
      understood (λ h b e. tt)

-- An sd blob whose bytes are the hashes of its infos.
abbrev infos : Blob → Result (List Str)
infos b = ok (map (λ c. c ∷ []) b)

abbrev stream_blobs : Str → Option Blob
stream_blobs h =
    if str_eq h (bytes "s")
    then some (1 ∷ 2 ∷ 0 ∷ [])
    else if str_eq h (1 ∷ [])
    then some (11 ∷ [])
    else if str_eq h (2 ∷ [])
    then some (12 ∷ [])
    else none

abbrev get_held : Str → ℕ → Got × ℕ
get_held h n = elim (stream_blobs h) [
  | some b ↦ (answers (ok b) [], n + 1)
  | none ↦ (answers (err blob_not_found) [], n + 1)
]

held_serves :
    (h : Str) (n : ℕ) (b : Blob)
    → Unit {0}
    → stream_blobs h ≡ some b
    → (t : BlobTrace) × ((get_held h n).0 ≡ answers (ok b) t) × Unit {0}
held_serves h n b v e = ([], ground arith, tt)

get_stream-IsWhole_example :
    (blobs : List Blob) × ((get_stream ℕ get_held infos (bytes "s") 0).0 ≡ streams blobs)
    × AreHeld stream_blobs (bytes "s" ∷ (1 ∷ []) ∷ (2 ∷ []) ∷ []) blobs
unfolding str_eq
get_stream-IsWhole_example =
    get_stream-IsWhole ℕ get_held infos (λ n. Unit {0}) stream_blobs held_serves (bytes "s")
      (1 ∷ 2 ∷ 0 ∷ []) (1 ∷ []) ((2 ∷ []) ∷ (0 ∷ []) ∷ []) 0 tt refl refl
      ((11 ∷ [], refl), ((12 ∷ [], refl), tt))
