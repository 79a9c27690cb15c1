-- ===== src/Peer/Conversation/Gets.antt =====
-- What `Get` of the peer store returns over a server whose store keeps its contract.
use reflector_go.Peer.Client
use reflector_go.Peer.Client.{answers, panics, Got, BlobResponse}
use reflector_go.Peer.Conversation.{Upstream, append-nil}
use reflector_go.Prelude.{
  Option, Bool, List, ℕ, Str, ◌≡◌, true, some, none, Bool-cases, ◌++◌, take, length, leb, inl, ◌∷◌,
  inr, [], false, refl, sym, ◌∙◌, str_eq, ltb, arith, take-length, ◌+◌, length-append, ap,
}
use reflector_go.Errors.{Error, error_text, ok, Result, err, blob_not_found}
use reflector_go.Store.{BlobStore, Blob, Spec}
use reflector_go.Peer.Server.{CompositeRequest, CompositeResponse, IncomingBlob, nothing}
use reflector_go.Peer.Conversation.Replies.{IsOther, IsSilent, IsHeard, failed, heard}
use reflector_go.Peer.Message.{Buffer}
use reflector_go.Shared.{BlobTrace}
use reflector_go.Peer.Conversation.{answer, Upstream, incoming, not_found, seen}
use reflector_go.Peer.Server.Answers.{IsAnswer}

-- What the result of a call says of the blob that is held.
abbrev pub IsGot : Option Blob → Got → Type 0
IsGot held (answers (ok b) trace) = held ≡ some b
IsGot held (answers (err e) trace) = e ≡ blob_not_found → held ≡ none
IsGot held panics = Unit

-- The same of a client's result, which says by the text of the error that a blob is missing.
abbrev pub IsSaid : (Error → Bool) → Option Blob → Got → Type 0
IsSaid mentions held (answers (ok b) trace) = held ≡ some b
IsSaid mentions held (answers (err e) trace) =
    (mentions e ≡ true → held ≡ none) × (e ≡ blob_not_found → held ≡ none)
IsSaid mentions held panics = Unit

-- What `errors.Prefix` makes of the client's errors.
pub record IsPrefix (mentions : Error → Bool) (prefix : Str → Error → Error) : Type 0 where
  pub missing : (p : Str) → mentions (prefix p (error_text "blob not found")) ≡ true
  pub mismatch :
      (p : Str)
      → IsOther mentions
          (prefix p (error_text "blob hash in response does not match requested hash"))
  pub no_length : (p : Str) → IsOther mentions (prefix p (error_text "length reported as <= 0"))

module _ (store : BlobStore) (digest : List ℕ → List ℕ) (valid_json : List ℕ → Bool)
    (decode : List ℕ → Option CompositeRequest) (encode : CompositeResponse → List ℕ)
    (encode_available encode_blob : Str → Result (List ℕ))
    (decode_available : List ℕ → Result (List Str)) (decode_blob : List ℕ → Result BlobResponse)
    (prefix : Str → Error → Error) (mentions : Error → Bool) where
  abbrev pub Net : Type 0
  Net = Upstream store digest valid_json decode encode

  abbrev pub answer_to : List ℕ → Net → Buffer × Net
  answer_to = answer store digest valid_json decode encode

  abbrev pub Conn : Type 0
  Conn =
      Client.Client Net answer_to valid_json encode_available encode_blob decode_available
        decode_blob prefix

  abbrev check : Str → BlobResponse → Conn → Got × Conn
  check =
      Client.check_response Net answer_to valid_json encode_available encode_blob decode_available
        decode_blob prefix

  abbrev refused : Str → Error → BlobTrace → Got
  refused =
      Client.refused Net answer_to valid_json encode_available encode_blob decode_available
        decode_blob prefix

  module _ (plain : IsSilent mentions) (prefixes : IsPrefix mentions prefix) where
    refused-IsSaid :
        (held : Option Blob) (h : Str) (e : Error) (trace : BlobTrace)
        → IsOther mentions (prefix (take 8 h) e)
        → IsSaid mentions held (refused h e trace)
    refused-IsSaid held h e trace (silent, other) = elim (Bool-cases (leb 8 (length h))) [
      | inl long ↦ rw long (λ m. let f : true ≡ false = sym m ∙ silent in cc, λ f. absurd (other f))
      | inr short ↦ rw short tt
    ]

    missing-IsSaid :
        (h : Str) (trace : BlobTrace)
        → IsSaid mentions none (refused h (error_text "blob not found") trace)
    missing-IsSaid h trace = elim (Bool-cases (leb 8 (length h))) [
      | inl long ↦ rw long (λ m. refl, λ f. refl)
      | inr short ↦ rw short tt
    ]

    -- The bytes that are read are the blob, if they are as many.
    read_full-eq :
        (b later x : Blob) (buf : Buffer)
        → buf.input ++ later ≡ b
        → (Client.read_full (length b) buf).0 ≡ ok x
        → b ≡ x
    unfolding Client.read_full
    read_full-eq b [] x buf f e =
        let same : buf.input ≡ b = rw append-nil at f in
        let l : leb (length b) (length b) ≡ true = ground arith in
        let g = rw (same, l, take-length b) at e in cc
    read_full-eq b (c ∷ later) x buf f e =
        let long : length buf.input + length (c ∷ later) ≡ length b =
          sym (length-append buf.input (c ∷ later)) ∙ ap length f in
        ground arith

    result-IsSaid :
        (held : Option Blob) (r : Result Blob)
        → ((x : Blob) → r ≡ ok x → held ≡ some x)
        → IsSaid mentions held (
            Client.blob_result Net answer_to valid_json encode_available encode_blob
              decode_available decode_blob prefix none r)
    result-IsSaid held (ok x) e = e x refl
    result-IsSaid held (err x) e = tt

    received-IsSaid :
        (held : Option Blob) (h k : Str) (n : ℕ) (b later : Blob) (c : Conn)
        → held ≡ some b
        → n ≡ length b
        → c.buffer.input ++ later ≡ b
        → IsSaid mentions held
            (Client.receive_blob Net answer_to valid_json encode_available encode_blob
              decode_available decode_blob prefix h
              (seen (incoming k n))
              c).0
    unfolding Client.receive_blob
    received-IsSaid held h k n b later c found size f = elim (Bool-cases (leb 8 (length h))) [
      | inr short ↦ rw short tt
      | inl long ↦
          rw (long, size)
            (result-IsSaid held _ λ x e. found ∙ ap some (read_full-eq b later x c.buffer f e))
    ]

    check-IsSaid :
        (held : Option Blob) (h : Str) (part : IncomingBlob) (b later : Blob) (c : Conn)
        → ((k : Str) (n : ℕ) → part ≡ incoming k n → (held ≡ some b) × (n ≡ length b))
        → (part ≡ not_found → held ≡ none)
        → c.buffer.input ++ later ≡ b
        → IsSaid mentions held (check h (seen part) c).0
    unfolding Client.check_response str_eq
    check-IsSaid held h nothing b later c there gone f = elim (Bool-cases (str_eq [] h)) [
      | inr other ↦ rw other (refused-IsSaid held h _ _ (prefixes.mismatch (take 8 h)))
      | inl same ↦ rw same (refused-IsSaid held h _ _ (prefixes.no_length (take 8 h)))
    ]
    check-IsSaid held h not_found b later c there gone f = rw (gone refl) (missing-IsSaid h _)
    check-IsSaid held h (incoming k n) b later c there gone f =
        let (found, size) = there k n refl in
        elim (Bool-cases (str_eq k h)) [
          | inr other ↦ rw other (refused-IsSaid held h _ _ (prefixes.mismatch (take 8 h)))
          | inl same ↦ elim (Bool-cases (ltb 0 n)) [
            | inr empty ↦
                rw (same, empty) (refused-IsSaid held h _ _ (prefixes.no_length (take 8 h)))
            | inl some_bytes ↦
                rw (same, some_bytes) (received-IsSaid held h k n b later c found size f)
          ]
        ]

    module _ (A : Spec store) where
      -- A result of `read`, with the connection behind it.
      abbrev pub behind : Buffer → Net → Result BlobResponse × List ℕ → Result BlobResponse × Conn
      behind buf n x = (
        x.0,
        record {
          connected = true;
          buffer = record buf { input = x.1 };
          net = n;
          write_errors = [];
        },
      )

      abbrev pub after : Str → Result BlobResponse × Conn → Got × Conn
      after =
          Client.after_response Net answer_to valid_json encode_available encode_blob
            decode_available decode_blob prefix

      pub heard-IsSaid :
          (held : Option Blob) (h : Str) (part : IncomingBlob) (b : Blob) (buf : Buffer) (n : Net)
          {x : Result BlobResponse × List ℕ}
          → IsAnswer A digest held h (part, b)
          → IsHeard mentions plain valid_json decode_blob (seen part) b x
          → IsSaid mentions held (after h (behind buf n x)).0
      heard-IsSaid held h part b buf n v (failed e (silent, other)) =
          (λ m. let f : true ≡ false = sym m ∙ silent in cc, λ f. absurd (other f))
      heard-IsSaid held h nothing b buf n v (heard rest later f) =
          check-IsSaid held h nothing b later _ (λ k m e. cc) (λ e. cc) f
      heard-IsSaid held h not_found b buf n v (heard rest later f) =
          check-IsSaid held h not_found b later _ (λ k m e. cc) (λ e. v.0) f
      heard-IsSaid held h (incoming k m) b buf n v (heard rest later f) =
          check-IsSaid held h (incoming k m) b later _ (λ j l e. (v.0, ground (arith, v.2)))
            (λ e. cc) f
