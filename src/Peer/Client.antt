-- ===== src/Peer/Client.antt =====
-- server/peer/client.go: `Client`. The peer at the other end is the state `Net`, and `answer` is what of its
-- answer to a written run arrives, with the end or the error behind it. The JSON codec, `errors.Prefix`
-- and the reading of an sd blob are parameters. Deadlines, logs and metrics are left out.
use reflector_go.Peer.Message.{
  Buffer, Reading, message, too_large, end_of_file, broken, read_next_message,
}
use reflector_go.Store.{Blob}
use reflector_go.Shared.{BlobTrace, stack, new_blob_trace}
use reflector_go.Errors.{Error, Result, ok, err, error_text}
use reflector_go.Reflector.Server.{take_error}
use reflector_go.Prelude.Int.{ℤ, exceeds, pos, negsuc}
use reflector_go.Prelude.{
  List, Str, ℕ, Option, bytes, Bool, if◌then◌else◌, some, any, ◌++◌, none, not, leb, str_eq, length,
  [], take, ◌∷◌, drop,
}

-- `blobResponse`, with the fields of its `incomingBlob`. `error` is "" if it is not there.
pub record BlobResponse : Type 0 where
  pub error : Str
  pub blob_hash : Str
  pub length : ℤ
  pub request_trace : Option BlobTrace

-- How `GetBlob` ends: with its results, or by a panic.
pub data Got : Type 0 where
  answers : Result Blob → BlobTrace → Got
  panics : Got

-- `io.EOF`, `io.ErrUnexpectedEOF` and `errRequestTooLarge`
abbrev pub eof : Error
eof = error_text "EOF"

abbrev pub unexpected_eof : Error
unexpected_eof = error_text "unexpected EOF"

abbrev pub request_too_large : Error
request_too_large = error_text "request is too large"

abbrev pub name_tcp : Str
name_tcp = bytes "tcp"

-- What `readNextMessage` returns to its caller.
abbrev pub received : Reading → Result (List ℕ)
received (message m) = ok m
received (too_large m) = err request_too_large
received end_of_file = err eof
received (broken e) = err e

-- The error of `io.ReadFull` on too few bytes.
abbrev pub short_read : Buffer → Error
short_read buf = elim buf.ending [
  | some e ↦ e
  | none ↦ elim buf.input [ [] ↦ eof | c ∷ input ↦ unexpected_eof ]
]

-- `make([]byte, n)` and `io.ReadFull`
unfoldable pub read_full : ℕ → Buffer → Result Blob × Buffer
read_full n buf =
    if leb n (length buf.input)
    then (ok (take n buf.input), record buf { input = drop n buf.input })
    else (err (short_read buf), record buf { input = [] })

-- The value of a positive number.
abbrev pub size_of : ℤ → ℕ
size_of (pos n) = n
size_of (negsuc n) = 0

module _ (Net : Type 0) (answer : List ℕ → Net → Buffer × Net) (valid_json : List ℕ → Bool)
    (encode_available encode_blob : Str → Result (List ℕ))
    (decode_available : List ℕ → Result (List Str)) (decode_blob : List ℕ → Result BlobResponse)
    (prefix : Str → Error → Error) where
  pub record Client : Type 0 where
    pub connected : Bool
    pub buffer : Buffer
    pub net : Net
    -- whether the writes to come fail
    pub write_errors : List (Option Error)

  abbrev pub Act {ℓ} : Type ℓ → Type ℓ
  Act A = Client → Result A × Client

  abbrev pub continue {ℓ κ} :
      {A : Type ℓ} {B : Type κ} → Result A × Client → (A → Act B) → Result B × Client
  continue (ok a, c) f = f a c
  continue (err e, c) f = (err e, c)

  infixl 5 ◌>>=◌ ◌>>◌
  unfoldable pub ◌>>=◌ {ℓ κ} : {A : Type ℓ} {B : Type κ} → Act A → (A → Act B) → Act B
  ◌>>=◌ m f c = continue (m c) f

  abbrev pub ◌>>◌ {ℓ κ} : {A : Type ℓ} {B : Type κ} → Act A → Act B → Act B
  m >> k = m >>= λ _. k

  unfoldable pub lift {ℓ} : {A : Type ℓ} → Result A → Act A
  lift r c = (r, c)

  -- `if !c.connected { return …, errors.Err("not connected") }`
  unfoldable pub need_connected : Act (Unit {0})
  need_connected c = (if c.connected then ok tt else err (error_text "not connected"), c)

  -- The peer's bytes come behind those that were not read.
  abbrev pub arrived : Buffer × Net → Client → Client
  arrived (more, n) c = record c {
    buffer = record { input = c.buffer.input ++ more.input; ending = more.ending };
    net = n;
  }

  abbrev pub written : Option Error → List ℕ → Client → Result (Unit {0}) × Client
  written none run c = (ok tt, arrived (answer run c.net) c)
  written (some e) run c = (err e, c)

  -- `write`
  unfoldable pub write : List ℕ → Act (Unit {0})
  write run c =
      let (e, rest) = take_error c.write_errors in written e run (record c { write_errors = rest })

  abbrev pub decoded {ℓ} : {A : Type ℓ} → (List ℕ → Result A) → Result (List ℕ) → Result A
  decoded decode (ok m) = decode m
  decoded decode (err e) = err e

  -- `read`
  unfoldable pub read {ℓ} : {A : Type ℓ} → (List ℕ → Result A) → Act A
  unfolding read_next_message
  read decode c =
      let (r, rest) = read_next_message valid_json c.buffer in
      (decoded decode (received r), record c { buffer = record c.buffer { input = rest } })

  -- `readRawBlob`
  unfoldable pub read_raw_blob : ℕ → Act Blob
  unfolding read_full
  read_raw_blob n c = ((read_full n c.buffer).0, record c { buffer = (read_full n c.buffer).1 })

  -- `HasBlob`
  unfoldable pub has_blob : Str → Act Bool
  unfolding need_connected lift write read
  has_blob hash = do
    need_connected
    request ← lift (encode_available hash)
    write request
    hashes ← read decode_available
    lift (ok (any (λ h. str_eq h hash) hashes))

  -- `errors.Prefix(hash[:8], …)`: the slice panics for a shorter hash.
  abbrev pub refused : Str → Error → BlobTrace → Got
  refused hash e trace =
      if leb 8 (length hash) then answers (err (prefix (take 8 hash) e)) trace else panics

  abbrev pub trace_or : Option BlobTrace → BlobTrace
  trace_or none = new_blob_trace name_tcp
  trace_or (some trace) = trace

  -- Behind `readRawBlob`: its error makes the code read through `resp.RequestTrace`, also if it is nil.
  abbrev pub blob_result : Option BlobTrace → Result Blob → Got
  blob_result trace (ok blob) = answers (ok blob) (stack (trace_or trace) name_tcp)
  blob_result none (err e) = panics
  blob_result (some trace) (err e) = answers (err e) (stack trace name_tcp)

  -- `hash[:8]` in the log line, and the bytes of the blob.
  unfoldable pub receive_blob : Str → BlobResponse → Client → Got × Client
  unfolding read_raw_blob
  receive_blob hash resp c =
      if leb 8 (length hash)
      then (let (r, c') = read_raw_blob (size_of resp.length) c in
          (blob_result resp.request_trace r, c'))
      else (panics, c)

  -- The checks of a response.
  unfoldable pub check_response : Str → BlobResponse → Client → Got × Client
  unfolding receive_blob
  check_response hash resp c =
      let trace = trace_or resp.request_trace in
      if not (str_eq resp.error [])
      then (refused hash (Error.message resp.error) trace, c)
      else if not (str_eq resp.blob_hash hash)
      then (
        refused hash (error_text "blob hash in response does not match requested hash")
            (stack trace name_tcp),
        c,
      )
      else if exceeds resp.length 0
      then receive_blob hash resp c
      else (refused hash (error_text "length reported as <= 0") trace, c)

  abbrev pub after_response : Str → Result BlobResponse × Client → Got × Client
  after_response hash (ok resp, c) = check_response hash resp c
  after_response hash (err e, c) = (answers (err e) (new_blob_trace name_tcp), c)

  -- The request for a blob and the response to it.
  unfoldable pub ask_blob : Str → Act BlobResponse
  unfolding need_connected lift write read
  ask_blob hash = do
    need_connected
    request ← lift (encode_blob hash)
    write request
    read decode_blob

  -- `GetBlob`
  unfoldable pub get_blob : Str → Client → Got × Client
  unfolding ask_blob check_response
  get_blob hash c = after_response hash (ask_blob hash c)
