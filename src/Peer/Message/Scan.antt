-- ===== src/Peer/Message/Scan.antt =====
-- `readNextMessage` is a scan of the stream byte by byte, with no chunks and no fuel.
use mathlib.Core.List.{append_assoc, append-nil}
use reflector_go.Peer.Message.{
  Reading, message, too_large, end_of_file, broken, max_request_size, read_bytes, ℕ, Bool, Option,
  Error, some, ltb, read_loop, last_chunk, Buffer, read_next_message,
}
use reflector_go.Prelude.{
  ◌∷◌, ◌++◌, if◌then◌else◌, ◌≡◌, Bool-cases, true, ◌==◌, none, inl, false, inr, ◌∙◌, sym, List, [],
  length, ◌≤◌, ◌<◌, arith, suc, refl, zero, ◌⊎◌,
}

module _ (valid_json : List ℕ → Bool) where
  -- The whole stream was read.
  abbrev pub finish : Option Error → List ℕ → Reading
  finish (some e) msg = broken e
  finish none [] = end_of_file
  finish none (c ∷ msg) =
      if ltb max_request_size (length (c ∷ msg)) then too_large (c ∷ msg) else message (c ∷ msg)

  -- After each `}` the bytes so far are checked: their number first, then whether they are JSON.
  unfoldable pub scan : Option Error → List ℕ → List ℕ → Reading × List ℕ
  scan e msg [] = (finish e msg, [])
  scan e msg (c ∷ input) =
      let now = msg ++ (c ∷ []) in
      let later = scan e now input in
      if c == b'}'
      then (if ltb max_request_size (length now)
          then (too_large now, input)
          else if valid_json now
          then (message now, input)
          else later)
      else later

  -- What a scan does with the next chunk.
  abbrev after_chunk : Option Error → List ℕ → List ℕ × Bool × List ℕ → Reading × List ℕ
  after_chunk e msg (chunk, true, rest) =
      if ltb max_request_size (length (msg ++ chunk))
      then (too_large (msg ++ chunk), rest)
      else if valid_json (msg ++ chunk)
      then (message (msg ++ chunk), rest)
      else scan e (msg ++ chunk) rest
  after_chunk e msg (chunk, false, rest) = (finish e (msg ++ chunk), rest)

  abbrev put_front : ℕ → List ℕ × Bool × List ℕ → List ℕ × Bool × List ℕ
  put_front c (chunk, found, rest) = (c ∷ chunk, found, rest)

  after_chunk-put_front :
      (e : Option Error) (msg : List ℕ) (c : ℕ) (r : List ℕ × Bool × List ℕ)
      → after_chunk e msg (put_front c r) ≡ after_chunk e (msg ++ (c ∷ [])) r
  after_chunk-put_front e msg c (chunk, true, rest) = rw (append_assoc msg (c ∷ []) chunk)
  after_chunk-put_front e msg c (chunk, false, rest) = rw (append_assoc msg (c ∷ []) chunk)

  scan_chunk :
      (e : Option Error) (msg input : List ℕ)
      → scan e msg input ≡ after_chunk e msg (read_bytes input)
  unfolding scan read_bytes
  scan_chunk e msg [] = rw append-nil
  scan_chunk e msg (c ∷ input) = elim (Bool-cases (c == b'}')) [
    | inl stop ↦ rw stop
    | inr go ↦ rw go (
        scan_chunk e (msg ++ (c ∷ [])) input
        ∙ sym (after_chunk-put_front e msg c (read_bytes input)))
  ]

  last_chunk-eq-finish :
      (msg chunk : List ℕ) (e : Option Error)
      → length msg ≤ max_request_size
      → last_chunk valid_json msg chunk e ≡ finish e (msg ++ chunk)
  last_chunk-eq-finish msg chunk (some e) h = refl
  last_chunk-eq-finish [] [] none h = refl
  last_chunk-eq-finish (m ∷ msg) [] none h = rw (append-nil msg) (ground arith)
  last_chunk-eq-finish [] (c ∷ chunk) none h = refl
  last_chunk-eq-finish (m ∷ msg) (c ∷ chunk) none h = refl

  rest_shorter :
      (input : List ℕ)
      → let (chunk, found, rest) = read_bytes input in
        (found ≡ true → length rest < length input) × (found ≡ false → rest ≡ [])
  unfolding read_bytes
  rest_shorter [] = (λ e. cc, λ e. refl)
  rest_shorter (c ∷ input) = ground (arith, rest_shorter input)

  read_loop-eq-scan :
      (fuel : ℕ) (msg : List ℕ) (buf : Buffer)
      → length buf.input < fuel
      → length msg ≤ max_request_size
      → read_loop valid_json fuel msg buf ≡ scan buf.ending msg buf.input
  unfolding read_loop
  read_loop-eq-scan zero msg buf f h = absurd (omega arith)
  read_loop-eq-scan (suc fuel) msg buf f h =
      rw (scan_chunk buf.ending msg buf.input) (elim (Bool-cases (read_bytes buf.input).1) [
        | inl found ↦ ground (
          arith,
          rest_shorter buf.input,
          read_loop-eq-scan fuel (msg ++ (read_bytes buf.input).0)
              (record buf { input = (read_bytes buf.input).2 }),
        )
        | inr all ↦ ground (
          arith,
          rest_shorter buf.input,
          last_chunk-eq-finish msg (read_bytes buf.input).0 buf.ending,
        )
      ])

  -- `readNextMessage`, with its chunks and its loop, is one scan of the stream from its first byte,
  -- whatever the bytes and the error or the end behind them: the fuel is enough, and what is left
  -- in the buffer is what the scan left.
  pub read_next_message-eq-scan :
      (buf : Buffer) → read_next_message valid_json buf ≡ scan buf.ending [] buf.input
  unfolding read_next_message
  read_next_message-eq-scan buf =
      read_loop-eq-scan (suc (length buf.input)) [] buf (omega arith) (omega arith)

  abbrev pub IsFramed : List ℕ → Reading × List ℕ → Type 0
  IsFramed input (message m, rest) =
      (m ++ rest ≡ input) × (length m ≤ max_request_size) × ((valid_json m ≡ true) ⊎ (rest ≡ []))
  IsFramed input (too_large m, rest) = (m ++ rest ≡ input) × (max_request_size < length m)
  IsFramed input (end_of_file, rest) = input ≡ []
  IsFramed input (broken e, rest) = rest ≡ []

  finish-IsFramed : (e : Option Error) (msg : List ℕ) → IsFramed msg (finish e msg, [])
  finish-IsFramed (some e) msg = refl
  finish-IsFramed none [] = refl
  finish-IsFramed none (c ∷ msg) = elim (Bool-cases (ltb max_request_size (length (c ∷ msg)))) [
    | inl big ↦ rw big (append-nil (c ∷ msg), ground arith)
    | inr fits ↦ rw fits (append-nil (c ∷ msg), ground arith, inr refl)
  ]

  scan-IsFramed :
      (e : Option Error) (msg input : List ℕ) → IsFramed (msg ++ input) (scan e msg input)
  unfolding scan
  scan-IsFramed e msg [] = rw (append-nil msg) (finish-IsFramed e msg)
  scan-IsFramed e msg (c ∷ input) =
      let now = msg ++ (c ∷ []) in
      let joined : now ++ input ≡ msg ++ (c ∷ input) = append_assoc msg (c ∷ []) input in
      let ih : IsFramed (msg ++ (c ∷ input)) (scan e now input) =
        rw joined at (scan-IsFramed e now input) in
      elim (Bool-cases (c == b'}')) [
        | inr go ↦ rw go ih
        | inl stop ↦ elim (Bool-cases (ltb max_request_size (length now))) [
          | inl big ↦ rw (stop, big) (joined, ground arith)
          | inr fits ↦ elim (Bool-cases (valid_json now)) [
            | inl json ↦ rw (stop, fits, json) (joined, ground arith, inl json)
            | inr not_json ↦ rw (stop, fits, not_json) ih
          ]
        ]
      ]

  -- A returned message and what is left in the buffer are the stream, the message has at most
  -- `max_request_size` bytes, and it is JSON or all that the stream had; a message that is refused
  -- as too large is longer than that; the end of the file is reported for the empty stream only;
  -- and behind an error nothing is left.
  pub read_next_message-IsFramed :
      (buf : Buffer) → IsFramed buf.input (read_next_message valid_json buf)
  read_next_message-IsFramed buf =
      rw (read_next_message-eq-scan buf) (scan-IsFramed buf.ending [] buf.input)
