-- ===== src/Peer/Message.antt =====
-- server/peer/server.go: `readNextMessage`, which finds the end of a JSON object in a byte stream.
-- `valid_json` stands for `reflector.IsValidJSON`, which is `json.Unmarshal` into a raw message.
pub mod Scan
pub mod Frames
use Prim.Native.Nat.{bit_xor, ℕ, suc}
use reflector_go.Prelude.{
  List, Bool, Option, ◌*◌, some, false, ◌++◌, ◌∷◌, length, [], if◌then◌else◌, ltb, ◌==◌, true, zero,
  none,
}
use reflector_go.Errors.{Error}

-- A buffered connection: the bytes that it will yield, and the error behind them (`io.EOF` is
-- `none`).
pub record Buffer : Type 0 where
  pub input : List ℕ
  pub ending : Option Error

-- `maxRequestSize = 64 * (2 ^ 10)`: in Go `^` is the exclusive or.
abbrev pub max_request_size : ℕ
max_request_size = 64 * bit_xor 2 10

-- How a call ends, with the bytes read: a message, `errRequestTooLarge`, or the end of the stream.
pub data Reading : Type 0 where
  message : List ℕ → Reading
  too_large : List ℕ → Reading
  end_of_file : Reading
  broken : Error → Reading

-- `buf.ReadBytes('}')`: the bytes up to the first `}`, that one included, whether there was one, and
-- what is left.
unfoldable pub read_bytes : List ℕ → List ℕ × Bool × List ℕ
read_bytes [] = ([], false, [])
read_bytes (c ∷ input) =
    let (chunk, found, rest) = read_bytes input in
    if c == b'}' then (c ∷ [], true, input) else (c ∷ chunk, found, rest)

module _ (valid_json : List ℕ → Bool) where
  -- The end of the loop at the end of the stream.
  abbrev at_end : List ℕ → Option Error → Reading
  at_end msg (some e) = broken e
  at_end [] none = end_of_file
  at_end (c ∷ msg) none = message (c ∷ msg)

  -- Behind a chunk that ended the stream: the size is checked if there was a last chunk.
  abbrev last_chunk : List ℕ → List ℕ → Option Error → Reading
  last_chunk msg chunk (some e) = broken e
  last_chunk msg [] none = at_end msg none
  last_chunk msg (c ∷ chunk) none =
      if ltb max_request_size (length (msg ++ (c ∷ chunk)))
      then too_large (msg ++ (c ∷ chunk))
      else at_end (msg ++ (c ∷ chunk)) none

  -- One chunk a round; every chunk but the last takes a byte, so a fuel above the number of bytes is
  -- enough.
  unfoldable pub read_loop : ℕ → List ℕ → Buffer → Reading × List ℕ
  unfolding read_bytes
  read_loop zero msg buf = (end_of_file, buf.input)
  read_loop (suc fuel) msg buf =
      let (chunk, found, rest) = read_bytes buf.input in
      let more = read_loop fuel (msg ++ chunk) (record buf { input = rest }) in
      if found
      then (if ltb max_request_size (length (msg ++ chunk))
          then (too_large (msg ++ chunk), rest)
          else if valid_json (msg ++ chunk)
          then (message (msg ++ chunk), rest)
          else more)
      else (last_chunk msg chunk buf.ending, rest)

  -- `readNextMessage`, with the bytes that stay in the buffer
  unfoldable pub read_next_message : Buffer → Reading × List ℕ
  unfolding read_loop
  read_next_message buf = read_loop (suc (length buf.input)) [] buf
