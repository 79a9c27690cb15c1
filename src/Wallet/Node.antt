-- ===== src/Wallet/Node.antt =====
-- wallet/network.go: `request` and `listen` of `Node`. Many requests run at once, so a request is a sequence
-- of steps on the shared node, each of them one access to it, and `listen` a step of its own; `Step` is
-- their interleaving. `json` is a parameter, and what it makes of the response for the caller is left out.
-- Since `listenPush` is commented out, `pushHandlers` stays
-- empty, and handing on to its handlers does nothing.
pub mod Answers
pub mod Race
use reflector_go.Prelude.{
  List, none, ℕ, if◌then◌else◌, Str, ◌+◌, some, Option, ◌≡◌, ◌%◌, ◌==◌, ◌^◌, str_eq, [], ◌∷◌,
}
use reflector_go.Errors.{Error, Result, error_text, err, ok}

-- What `json.Unmarshal` fills of a message, also if it fails.
pub record Parsed : Type 0 where
  pub id : ℕ
  pub error_code : ℕ
  pub error_message : Str

-- `response`
abbrev pub Response : Type 0
Response = Result (List ℕ)

-- How far a request has got, with its number once it has one. Behind `waiting` it ends by a response, by
-- the timeout, or because sending fails.
pub data Call : Type 0 where
  idle : Call
  loaded counted waiting : ℕ → Call
  answered : ℕ → Response → Call
  failed : ℕ → Error → Call
  -- the node was stopped, and the request returned no error
  stopped : ℕ → Call

-- `Node`: requests are numbered, and the number of a request names its channel, which holds at most one
-- response. `heard` is the history of the messages that `listen` has read, which the code does not keep.
pub record Node : Type 0 where
  pub next_id : ℕ
  pub handlers : ℕ → Option ℕ
  pub channels : ℕ → Option Response
  pub calls : ℕ → Call
  pub heard : List (List ℕ)

-- `NewNode`
abbrev pub new_node : Node
new_node = record {
  next_id = 0;
  handlers = λ id. none;
  channels = λ i. none;
  calls = λ i. idle;
  heard = [];
}

abbrev pub update {ℓ} : {A : Type ℓ} → (ℕ → A) → ℕ → A → ℕ → A
update f i a j = if i == j then a else f j

-- `ErrTimeout`
abbrev pub timeout : Error
timeout = error_text "timeout"

-- `n.nextId.Load()`
abbrev pub load : ℕ → Node → Node
load i n = record n { calls = update n.calls i (loaded n.next_id) }

-- `n.nextId.Inc()`, on 32 bits
abbrev pub count : ℕ → ℕ → Node → Node
count i id n = record n {
  next_id = (n.next_id + 1) % 2 ^ 32;
  calls = update n.calls i (counted id);
}

-- `n.handlers[msg.Id] = c`, a new channel
abbrev pub register : ℕ → ℕ → Node → Node
register i id n = record n {
  handlers = update n.handlers id (some i);
  channels = update n.channels i none;
  calls = update n.calls i (waiting id);
}

-- `delete(n.handlers, msg.Id)`
abbrev pub unregister : ℕ → Node → Node
unregister id n = record n { handlers = update n.handlers id none }

-- `case r = <-c`
abbrev pub receive : ℕ → ℕ → Response → Node → Node
receive i id r n =
    unregister id
      (record n { channels = update n.channels i none; calls = update n.calls i (answered id r) })

-- `case <-time.After(n.timeout)`
abbrev pub time_out : ℕ → ℕ → Node → Node
time_out i id n = unregister id (record n { calls = update n.calls i (failed id timeout) })

-- A return before the response is waited for: the handler, if there is one, stays.
abbrev pub give_up : ℕ → ℕ → Error → Node → Node
give_up i id e n = record n { calls = update n.calls i (failed id e) }

-- `case <-n.grp.Ch(): return nil`
abbrev pub stop : ℕ → ℕ → Node → Node
stop i id n = record n { calls = update n.calls i (stopped id) }

module _ (unmarshal unmarshal_nested : List ℕ → Parsed × Option Error)
    (text : ℕ → Str → Error) where
  -- The second try, for an error within the error.
  abbrev pub parsed : List ℕ → Parsed × Option Error → Parsed × Option Error → Parsed × Option Error
  parsed bytes_ (p, none) q = (p, none)
  parsed bytes_ (p, some e) (q, none) = (q, none)
  parsed bytes_ (p, some e) (q, some f) = (p, some e)

  -- The id and the response that `listen` makes of a message.
  abbrev pub response_of : List ℕ → Parsed × Option Error → ℕ × Response
  response_of bytes_ (p, some e) = (p.id, err e)
  response_of bytes_ (p, none) = (
    p.id,
    if str_eq p.error_message [] then ok bytes_ else err (text p.error_code p.error_message),
  )

  abbrev pub read_response : List ℕ → ℕ × Response
  read_response bytes_ =
      response_of bytes_ (parsed bytes_ (unmarshal bytes_) (unmarshal_nested bytes_))

-- `bytes := <-n.transport.Responses()`
abbrev pub hear : List ℕ → Node → Node
hear bytes_ n = record n { heard = bytes_ ∷ n.heard }

-- `c <- r`
abbrev pub deliver : ℕ → Response → Node → Node
deliver i r n = record n { channels = update n.channels i (some r) }

module _ (read : List ℕ → ℕ × Response) where
  -- A step of a request or of `listen`, where `read` is `read_response`. The handler is looked up and the
  -- response sent in one step: if its request ends in between, nothing reads the channel. Where the
  -- channel is full, `listen` waits, for ever if the request then ends otherwise; here it may go on
  -- once the request has been taken out.
  pub data Step (n : Node) : Node → Type 0 where
    loads : (i : ℕ) → n.calls i ≡ idle → Step n (load i n)
    counts : (i id : ℕ) → n.calls i ≡ loaded id → Step n (count i id n)
    marshal_fails : (i id : ℕ) (e : Error) → n.calls i ≡ counted id → Step n (give_up i id e n)
    registers : (i id : ℕ) → n.calls i ≡ counted id → Step n (register i id n)
    send_fails : (i id : ℕ) (e : Error) → n.calls i ≡ waiting id → Step n (give_up i id e n)
    delivers :
        (i : ℕ) (bytes_ : List ℕ)
        → n.handlers (read bytes_).0 ≡ some i
        → n.channels i ≡ none
        → Step n (deliver i (read bytes_).1 (hear bytes_ n))
    ignores : (bytes_ : List ℕ) → n.handlers (read bytes_).0 ≡ none → Step n (hear bytes_ n)
    receives :
        (i id : ℕ) (r : Response)
        → n.calls i ≡ waiting id
        → n.channels i ≡ some r
        → Step n (receive i id r n)
    times_out : (i id : ℕ) → n.calls i ≡ waiting id → Step n (time_out i id n)
    stops : (i id : ℕ) → n.calls i ≡ waiting id → Step n (stop i id n)

  pub data Reach (s : Node) : Node → Type 0 where
    here : Reach s s
    later : {t u : Node} → Reach s t → Step t u → Reach s u
