-- ===== src/Wallet/Node/Answers.antt =====
-- wallet/network.go: which response a request is answered by.
use reflector_go.Wallet.Node.{Call, Node, Step, Reach, Response, update, new_node, here, later}
use reflector_go.Wallet.Node.{
  loads, counts, marshal_fails, registers, send_fails, delivers, ignores, receives, times_out,
  stops,
}
use reflector_go.Wallet.Node.{register, unregister, receive, deliver, hear}
use reflector_go.Wallet.Node.{idle, loaded, counted, waiting, answered, failed, stopped, timeout}
use reflector_go.Prelude.{
  Option, ℕ, ◌≡◌, Bool-cases, ◌≢◌, none, some, ◌==◌, sym, inl, refl, ◌∷◌, subst, inr, ◌∙◌, ap,
  ==_iff,
}
use reflector_go.Prelude.{List}
use mathlib.Core.List.{Memᴰ}
use mathlib.Core.List.Memᴰ.{head, tail}

-- The id under which a request is registered.
abbrev pub id_of : Call → Option ℕ
id_of idle = none
id_of (loaded id) = none
id_of (counted id) = none
id_of (waiting id) = some id
id_of (answered id r) = some id
id_of (failed id e) = some id
id_of (stopped id) = some id

module _ (read : List ℕ → ℕ × Response) where
  -- The response of a message among those that `listen` has read, that came under the id.
  abbrev pub IsHeard : List (List ℕ) → ℕ → Response → Type 0
  IsHeard heard id r = (bytes_ : List ℕ) × Memᴰ bytes_ heard × read bytes_ ≡ (id, r)

  pub record IsMatched (n : Node) : Type 0 where
    pub handled : (id i : ℕ) → n.handlers id ≡ some i → id_of (n.calls i) ≡ some id
    pub arrived :
        (i : ℕ) (r : Response)
        → n.channels i ≡ some r
        → (id : ℕ) × id_of (n.calls i) ≡ some id × IsHeard n.heard id r
    pub ended : (i id : ℕ) (r : Response) → n.calls i ≡ answered id r → IsHeard n.heard id r

  -- A request keeps its id.
  grown :
      (n : Node) (i : ℕ) (c : Call)
      → ((id : ℕ) → id_of (n.calls i) ≡ some id → id_of c ≡ some id)
      → (j id : ℕ) → id_of (n.calls j) ≡ some id
      → id_of (update n.calls i c j) ≡ some id
  grown n i c keep j id e = elim (Bool-cases (i == j)) [
    | inl same ↦
        rw same (keep id (subst (λ k. id_of (n.calls k) ≡ some id) (sym ((==_iff i j).0 same)) e))
    | inr other ↦ rw other e
  ]

  -- A step that changes one request and no handler or channel.
  moved :
      (n : Node) (i : ℕ) (c : Call)
      → IsMatched n
      → ((id : ℕ) → id_of (n.calls i) ≡ some id → id_of c ≡ some id)
      → ((id : ℕ) (r : Response) → c ≡ answered id r → IsHeard n.heard id r)
      → IsMatched (record n { calls = update n.calls i c })
  moved n i c v keep new = record {
    handled = λ id j e. grown n i c keep j id (v.handled id j e);
    arrived = λ j r e. let a = v.arrived j r e in (a.0, grown n i c keep j a.0 a.1, a.2);
    ended = λ j id r e. elim (Bool-cases (i == j)) [
      | inl same ↦ new id r (rw same at e)
      | inr other ↦ v.ended j id r (rw other at e)
    ];
  }

  next_id-IsMatched : (n : Node) (next : ℕ) → IsMatched n → IsMatched (record n { next_id = next })
  next_id-IsMatched n next v = record { handled = v.handled; arrived = v.arrived; ended = v.ended }

  unregister-IsMatched : (n : Node) (id : ℕ) → IsMatched n → IsMatched (unregister id n)
  unregister-IsMatched n id v = record {
    handled = λ id' j e. elim (Bool-cases (id == id')) [
      | inl same ↦ let f = rw same at e in cc
      | inr other ↦ v.handled id' j (rw other at e)
    ];
    arrived = v.arrived;
    ended = v.ended;
  }

  handled-IsMatched :
      (n : Node) (id i : ℕ)
      → IsMatched n
      → id_of (n.calls i) ≡ some id
      → IsMatched (record n { handlers = update n.handlers id (some i) })
  handled-IsMatched n id i v h = record {
    handled = λ id' j e. elim (Bool-cases (id == id')) [
      | inl same ↦ let f = rw same at e in let g = (==_iff id id').0 same in cc
      | inr other ↦ v.handled id' j (rw other at e)
    ];
    arrived = v.arrived;
    ended = v.ended;
  }

  channel-IsMatched :
      (n : Node) (i : ℕ) (c : Option Response)
      → IsMatched n
      → ((r : Response)
          → c ≡ some r
          → (id : ℕ) × id_of (n.calls i) ≡ some id × IsHeard n.heard id r)
      → IsMatched (record n { channels = update n.channels i c })
  channel-IsMatched n i c v new = record {
    handled = v.handled;
    arrived = λ j r e. elim (Bool-cases (i == j)) [
      | inl same ↦
          subst (λ k. (id : ℕ) × id_of (n.calls k) ≡ some id × IsHeard n.heard id r)
            ((==_iff i j).0 same) (new r (rw same at e))
      | inr other ↦ v.arrived j r (rw other at e)
    ];
    ended = v.ended;
  }

  still_heard :
      {heard : List (List ℕ)} {id : ℕ} {r : Response} (bytes_ : List ℕ)
      → IsHeard heard id r
      → IsHeard (bytes_ ∷ heard) id r
  still_heard bytes_ (b, m, e) = (b, tail m, e)

  hear-IsMatched : (n : Node) (bytes_ : List ℕ) → IsMatched n → IsMatched (hear bytes_ n)
  hear-IsMatched n bytes_ v = record {
    handled = v.handled;
    arrived = λ i r e. let a = v.arrived i r e in (a.0, a.1, still_heard bytes_ a.2);
    ended = λ i id r e. still_heard bytes_ (v.ended i id r e);
  }

  -- A step of a request that has no response yet.
  goes_on :
      (n : Node) (i : ℕ) (d c : Call)
      → IsMatched n
      → n.calls i ≡ d
      → ((id : ℕ) → id_of d ≡ some id → id_of c ≡ some id)
      → ((id : ℕ) (r : Response) → c ≢ answered id r)
      → IsMatched (record n { calls = update n.calls i c })
  goes_on n i d c v e keep new =
      moved n i c v (λ id g. keep id (subst (λ x. id_of x ≡ some id) e g))
        (λ id r f. absurd (new id r f))

  register-IsMatched :
      (n : Node) (i id : ℕ) → IsMatched n → n.calls i ≡ counted id → IsMatched (register i id n)
  register-IsMatched n i id v e =
      let a = goes_on n i _ (waiting id) v e (λ id' g. cc) (λ id' r f. cc) in
      let b = channel-IsMatched _ i none a (λ r f. cc) in
      handled-IsMatched _ id i b (rw ((==_iff i i).1 refl) refl)

  deliver-IsMatched :
      (n : Node) (i : ℕ) (bytes_ : List ℕ)
      → IsMatched n
      → n.handlers (read bytes_).0 ≡ some i
      → IsMatched (deliver i (read bytes_).1 (hear bytes_ n))
  deliver-IsMatched n i bytes_ v h = channel-IsMatched _ i _ (hear-IsMatched n bytes_ v) (λ r e. (
    (read bytes_).0,
    v.handled (read bytes_).0 i h,
    (bytes_, head refl, let q : (read bytes_).1 ≡ r = cc in ap (λ x. ((read bytes_).0, x)) q),
  ))

  receive-IsMatched :
      (n : Node) (i id : ℕ) (r : Response)
      → IsMatched n
      → n.calls i ≡ waiting id
      → n.channels i ≡ some r
      → IsMatched (receive i id r n)
  receive-IsMatched n i id r v e f =
      let a = v.arrived i r f in
      let same : some id ≡ some a.0 = sym (ap id_of e) ∙ a.1 in
      let b = channel-IsMatched n i none v (λ r' g. cc) in
      unregister-IsMatched _ id (
        moved _ i (answered id r) b (λ id' g. sym (ap id_of e) ∙ g)
          (λ id' r' g. let q : (a.0, r) ≡ (id', r') = cc in (a.2.0, a.2.1, a.2.2 ∙ q)))

  Step-IsMatched : {n m : Node} → Step read n m → IsMatched n → IsMatched m
  Step-IsMatched {n} (loads i e) v = goes_on n i _ _ v e (λ id g. cc) (λ id r f. cc)
  Step-IsMatched {n} (counts i id e) v =
      next_id-IsMatched _ _ (goes_on n i _ (counted id) v e (λ id' g. cc) (λ id' r f. cc))
  Step-IsMatched {n} (marshal_fails i id x e) v = goes_on n i _ _ v e (λ id' g. cc) (λ id' r f. cc)
  Step-IsMatched {n} (registers i id e) v = register-IsMatched n i id v e
  Step-IsMatched {n} (send_fails i id x e) v = goes_on n i _ _ v e (λ id' g. g) (λ id' r f. cc)
  Step-IsMatched {n} (delivers i bytes_ h e) v = deliver-IsMatched n i bytes_ v h
  Step-IsMatched {n} (ignores bytes_ h) v = hear-IsMatched n bytes_ v
  Step-IsMatched {n} (receives i id r e f) v = receive-IsMatched n i id r v e f
  Step-IsMatched {n} (times_out i id e) v =
      unregister-IsMatched _ id (goes_on n i _ (failed id timeout) v e (λ id' g. g) (λ id' r f. cc))
  Step-IsMatched {n} (stops i id e) v = goes_on n i _ _ v e (λ id' g. g) (λ id' r f. cc)

  pub new_node-IsMatched : IsMatched new_node
  new_node-IsMatched = record {
    handled = λ id i e. cc;
    arrived = λ i r e. cc;
    ended = λ i id r e. cc;
  }

  pub Reach-IsMatched : {n m : Node} → Reach read n m → IsMatched n → IsMatched m
  Reach-IsMatched here v = v
  Reach-IsMatched (later a s) v = Step-IsMatched s (Reach-IsMatched a v)

  -- However the requests and `listen` interleave, a request that is answered got the response of a message
  -- that `listen` has read, and the id that `listen` read in it is the request's number.
  pub answered-IsHeard :
      (n : Node) (i id : ℕ) (r : Response)
      → Reach read new_node n
      → n.calls i ≡ answered id r
      → IsHeard n.heard id r
  answered-IsHeard n i id r a e = (Reach-IsMatched a new_node-IsMatched).ended i id r e
