-- ===== src/Wallet/Node/Race.antt =====
-- wallet/network.go: `request` reads its number and counts on in two accesses, so two requests may get one.
use reflector_go.Wallet.Node.{
  Call, Node, Reach, Response, here, later, loads, counts, registers, marshal_fails, send_fails,
  delivers, ignores, receives, times_out, stops, new_node, register, unregister, counted, update,
  failed, Step, answered, count, stopped, load, timeout,
}
use reflector_go.Wallet.Node.{idle, waiting}
use reflector_go.Prelude.{
  List, ℕ, ◌≢◌, ◌==◌, ◌≡◌, false, some, sym, Bool-cases, inl, ==_iff, refl, inr, none, subst,
  Option, ap, ◌∙◌,
}
use reflector_go.Wallet.Node.Answers.{IsMatched, Reach-IsMatched, new_node-IsMatched, id_of}
use mathlib.Core.Option.{some-injective}

other : (i j : ℕ) → i ≢ j → (i == j) ≡ false
other i j d = elim (Bool-cases (i == j)) [ inl e ↦ absurd (d ((==_iff i j).0 e)) | inr e ↦ e ]

-- Neither answered nor able to register again.
abbrev IsPending : Call → Type 0
IsPending (waiting id) = Unit
IsPending (failed id e) = Unit
IsPending (stopped id) = Unit
IsPending c = ⊥

-- No message can reach the request any more.
record IsLost (i : ℕ) (n : Node) : Type 0 where
  unregistered : (id : ℕ) → n.handlers id ≢ some i
  empty : n.channels i ≡ none
  pending : IsPending (n.calls i)

update-IsPending :
    (i : ℕ) (n : Node) (j : ℕ) (c : Call)
    → IsLost i n
    → (IsPending (n.calls j) → IsPending c)
    → IsPending (update n.calls j c i)
update-IsPending i n j c v keep = elim (Bool-cases (j == i)) [
  | inl same ↦
      rw same (keep (subst (λ k. IsPending (n.calls k)) (sym ((==_iff j i).0 same)) v.pending))
  | inr other ↦ rw other v.pending
]

-- A step that changes one request and no handler or channel.
moved :
    (i : ℕ) (n : Node) (j : ℕ) (d c : Call)
    → IsLost i n
    → n.calls j ≡ d
    → (IsPending d → IsPending c)
    → IsLost i (record n { calls = update n.calls j c })
moved i n j d c v e keep = record {
  unregistered = v.unregistered;
  empty = v.empty;
  pending = update-IsPending i n j c v (λ p. keep (subst IsPending e p));
}

unregister-IsLost : (i : ℕ) (n : Node) (id : ℕ) → IsLost i n → IsLost i (unregister id n)
unregister-IsLost i n id v = record {
  unregistered = λ id' e. elim (Bool-cases (id == id')) [
    | inl same ↦ let f = rw same at e in cc
    | inr other ↦ v.unregistered id' (rw other at e)
  ];
  empty = v.empty;
  pending = v.pending;
}

register-IsLost :
    (i : ℕ) (n : Node) (j id : ℕ) → IsLost i n → n.calls j ≡ counted id → IsLost i (register j id n)
register-IsLost i n j id v e =
    let apart : j ≢ i = λ s. subst IsPending (ap n.calls (sym s) ∙ e) v.pending in
    record {
      unregistered = λ id' f. elim (Bool-cases (id == id')) [
        | inl same ↦ let g = rw same at f in apart (some-injective _ _ g)
        | inr other ↦ v.unregistered id' (rw other at f)
      ];
      empty = rw (other j i apart) v.empty;
      pending = update-IsPending i n j (waiting id) v (λ p. tt);
    }

channel-IsLost :
    (i : ℕ) (n : Node) (j : ℕ) (c : Option Response)
    → IsLost i n
    → j ≢ i
    → IsLost i (record n { channels = update n.channels j c })
channel-IsLost i n j c v apart = record {
  unregistered = v.unregistered;
  empty = rw (other j i apart) v.empty;
  pending = v.pending;
}

module _ (read : List ℕ → ℕ × Response) where
  Step-IsLost : (i : ℕ) {n m : Node} → Step read n m → IsLost i n → IsLost i m
  Step-IsLost i {n} (loads j e) v = moved i n j _ _ v e (λ p. absurd p)
  Step-IsLost i {n} (counts j id e) v =
      let a = moved i n j _ (counted id) v e (λ p. absurd p) in
      record { unregistered = a.unregistered; empty = a.empty; pending = a.pending }
  Step-IsLost i {n} (marshal_fails j id x e) v = moved i n j _ _ v e (λ p. absurd p)
  Step-IsLost i {n} (registers j id e) v = register-IsLost i n j id v e
  Step-IsLost i {n} (send_fails j id x e) v = moved i n j _ _ v e (λ p. tt)
  Step-IsLost i {n} (delivers j bytes_ h e) v =
      let a =
        channel-IsLost i n j (some (read bytes_).1) v (λ s. v.unregistered _ (h ∙ ap some s)) in
      record { unregistered = a.unregistered; empty = a.empty; pending = a.pending }
  Step-IsLost i {n} (ignores bytes_ h) v = record {
    unregistered = v.unregistered;
    empty = v.empty;
    pending = v.pending;
  }
  Step-IsLost i {n} (receives j id r e f) v =
      let apart : j ≢ i = λ s. let g = sym f ∙ (ap n.channels s ∙ v.empty) in cc in
      let a = channel-IsLost i n j none v apart in
      unregister-IsLost i _ id (record {
        unregistered = a.unregistered;
        empty = a.empty;
        pending = rw (other j i apart) v.pending;
      })
  Step-IsLost i {n} (times_out j id e) v =
      unregister-IsLost i _ id (moved i n j _ (failed id timeout) v e (λ p. tt))
  Step-IsLost i {n} (stops j id e) v = moved i n j _ _ v e (λ p. tt)

  Reach-IsLost : (i : ℕ) {n m : Node} → Reach read n m → IsLost i n → IsLost i m
  Reach-IsLost i here v = v
  Reach-IsLost i (later a s) v = Step-IsLost i s (Reach-IsLost i a v)

  -- The node in which two requests have registered under one number.
  abbrev shared : (i j : ℕ) → Node → Node
  shared i j n =
      let id = n.next_id in
      register j id (register i id (count j id (count i id (load j (load i n)))))

  shared-Reach :
      (n : Node) (i j : ℕ)
      → i ≢ j
      → n.calls i ≡ idle
      → n.calls j ≡ idle
      → Reach read n (shared i j n)
  shared-Reach n i j d e f =
      let ij = other i j d in
      let ji = other j i (λ s. d (sym s)) in
      let ii = (==_iff i i).1 refl in
      let jj = (==_iff j j).1 refl in
      let id = n.next_id in
      let a = later here (loads i e) in
      let b = later a (loads j (rw ij f)) in
      let c = later b (counts i id (rw ji (rw ii refl))) in
      let g = later c (counts j id (rw ij (rw jj refl))) in
      let h = later g (registers i id (rw ji (rw ii refl))) in
      later h (registers j id (rw ij (rw jj refl)))

  shared_first : (n : Node) (i j : ℕ) → i ≢ j → (shared i j n).calls i ≡ waiting n.next_id
  shared_first n i j d = rw (other j i (λ s. d (sym s))) (rw ((==_iff i i).1 refl) refl)

  shared-IsLost :
      (n : Node) (i j : ℕ) → i ≢ j → IsMatched read (shared i j n) → IsLost i (shared i j n)
  shared-IsLost n i j d v = record {
    unregistered = λ id e.
        let same : some n.next_id ≡ some id =
          sym (ap id_of (shared_first n i j d)) ∙ v.handled id i e in
        let number = some-injective _ _ same in
        let holds : (shared i j n).handlers n.next_id ≡ some j =
          rw ((==_iff n.next_id n.next_id).1 refl) refl in
        let f : some j ≡ some i = sym holds ∙ (ap (shared i j n).handlers number ∙ e) in
        d (sym (some-injective _ _ f));
    empty = rw (other j i (λ s. d (sym s))) (rw ((==_iff i i).1 refl) refl);
    pending = subst IsPending (sym (shared_first n i j d)) tt;
  }

  -- From any node that a new one comes to, with two requests that have not begun, steps lead to one where
  -- both wait under one number, and from which the first is never answered, since the second has
  -- registered under their number.
  pub shared_number :
      (n : Node) (i j : ℕ)
      → Reach read new_node n
      → i ≢ j
      → n.calls i ≡ idle
      → n.calls j ≡ idle
      → (m : Node) × Reach read n m
        × m.calls i ≡ waiting n.next_id
        × m.calls j ≡ waiting n.next_id
        × ((o : Node) (id : ℕ) (r : Response) → Reach read m o → o.calls i ≢ answered id r)
  shared_number n i j a d e f =
      let b = shared-Reach n i j d e f in
      let v = Reach-IsMatched read b (Reach-IsMatched read a (new_node-IsMatched read)) in
      (
        shared i j n,
        b,
        shared_first n i j d,
        rw ((==_iff j j).1 refl) refl,
        λ o id r c g. subst IsPending g (Reach-IsLost i c (shared-IsLost n i j d v)).pending,
      )
