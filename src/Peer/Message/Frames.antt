-- ===== src/Peer/Message/Frames.antt =====
-- What `readNextMessage` makes of a stream that begins with a message, or with a part of one.
use mathlib.Core.List.{append_assoc, append-nil}
use reflector_go.Peer.Message.Scan.{finish, scan, read_next_message-eq-scan}
use reflector_go.Prelude.{
  List, ℕ, Bool, ◌++◌, Option, ◌∷◌, [], ◌≡◌, ◌==◌, true, arith, ◌<◌, length, ◌≤◌, false, ◌∙◌, ◌+◌,
  sym, length-append, ap, refl,
}
use reflector_go.Errors.{Error, Result, ok, err, external}
use reflector_go.Peer.Message.{max_request_size, read_next_message, Reading}

module _ (valid_json : List ℕ → Bool) where
  -- A message that the protocol can find the end of: it ends with a `}`, is JSON and small enough, and
  -- what it begins with is not JSON.
  pub record IsFrame (m : List ℕ) : Type 0 where
    pub closes : (p : List ℕ) (c : ℕ) → p ++ (c ∷ []) ≡ m → (c == b'}') ≡ true
    pub some_bytes : 0 < length m
    pub valid : valid_json m ≡ true
    pub fits : length m ≤ max_request_size
    pub early : (p r : List ℕ) → p ++ r ≡ m → 0 < length r → valid_json p ≡ false

  module _ (m : List ℕ) (v : IsFrame m) where
    whole :
        (e : Option Error) (p : List ℕ) (c : ℕ) (r rest : List ℕ)
        → p ++ (c ∷ r) ≡ m
        → scan valid_json e p (c ∷ (r ++ rest)) ≡ (Reading.message m, rest)
    unfolding scan
    whole e p c [] rest f = rw (v.closes p c f, f) (rw (v.valid) (ground (arith, v.fits)))
    whole e p c (d ∷ r) rest f =
        let now : (p ++ (c ∷ [])) ++ (d ∷ r) ≡ m = append_assoc p (c ∷ []) (d ∷ r) ∙ f in
        let small : length (p ++ (c ∷ [])) + length (d ∷ r) ≡ length m =
          sym (length-append (p ++ (c ∷ [])) (d ∷ r)) ∙ ap length now in
        let bound : length (p ++ (c ∷ [])) ≤ max_request_size = omega (arith, small, v.fits) in
        ground (
          arith,
          bound,
          v.early (p ++ (c ∷ [])) (d ∷ r) now (omega arith),
          whole e (p ++ (c ∷ [])) d r rest now,
        )

    whole_from :
        (e : Option Error) (n rest : List ℕ)
        → n ≡ m
        → scan valid_json e [] (n ++ rest) ≡ (Reading.message m, rest)
    whole_from e [] rest f = absurd (omega (arith, ap length f, v.some_bytes))
    whole_from e (c ∷ r) rest f = whole e [] c r rest f

    part :
        (e : Option Error) (p r : List ℕ) (c : ℕ) (s : List ℕ)
        → p ++ (r ++ (c ∷ s)) ≡ m
        → scan valid_json e p r ≡ (finish valid_json e (p ++ r), [])
    unfolding scan
    part e p [] c s f = rw (append-nil p)
    part e p (d ∷ r) c s f =
        let now : (p ++ (d ∷ [])) ++ (r ++ (c ∷ s)) ≡ m =
          append_assoc p (d ∷ []) (r ++ (c ∷ s)) ∙ f in
        let small : length (p ++ (d ∷ [])) + length (r ++ (c ∷ s)) ≡ length m =
          sym (length-append (p ++ (d ∷ [])) (r ++ (c ∷ s))) ∙ ap length now in
        let bound : length (p ++ (d ∷ [])) ≤ max_request_size = omega (arith, small, v.fits) in
        let next = part e (p ++ (d ∷ [])) r c s now in
        let same : (p ++ (d ∷ [])) ++ r ≡ p ++ (d ∷ r) = append_assoc p (d ∷ []) r in
        let more : 0 < length (r ++ (c ∷ s)) = omega (arith, length-append r (c ∷ s)) in
        ground (arith, bound, v.early (p ++ (d ∷ [])) (r ++ (c ∷ s)) now more, next, same)

    -- A stream that begins with the message: the and all that comes behind it is left.
    pub read_next_message-whole :
        (rest : List ℕ) (e : Option Error)
        → read_next_message valid_json (record { input = m ++ rest; ending = e })
          ≡ (Reading.message m, rest)
    read_next_message-whole rest e =
        read_next_message-eq-scan valid_json (record { input = m ++ rest; ending = e })
        ∙ whole_from e m rest refl

    -- A stream that is a part of the message.
    pub read_next_message-part :
        (r s : List ℕ) (e : Option Error)
        → r ++ s ≡ m
        → 0 < length s
        → read_next_message valid_json (record { input = r; ending = e })
          ≡ (finish valid_json e r, [])
    read_next_message-part r [] e f l = absurd (omega arith)
    read_next_message-part r (c ∷ s) e f l =
        read_next_message-eq-scan valid_json (record { input = r; ending = e }) ∙ part e [] r c s f

  -- What the bytes of a message say of a value, and how a part of them is read.
  pub record IsMessage {ℓ} {A : Type ℓ} (read : List ℕ → Result A) (m : List ℕ) (a : A)
      : Type ℓ where
    pub frame : IsFrame m
    pub decodes : read m ≡ ok a
    pub parts : (p r : List ℕ) → p ++ r ≡ m → 0 < length r → (n : ℕ) × (read p ≡ err (external n))
