-- ===== src/Peer/Conversation/Replies.antt =====
-- What the client makes of the bytes that arrive of the server's response to its request for a blob.
use mathlib.Core.List.{append-nil}
use native.Mathlib.Decide.{dec_lt}
use reflector_go.Peer.Client
use reflector_go.Peer.Conversation.{
  broken_by, Error, external, Result, ok, err, Buffer, read_next_message, read_next_message-whole,
}
use reflector_go.Prelude.{
  ℕ, Bool, List, length, ◌≡◌, take, ◌++◌, ◌≤◌, false, Option, ◌-◌, [], ◌≢◌, ◌∷◌, some, arith, ◌<◌,
  Bool-cases, drop, refl, suc, none, ltb, take-append-drop, zero, length-drop, inl, inr,
}
use reflector_go.Peer.Message.Scan.{scan, finish, read_next_message-eq-scan}
use reflector_go.Peer.Message.Frames.{IsMessage, read_next_message-part}
use reflector_go.Errors.{blob_not_found}
use reflector_go.Peer.Message.{max_request_size}

pub take-append : (n : ℕ) (m b : List ℕ) → take n (m ++ b) ≡ take n m ++ take (n - length m) b
take-append zero m b = let none_left : 0 - length m ≡ 0 = omega arith in rw none_left refl
take-append (suc n) [] b = let all_left : suc n - 0 ≡ suc n = omega arith in rw all_left refl
take-append (suc n) (x ∷ m) b =
    let same : suc n - suc (length m) ≡ n - length m = omega arith in rw (same, take-append n m b)

pub take_all : (n : ℕ) (m : List ℕ) → length m ≤ n → take n m ≡ m
take_all zero [] l = refl
take_all zero (x ∷ m) l = absurd (omega arith)
take_all (suc n) [] l = refl
take_all (suc n) (x ∷ m) l = rw (take_all n m (omega arith))

-- The errors of the system, of the stream and of the JSON do not speak of a missing blob.
pub record IsSilent (mentions : Error → Bool) : Type 0 where
  pub system : (n : ℕ) → mentions (external n) ≡ false
  pub ended : mentions Client.eof ≡ false
  pub cut_short : mentions Client.unexpected_eof ≡ false
  pub too_large : mentions Client.request_too_large ≡ false

module _ (mentions : Error → Bool) where
  -- An error that the store does not take for a missing blob.
  abbrev pub IsOther : Error → Type 0
  IsOther e = (mentions e ≡ false) × (e ≢ blob_not_found)

  module _ (plain : IsSilent mentions) (valid_json : List ℕ → Bool) {Value : Type 0}
      (decode : List ℕ → Result Value) where
    abbrev pub decoded : Result (List ℕ) → Result Value
    decoded (ok m) = decode m
    decoded (err e) = err e

    -- What `read` returns, and what stays in the buffer.
    abbrev pub read_of : Buffer → Result Value × List ℕ
    read_of buf =
        let (r, rest) = read_next_message valid_json buf in (decoded (Client.received r), rest)

    -- The answer was not understood, or it was, and the bytes that are left are the first of `b`.
    pub data IsHeard (a : Value) (b : List ℕ) : Result Value × List ℕ → Type 0 where
      failed : {rest : List ℕ} (e : Error) → IsOther e → IsHeard a b (err e, rest)
      heard : (rest later : List ℕ) → rest ++ later ≡ b → IsHeard a b (ok a, rest)

    finish-IsHeard :
        (a : Value) (b p : List ℕ) (e : Option ℕ)
        → ((n : ℕ) × (decode p ≡ err (external n)))
        → IsHeard a b (decoded (Client.received (finish valid_json (broken_by e) p)), [])
    finish-IsHeard a b p (some n) bad = failed (external n) (plain.system n, λ f. cc)
    finish-IsHeard a b [] none bad = failed Client.eof (plain.ended, λ f. cc)
    finish-IsHeard a b (c ∷ p) none (n, bad) =
        elim (Bool-cases (ltb max_request_size (length (c ∷ p)))) [
          | inl big ↦ rw big (failed Client.request_too_large (plain.too_large, λ f. cc))
          | inr small ↦ rw (small, bad) (failed (external n) (plain.system n, λ f. cc))
        ]

    -- Nothing arrives.
    pub silence :
        (e : Option ℕ)
        → (x : Error) × IsOther x
          × (read_of (record { input = []; ending = broken_by e }) ≡ (err x, []))
    unfolding scan
    silence (some n) = (
      external n,
      (plain.system n, λ f. cc),
      rw (read_next_message-eq-scan valid_json (record { input = []; ending = some (external n) }))
          refl,
    )
    silence none = (
      Client.eof,
      (plain.ended, λ f. cc),
      rw (read_next_message-eq-scan valid_json (record { input = []; ending = none })) refl,
    )

    whole-IsHeard :
        (a : Value) (m b later : List ℕ) (e : Option Error)
        → IsMessage valid_json decode m a
        → IsHeard a (b ++ later) (read_of (record { input = m ++ b; ending = e }))
    whole-IsHeard a m b later e v =
        rw (read_next_message-whole valid_json m v.frame b e, v.decodes) (heard b later refl)

    pub all-IsHeard :
        (a : Value) (m b : List ℕ)
        → IsMessage valid_json decode m a
        → IsHeard a b (read_of (record { input = m ++ b; ending = none }))
    all-IsHeard a m b v =
        rw (read_next_message-whole valid_json m v.frame b none, v.decodes)
          (heard b [] (append-nil b))

    part-IsHeard :
        (a : Value) (m b p q : List ℕ) (e : Option ℕ)
        → IsMessage valid_json decode m a
        → p ++ q ≡ m
        → 0 < length q
        → IsHeard a b (read_of (record { input = p; ending = broken_by e }))
    part-IsHeard a m b p q e v f l =
        rw (read_next_message-part valid_json m v.frame p q (broken_by e) f l)
          (finish-IsHeard a b p e (v.parts p q f l))

    pub cut-IsHeard :
        (a : Value) (m b : List ℕ) (n : ℕ) (e : Option ℕ)
        → IsMessage valid_json decode m a
        → IsHeard a b (read_of (record { input = take n (m ++ b); ending = broken_by e }))
    cut-IsHeard a m b n e v = elim (dec_lt n (length m)) [
      | yes inside ↦
          let none_left : n - length m ≡ 0 = omega arith in
          rw (take-append n m b, none_left, append-nil (take n m))
            (part-IsHeard a m b (take n m) (drop n m) e v (take-append-drop n m)
              (omega (arith, length-drop n m)))
      | no behind ↦
          let k = n - length m in
          rw (take-append n m b, take_all n m (omega arith))
            (rw (take-append-drop k b) at (whole-IsHeard a m (take k b) (drop k b) (broken_by e) v))
    ]
