-- ===== src/Tests/Wallets.antt =====
-- The wallet's requests at concrete inputs.
use reflector_go.Wallet.Node.{
  Reach, Node, Parsed, Response, read_response, new_node, here, later, waiting, answered, load,
  receive, count, register, deliver, hear,
}
use reflector_go.Wallet.Node.{loads, counts, registers, delivers, receives}
use reflector_go.Wallet.Node.Answers.{IsHeard, answered-IsHeard}
use reflector_go.Wallet.Node.Race.{shared_number}
use reflector_go.Prelude.{List, [], ℕ, ◌∷◌, ◌≡◌, Str, Option, ◌≢◌, none, refl, some, str_eq}
use reflector_go.Errors.{err, ok, Error, error_text}

-- A server that answers the request that its message begins with.
abbrev unmarshal : List ℕ → Parsed × Option Error
unmarshal (id ∷ bytes_) = (record { id = id; error_code = 0; error_message = [] }, none)
unmarshal [] = (record { id = 0; error_code = 0; error_message = [] }, some (error_text "json"))

abbrev unmarshal_nested : List ℕ → Parsed × Option Error
unmarshal_nested bytes_ =
    (record { id = 0; error_code = 0; error_message = [] }, some (error_text "json"))

abbrev text : ℕ → Str → Error
text code s = error_text "answer"

abbrev read : List ℕ → ℕ × Response
read = read_response unmarshal unmarshal_nested text

refused : read [] ≡ (0, err (error_text "json"))
refused = refl

abbrev with_response : Node
with_response =
    receive 4 0 (ok (0 ∷ 7 ∷ []))
      (deliver 4 (ok (0 ∷ 7 ∷ [])) (hear (0 ∷ 7 ∷ []) (register 4 0 (count 4 0 (load 4 new_node)))))

to_response : Reach read new_node with_response
unfolding str_eq
to_response =
    let a : Reach read new_node (load 4 new_node) = later here (loads 4 refl) in
    let b : Reach read new_node (count 4 0 (load 4 new_node)) = later a (counts 4 0 refl) in
    let c : Reach read new_node (register 4 0 (count 4 0 (load 4 new_node))) =
      later b (registers 4 0 refl) in
    let d = later c (delivers 4 (0 ∷ 7 ∷ []) refl refl) in
    later d (receives 4 0 (ok (0 ∷ 7 ∷ [])) refl refl)

answered-IsHeard_example : IsHeard read ((0 ∷ 7 ∷ []) ∷ []) 0 (ok (0 ∷ 7 ∷ []))
answered-IsHeard_example =
    answered-IsHeard read with_response 4 0 (ok (0 ∷ 7 ∷ [])) to_response refl

shared_number_example :
    (m : Node) × Reach read new_node m
    × m.calls 4 ≡ waiting 0
    × m.calls 5 ≡ waiting 0
    × ((o : Node) (id : ℕ) (r : Response) → Reach read m o → o.calls 4 ≢ answered id r)
shared_number_example = shared_number read new_node 4 5 here (λ e. cc) refl refl
