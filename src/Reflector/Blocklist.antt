-- ===== src/Reflector/Blocklist.antt =====
-- reflector/blocklist.go: the update of the blocklist. What the API answers, what the wallet servers say of a
-- claim, and whether the stopper is stopped at a look at it are inputs. Go goes through its map in any
-- order: `visit`. The texts of errors leave out the names that the code adds to them.
pub mod Blocks
use reflector_go.Split.{split, atoi}
use reflector_go.Errors.{Error, Result, ok, err, error_text, Done}
use reflector_go.Prelude.Dict
use reflector_go.Prelude.Dict.{Dict}
use reflector_go.Prelude.Int.{ℤ}
use reflector_go.Prelude.{Bool, Str, List, Option, ◌∷◌, some, [], if◌then◌else◌, none}

-- The JSON of the API.
pub record ListBlocked : Type 0 where
  pub success : Bool
  pub error : Str
  pub outpoints : List Str

-- `valOrErr`
abbrev pub ValOrErr : Type 0
ValOrErr = Result Str

module _ (get_claim_in_tx : Str → ℤ → Result Str) where
  abbrev pub look_up : Str → Option ℤ → ValOrErr
  look_up txid none = err (error_text "invalid nout")
  look_up txid (some nout) = get_claim_in_tx txid nout

  -- The value for the parts of an outpoint.
  abbrev pub parts_value : List Str → ValOrErr
  parts_value (txid ∷ nout ∷ []) = look_up txid (atoi nout)
  parts_value _ = err (error_text "invalid outpoint format")

  unfoldable pub outpoint_value : Str → ValOrErr
  outpoint_value outpoint = parts_value (split b':' outpoint)

  -- The loop of `sdHashesForOutpoints`, which looks at the stopper in each round.
  unfoldable pub outpoint_loop : List Str → List Bool → Dict ValOrErr → Dict ValOrErr
  unfolding outpoint_value
  outpoint_loop [] looks values = values
  outpoint_loop (o ∷ outpoints) [] values =
      outpoint_loop outpoints [] (Dict.insert o (outpoint_value o) values)
  outpoint_loop (o ∷ outpoints) (stopped ∷ looks) values =
      let rest = outpoint_loop outpoints looks (Dict.insert o (outpoint_value o) values) in
      if stopped then values else rest

  -- `sdHashesForOutpoints`; `connected` is what `node.Connect` answers.
  unfoldable pub sd_hashes_for_outpoints : Done → List Str → List Bool → Result (Dict ValOrErr)
  unfolding outpoint_loop
  sd_hashes_for_outpoints (ok u) outpoints looks = ok (outpoint_loop outpoints looks [])
  sd_hashes_for_outpoints (err e) outpoints looks = err e

  -- `blockedSdHashes`, from what the request to the API answers.
  unfoldable pub blocked_sd_hashes : Done → Result ListBlocked → List Bool → Result (Dict ValOrErr)
  unfolding sd_hashes_for_outpoints
  blocked_sd_hashes connected (err e) looks = err e
  blocked_sd_hashes connected (ok r) looks =
      if r.success
      then sd_hashes_for_outpoints connected r.outpoints looks
      else err (error_text "list_blocked API call")

  module _ (State : Type 0) (block : Str → State → Done × State) where
    abbrev pub logged : Done → List Error → List Error
    logged (ok u) errors = errors
    logged (err e) errors = e ∷ errors

    -- The loop of `updateBlocklist`, with the errors that it logs.
    unfoldable pub block_loop : List (Str × ValOrErr) → State → List Error × State
    block_loop [] s = ([], s)
    block_loop ((name, err e) ∷ values) s = let (errors, t) = block_loop values s in (e ∷ errors, t)
    block_loop ((name, ok hash) ∷ values) s =
        let (r, s') = block hash s in let (errors, t) = block_loop values s' in (logged r errors, t)

    abbrev pub block_values :
        (List (Str × ValOrErr) → List (Str × ValOrErr))
        → Result (Dict ValOrErr)
        → State
        → List Error × State
    block_values visit (ok values) s = block_loop (visit values) s
    block_values visit (err e) s = (e ∷ [], s)

    -- `updateBlocklist`
    unfoldable pub update_blocklist :
        (List (Str × ValOrErr) → List (Str × ValOrErr))
        → Done
        → Result ListBlocked
        → List Bool
        → State
        → List Error × State
    unfolding blocked_sd_hashes block_loop
    update_blocklist visit connected answer looks s =
        block_values visit (blocked_sd_hashes connected answer looks) s
