-- ===== src/Publish/Coins.antt =====
-- publish/publish.go: `coinChooser`, `baseTx`. The calls of lbrycrd, the sorting of `sort.Slice` and the
-- arithmetic of float64 are parameters.
pub mod Chosen
use reflector_go.Prelude.{
  Bool, List, Option, Str, ℕ, none, ◌&&◌, ◌≡◌, true, ◌∷◌, if◌then◌else◌, some, str_eq, [],
}
use reflector_go.Errors.{Result, ok, err, error_text}

-- float64, as far as the amounts use it.
pub record Floats : Type 1 where
  pub Float : Type 0
  -- `a <= b`
  pub at_most : Float → Float → Bool
  pub plus : Float → Float → Float
  pub minus : Float → Float → Float
  -- There is no NaN among the amounts, since they come from JSON.
  pub reflexive : (a : Float) → at_most a a ≡ true

-- `btcjson.TransactionInput`
abbrev pub Input : Type 0
Input = Str × ℕ

module _ (floats : Floats) where
  open floats use {Float, at_most, plus, minus}

  -- `btcjson.ListUnspentResult`
  pub record Utxo : Type 0 where
    pub tx_id : Str
    pub vout : ℕ
    pub amount : Float
    pub spendable : Bool

  -- `u.Spendable && u.Amount >= amount`
  abbrev pub suits : Float → Utxo → Bool
  suits needed u = u.spendable && at_most needed u.amount

  -- The loop: the first that suits.
  unfoldable pub first_suiting : Float → List Utxo → Option Utxo
  first_suiting needed [] = none
  first_suiting needed (u ∷ utxos) =
      let rest = first_suiting needed utxos in if suits needed u then some u else rest

  -- `if utxo.TxID == ""`: no utxo was found, or one without an id.
  abbrev pub chosen_input : Option Utxo → Result (List Input × Float)
  chosen_input none = err (error_text "not enough utxos to create tx")
  chosen_input (some u) =
      if str_eq u.tx_id []
      then err (error_text "not enough utxos to create tx")
      else ok ((u.tx_id, u.vout) ∷ [], u.amount)

  module _ (sort : List Utxo → List Utxo) where
    -- `coinChooser`, behind `client.ListUnspentMin`
    unfoldable pub coin_chooser : Result (List Utxo) → Float → Result (List Input × Float)
    unfolding first_suiting
    coin_chooser (err e) needed = err e
    coin_chooser (ok utxos) needed = chosen_input (first_suiting needed (sort utxos))

    module _ {Tx : Type 0} (tx_fee : Float) (new_amount : Float → Result ℕ)
        (create_raw_transaction : List Input → Str → ℕ → Result Tx) where
      abbrev pub with_change : Result ℕ → List Input → Str → Result Tx
      with_change (ok change) inputs address = create_raw_transaction inputs address change
      with_change (err e) inputs address = err e

      abbrev pub tx_of : Result (List Input × Float) → Float → Str → Result Tx
      tx_of (err e) amount address = err e
      tx_of (ok (inputs, total)) amount address =
          with_change (new_amount (minus (minus total amount) tx_fee)) inputs address

      -- `baseTx`
      unfoldable pub base_tx : Result (List Utxo) → Float → Str → Result Tx
      unfolding coin_chooser
      base_tx unspent amount change_address =
          tx_of (coin_chooser unspent (plus amount tx_fee)) amount change_address
