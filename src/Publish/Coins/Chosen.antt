-- ===== src/Publish/Coins/Chosen.antt =====
-- The coin that `coinChooser` takes is the smallest that serves.
use mathlib.Core.List.{Memᴰ}
use reflector_go.Publish.Coins.{
  Floats, Utxo, Input, suits, first_suiting, chosen_input, coin_chooser, Result, ok, err,
}
use reflector_go.Prelude.{
  List, ◌≡◌, ◌∷◌, Option, All, ◌≢◌, [], false, Bool-cases, true, subst, some, sym, inl, str_eq_ne,
  ◌∙◌, inr, none, refl,
}

module _ (floats : Floats) where
  open floats use {Float, at_most}

  -- No coin comes before a smaller one.
  abbrev pub IsSorted : List (Utxo floats) → Type 0
  IsSorted [] = Unit
  IsSorted (u ∷ utxos) = All (λ v. at_most u.amount v.amount ≡ true) utxos × IsSorted utxos

  -- What `sort.Slice` promises.
  pub record IsSorting (sort : List (Utxo floats) → List (Utxo floats)) : Type 0 where
    pub sorted : (utxos : List (Utxo floats)) → IsSorted (sort utxos)
    pub kept : (u : Utxo floats) (utxos : List (Utxo floats)) → Memᴰ u utxos → Memᴰ u (sort utxos)
    pub no_more :
        (u : Utxo floats) (utxos : List (Utxo floats)) → Memᴰ u (sort utxos) → Memᴰ u utxos

  -- What the result says: a smallest coin that serves, or that none serves.
  abbrev pub IsChoice : Float → List (Utxo floats) → Result (List Input × Float) → Type 0
  IsChoice needed utxos (ok (inputs, total)) =
      (u : Utxo floats) × Memᴰ u utxos
      × (suits floats needed u ≡ true)
      × (inputs ≡ (u.tx_id, u.vout) ∷ [])
      × (total ≡ u.amount)
      × ((v : Utxo floats)
          → Memᴰ v utxos
          → suits floats needed v ≡ true
          → at_most u.amount v.amount ≡ true)
  IsChoice needed utxos (err e) = (v : Utxo floats) → Memᴰ v utxos → suits floats needed v ≡ false

  abbrev IsFirst : Float → List (Utxo floats) → Option (Utxo floats) → Type 0
  IsFirst needed utxos none = (v : Utxo floats) → Memᴰ v utxos → suits floats needed v ≡ false
  IsFirst needed utxos (some u) =
      Memᴰ u utxos
      × (suits floats needed u ≡ true)
      × ((v : Utxo floats)
          → Memᴰ v utxos
          → suits floats needed v ≡ true
          → at_most u.amount v.amount ≡ true)

  All-at :
      (P : Utxo floats → Type 0) (utxos : List (Utxo floats)) (v : Utxo floats)
      → All P utxos
      → Memᴰ v utxos
      → P v
  All-at P [] v all m = elim m [ ]
  All-at P (u ∷ utxos) v (p, all) (Memᴰ.head e) = subst P (sym e) p
  All-at P (u ∷ utxos) v (p, all) (Memᴰ.tail m) = All-at P utxos v all m

  suited :
      (needed : Float) (u : Utxo floats) (utxos : List (Utxo floats))
      → All (λ v. at_most u.amount v.amount ≡ true) utxos
      → (v : Utxo floats) → Memᴰ v (u ∷ utxos)
      → at_most u.amount v.amount ≡ true
  suited needed u utxos below v (Memᴰ.head e) =
      subst (λ w. at_most u.amount w.amount ≡ true) (sym e) (floats.reflexive u.amount)
  suited needed u utxos below v (Memᴰ.tail m) =
      All-at (λ w. at_most u.amount w.amount ≡ true) utxos v below m

  unsuited :
      (needed : Float) (u v : Utxo floats) {utxos : List (Utxo floats)}
      → suits floats needed u ≡ false
      → Memᴰ v (u ∷ utxos)
      → suits floats needed v ≡ true
      → Memᴰ v utxos
  unsuited needed u v no_ (Memᴰ.head e) yes_ =
      let f : suits floats needed u ≡ true = subst (λ w. suits floats needed w ≡ true) e yes_ in
      let g : true ≡ false = sym f ∙ no_ in cc
  unsuited needed u v no_ (Memᴰ.tail m) yes_ = m

  not_suited :
      (needed : Float) (u v : Utxo floats) {utxos : List (Utxo floats)}
      → suits floats needed u ≡ false
      → ((w : Utxo floats) → Memᴰ w utxos → suits floats needed w ≡ false)
      → Memᴰ v (u ∷ utxos)
      → suits floats needed v ≡ false
  not_suited needed u v no_ rest (Memᴰ.head e) =
      subst (λ w. suits floats needed w ≡ false) (sym e) no_
  not_suited needed u v no_ rest (Memᴰ.tail m) = rest v m

  IsFirst-later :
      (needed : Float) (u : Utxo floats) (utxos : List (Utxo floats)) (o : Option (Utxo floats))
      → suits floats needed u ≡ false
      → IsFirst needed utxos o
      → IsFirst needed (u ∷ utxos) o
  IsFirst-later needed u utxos none no_ p = λ v m. not_suited needed u v no_ p m
  IsFirst-later needed u utxos (some w) no_ (there, yes_, least) =
      (Memᴰ.tail there, yes_, λ v m f. least v (unsuited needed u v no_ m f) f)

  first_suiting-IsFirst :
      (needed : Float) (utxos : List (Utxo floats))
      → IsSorted utxos
      → IsFirst needed utxos (first_suiting floats needed utxos)
  unfolding first_suiting
  first_suiting-IsFirst needed [] s = λ v m. elim m [ ]
  first_suiting-IsFirst needed (u ∷ utxos) (below, s) = elim (Bool-cases (suits floats needed u)) [
    | inl yes_ ↦ rw yes_ (Memᴰ.head refl, yes_, λ v m f. suited needed u utxos below v m)
    | inr no_ ↦ rw no_ (IsFirst-later needed u utxos _ no_ (first_suiting-IsFirst needed utxos s))
  ]

  module _ (sort : List (Utxo floats) → List (Utxo floats)) (sorting : IsSorting sort) where
    chosen_input-IsChoice :
        (needed : Float) (utxos : List (Utxo floats)) (o : Option (Utxo floats))
        → ((u : Utxo floats) → Memᴰ u utxos → u.tx_id ≢ [])
        → IsFirst needed (sort utxos) o
        → IsChoice needed utxos (chosen_input floats o)
    chosen_input-IsChoice needed utxos none named p = λ v m. p v (sorting.kept v utxos m)
    chosen_input-IsChoice needed utxos (some u) named (there, yes_, least) =
        let m = sorting.no_more u utxos there in
        rw (str_eq_ne u.tx_id [] (named u m))
          (u, m, yes_, refl, refl, λ v n f. least v (sorting.kept v utxos n) f)

    -- If all coins have ids, `coinChooser` takes a spendable coin that holds the amount, and none of
    -- those that do is smaller; it fails only if there is none.
    pub coin_chooser-IsChoice :
        (utxos : List (Utxo floats)) (needed : Float)
        → ((u : Utxo floats) → Memᴰ u utxos → u.tx_id ≢ [])
        → IsChoice needed utxos (coin_chooser floats sort (ok utxos) needed)
    unfolding coin_chooser
    coin_chooser-IsChoice utxos needed named =
        chosen_input-IsChoice needed utxos _ named
          (first_suiting-IsFirst needed (sort utxos) (sorting.sorted utxos))
