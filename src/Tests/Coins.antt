-- ===== src/Tests/Coins.antt =====
-- The choice of a coin, with an insertion sort.
use mathlib.Core.List.{Memᴰ}
use reflector_go.Publish.Coins.{Floats, Utxo, coin_chooser}
use reflector_go.Publish.Coins.Chosen.{IsSorted, IsSorting, IsChoice, coin_chooser-IsChoice}
use reflector_go.Prelude.{
  List, Str, ℕ, leb, true, ◌∷◌, bytes, ◌+◌, ◌≡◌, [], Bool-cases, if◌then◌else◌, All, refl, inl, ◌-◌,
  inr, arith, subst, ◌≢◌, ap, sym,
}
use reflector_go.Errors.{ok}

leb_refl : (a : ℕ) → leb a a ≡ true
leb_refl a = ground arith

abbrev whole_numbers : Floats
whole_numbers = record { Float = ℕ; at_most = leb; plus = ◌+◌; minus = ◌-◌; reflexive = leb_refl }

abbrev coin : Str → ℕ → Utxo whole_numbers
coin id amount = record { tx_id = id; vout = 0; amount = amount; spendable = true }

-- Sorting of at most one coin.
insert_coin : Utxo whole_numbers → List (Utxo whole_numbers) → List (Utxo whole_numbers)
insert_coin u [] = u ∷ []
insert_coin u (v ∷ utxos) =
    let rest = v ∷ insert_coin u utxos in if leb u.amount v.amount then u ∷ v ∷ utxos else rest

sort_coins : List (Utxo whole_numbers) → List (Utxo whole_numbers)
sort_coins [] = []
sort_coins (u ∷ utxos) = insert_coin u (sort_coins utxos)

insert_coin-All :
    (n : ℕ) (u : Utxo whole_numbers) (utxos : List (Utxo whole_numbers))
    → leb n u.amount ≡ true
    → All (λ v. leb n v.amount ≡ true) utxos
    → All (λ v. leb n v.amount ≡ true) (insert_coin u utxos)
unfolding insert_coin
insert_coin-All n u [] e all = (e, tt)
insert_coin-All n u (v ∷ utxos) e (f, all) = elim (Bool-cases (leb u.amount v.amount)) [
  | inl before ↦ rw before (e, (f, all))
  | inr behind ↦ rw behind (f, insert_coin-All n u utxos e all)
]

All-mono :
    (m n : ℕ) (utxos : List (Utxo whole_numbers))
    → leb m n ≡ true
    → All (λ v. leb n v.amount ≡ true) utxos
    → All (λ v. leb m v.amount ≡ true) utxos
All-mono m n [] l all = tt
All-mono m n (v ∷ utxos) l (e, all) = (ground arith, All-mono m n utxos l all)

insert_coin-IsSorted :
    (u : Utxo whole_numbers) (utxos : List (Utxo whole_numbers))
    → IsSorted whole_numbers utxos
    → IsSorted whole_numbers (insert_coin u utxos)
unfolding insert_coin
insert_coin-IsSorted u [] s = (tt, tt)
insert_coin-IsSorted u (v ∷ utxos) (below, s) = elim (Bool-cases (leb u.amount v.amount)) [
  | inl before ↦ rw before ((before, All-mono u.amount v.amount utxos before below), (below, s))
  | inr behind ↦
      let over : leb v.amount u.amount ≡ true = ground arith in
      rw behind (insert_coin-All v.amount u utxos over below, insert_coin-IsSorted u utxos s)
]

sort_coins-IsSorted :
    (utxos : List (Utxo whole_numbers)) → IsSorted whole_numbers (sort_coins utxos)
unfolding sort_coins
sort_coins-IsSorted [] = tt
sort_coins-IsSorted (u ∷ utxos) = insert_coin-IsSorted u _ (sort_coins-IsSorted utxos)

insert_coin-head :
    (u : Utxo whole_numbers) (utxos : List (Utxo whole_numbers)) → Memᴰ u (insert_coin u utxos)
unfolding insert_coin
insert_coin-head u [] = Memᴰ.head refl
insert_coin-head u (v ∷ utxos) = elim (Bool-cases (leb u.amount v.amount)) [
  | inl before ↦ rw before (Memᴰ.head refl)
  | inr behind ↦ rw behind (Memᴰ.tail (insert_coin-head u utxos))
]

insert_coin-tail :
    (u w : Utxo whole_numbers) (utxos : List (Utxo whole_numbers))
    → Memᴰ w utxos
    → Memᴰ w (insert_coin u utxos)
unfolding insert_coin
insert_coin-tail u w [] m = Memᴰ.tail m
insert_coin-tail u w (v ∷ utxos) (Memᴰ.head e) = elim (Bool-cases (leb u.amount v.amount)) [
  | inl before ↦ rw before (Memᴰ.tail (Memᴰ.head e))
  | inr behind ↦ rw behind (Memᴰ.head e)
]
insert_coin-tail u w (v ∷ utxos) (Memᴰ.tail m) = elim (Bool-cases (leb u.amount v.amount)) [
  | inl before ↦ rw before (Memᴰ.tail (Memᴰ.tail m))
  | inr behind ↦ rw behind (Memᴰ.tail (insert_coin-tail u w utxos m))
]

swapped :
    {u v w : Utxo whole_numbers} {utxos : List (Utxo whole_numbers)}
    → Memᴰ w (u ∷ utxos)
    → Memᴰ w (u ∷ v ∷ utxos)
swapped (Memᴰ.head e) = Memᴰ.head e
swapped (Memᴰ.tail m) = Memᴰ.tail (Memᴰ.tail m)

from_rest :
    (u v w : Utxo whole_numbers) (utxos : List (Utxo whole_numbers))
    → (Memᴰ w (insert_coin u utxos) → Memᴰ w (u ∷ utxos))
    → Memᴰ w (v ∷ insert_coin u utxos)
    → Memᴰ w (u ∷ v ∷ utxos)
from_rest u v w utxos back (Memᴰ.head e) = Memᴰ.tail (Memᴰ.head e)
from_rest u v w utxos back (Memᴰ.tail m) = swapped (back m)

mapped :
    {u v : Utxo whole_numbers} {xs ys : List (Utxo whole_numbers)}
    → Memᴰ u (v ∷ xs)
    → (Memᴰ u xs → Memᴰ u ys)
    → Memᴰ u (v ∷ ys)
mapped (Memᴰ.head e) f = Memᴰ.head e
mapped (Memᴰ.tail m) f = Memᴰ.tail (f m)

insert_coin-from :
    (u w : Utxo whole_numbers) (utxos : List (Utxo whole_numbers))
    → Memᴰ w (insert_coin u utxos)
    → Memᴰ w (u ∷ utxos)
unfolding insert_coin
insert_coin-from u w [] m = m
insert_coin-from u w (v ∷ utxos) m = elim (Bool-cases (leb u.amount v.amount)) [
  | inl before ↦ rw before at m
  | inr behind ↦ from_rest u v w utxos (insert_coin-from u w utxos) (rw behind at m)
]

kept_coins :
    (u : Utxo whole_numbers) (utxos : List (Utxo whole_numbers))
    → Memᴰ u utxos
    → Memᴰ u (sort_coins utxos)
unfolding sort_coins
kept_coins u [] m = m
kept_coins u (v ∷ utxos) (Memᴰ.head e) =
    subst (λ w. Memᴰ w (insert_coin v (sort_coins utxos))) (sym e) (insert_coin-head v _)
kept_coins u (v ∷ utxos) (Memᴰ.tail m) = insert_coin-tail v u _ (kept_coins u utxos m)

no_more_coins :
    (u : Utxo whole_numbers) (utxos : List (Utxo whole_numbers))
    → Memᴰ u (sort_coins utxos)
    → Memᴰ u utxos
unfolding sort_coins
no_more_coins u [] m = m
no_more_coins u (v ∷ utxos) m = mapped (insert_coin-from v u _ m) (no_more_coins u utxos)

sorting : IsSorting whole_numbers sort_coins
sorting = record { sorted = sort_coins-IsSorted; kept = kept_coins; no_more = no_more_coins }

abbrev coins : List (Utxo whole_numbers)
coins = coin (bytes "b") 7 ∷ coin (bytes "a") 4 ∷ []

named : (u : Utxo whole_numbers) → Memᴰ u coins → u.tx_id ≢ []
named u (Memᴰ.head e) f =
    let g : u.tx_id ≡ bytes "b" = ap (λ (w : Utxo whole_numbers). w.tx_id) e in cc
named u (Memᴰ.tail (Memᴰ.head e)) f =
    let g : u.tx_id ≡ bytes "a" = ap (λ (w : Utxo whole_numbers). w.tx_id) e in cc
named u (Memᴰ.tail (Memᴰ.tail m)) f = elim m [ ]

coin_chooser-IsChoice_example :
    IsChoice whole_numbers 3 coins (coin_chooser whole_numbers sort_coins (ok coins) 3)
coin_chooser-IsChoice_example = coin_chooser-IsChoice whole_numbers sort_coins sorting coins 3 named
