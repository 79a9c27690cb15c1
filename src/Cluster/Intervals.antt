-- ===== src/Cluster/Intervals.antt =====
-- The intervals of the members of a cluster.
use reflector_go.Cluster.{Member, interval_loop, get_hash_interval, names_of}
use reflector_go.Order.{
  sort_strings, mem_str, AreDistinct, mem_str-sort_strings, length-sort_strings,
  sort_strings-AreDistinct,
}
use reflector_go.Prelude.Int.{pos}
use reflector_go.Prelude.{
  List, Str, ◌∙◌, length, ℕ, arith, ◌≤◌, ◌≡◌, ◌<◌, sym, ◌∷◌, true, ◌+◌, suc, Bool-cases, [], str_eq,
  str_eq_iff, refl, ◌==◌, inl, str_eq_refl, inr,
}

loop_bounds :
    (a : Str) (names : List Str) (i k : ℕ)
    → interval_loop a names i ≡ pos k
    → (i ≤ k) × (k < i + length names)
unfolding interval_loop
loop_bounds a [] i k e = cc
loop_bounds a (n ∷ names) i k e = ground (arith, loop_bounds a names (suc i) k)

loop_one_name :
    (a b : Str) (names : List Str) (i k : ℕ)
    → interval_loop a names i ≡ pos k
    → interval_loop b names i ≡ pos k
    → a ≡ b
unfolding interval_loop
loop_one_name a b [] i k e f = cc
loop_one_name a b (n ∷ names) i k e f = ground (
  arith,
  loop_one_name a b names (suc i) k,
  loop_bounds a names (suc i) k,
  loop_bounds b names (suc i) k,
  str_eq_iff n a,
  str_eq_iff n b,
)

loop_finds :
    (a : Str) (names : List Str) (i : ℕ)
    → mem_str a names ≡ true
    → (k : ℕ) × (interval_loop a names i ≡ pos k)
unfolding interval_loop
loop_finds a [] i m = cc
loop_finds a (n ∷ names) i m = elim (Bool-cases (str_eq n a)) [
  | inl same ↦ (i, rw same refl)
  | inr other ↦ let (k, e) = loop_finds a names (suc i) (ground arith) in (k, rw other e)
]

loop_taken :
    (names : List Str) (i k : ℕ)
    → AreDistinct names
    → i ≤ k
    → k < i + length names
    → (a : Str) × (mem_str a names ≡ true) × (interval_loop a names i ≡ pos k)
unfolding interval_loop
loop_taken [] i k v lo hi = absurd (omega (arith, lo, hi))
loop_taken (n ∷ names) i k v lo hi = elim (Bool-cases (i == k)) [
  | inl here ↦ (n, rw (str_eq_refl n) refl, rw (str_eq_refl n) (ground arith))
  | inr there ↦
      let (a, m, e) = loop_taken names (suc i) k v.1 (ground arith) (ground arith) in
      (a, ground arith, ground (arith, str_eq_iff n a))
]

-- What the intervals of the members promise: each member has one, between 1 and their number, no
-- two members share one, and each is some member's.
pub record IsDivided (members : List Member) : Type 0 where
  pub within :
      (a : Str) (k : ℕ) → get_hash_interval a members ≡ pos k → (1 ≤ k) × (k ≤ length members)
  pub apart :
      (a b : Str) (k : ℕ)
      → get_hash_interval a members ≡ pos k
      → get_hash_interval b members ≡ pos k
      → a ≡ b
  pub given :
      (a : Str)
      → mem_str a (names_of members) ≡ true
      → (k : ℕ) × (get_hash_interval a members ≡ pos k)
  pub taken :
      (k : ℕ)
      → 1 ≤ k
      → k ≤ length members
      → (a : Str) × (mem_str a (names_of members) ≡ true) × (get_hash_interval a members ≡ pos k)

length-names_of : (members : List Member) → length (names_of members) ≡ length members
length-names_of [] = refl
length-names_of (m ∷ members) = omega (arith, length-names_of members)

-- The members of a cluster, if no two have the same name, divide the intervals among themselves: each
-- member has an interval, from 1 to their number, no two members have the same one, and every
-- interval is some member's.
pub get_hash_interval-IsDivided :
    (members : List Member) → AreDistinct (names_of members) → IsDivided members
unfolding get_hash_interval
get_hash_interval-IsDivided members v =
    let names = names_of members in
    let n = length-sort_strings names ∙ length-names_of members in
    record {
      within = λ a k e. omega (arith, loop_bounds a (sort_strings names) 1 k e, n);
      apart = λ a b k e f. loop_one_name a b (sort_strings names) 1 k e f;
      given = λ a m. loop_finds a (sort_strings names) 1 (mem_str-sort_strings a names ∙ m);
      taken = λ k lo hi.
          let (a, m, e) =
            loop_taken (sort_strings names) 1 k (sort_strings-AreDistinct names v) lo
              (omega (arith, hi, n)) in
          (a, sym (mem_str-sort_strings a names) ∙ m, e);
    }
