-- ===== src/Split.antt =====
-- `strings.Split` by one character, and `strconv.Atoi`.
use mathlib.Core.List.{append_assoc, append-nil}
use reflector_go.Prelude.Int.{ℤ, pos, negsuc}
use reflector_go.Prelude.{
  Option, Str, ℕ, some, ◌≡◌, List, none, All, ◌∷◌, ◌++◌, if◌then◌else◌, suc, [], ◌==◌, zero, ◌^◌,
  ◌*◌, false, leb, ◌-◌, ◌+◌, ◌&&◌, refl, arith, sym, ◌≢◌, Bool-cases, inl, inr, ◌∙◌, ap, true,
}

unfoldable pub split_from : ℕ → Str → Str → List Str
split_from sep [] part = part ∷ []
split_from sep (c ∷ s) part =
    let rest = split_from sep s [] in
    let more = split_from sep s (part ++ (c ∷ [])) in if c == sep then part ∷ rest else more

abbrev pub split : ℕ → Str → List Str
split sep s = split_from sep s []

-- The digits of a number, or that one is not a digit or none is there.
unfoldable pub digits : Str → ℕ → Option ℕ
digits [] n = some n
digits (c ∷ s) n =
    let rest = digits s (10 * n + (c - b'0')) in if leb b'0' c && leb c b'9' then rest else none

abbrev pub number : Str → Option ℕ
number [] = none
number (c ∷ s) = digits (c ∷ s) 0

abbrev pub at_most : ℕ → Option ℕ → Option ℕ
at_most n none = none
at_most n (some m) = if leb m n then some m else none

abbrev pub positive : Option ℕ → Option ℤ
positive none = none
positive (some n) = some (pos n)

abbrev pub negative : Option ℕ → Option ℤ
negative none = none
negative (some zero) = some (pos 0)
negative (some (suc n)) = some (negsuc n)

-- `strconv.Atoi`, where `none` is an error: an `int` has 64 bits.
unfoldable pub atoi : Str → Option ℤ
unfolding digits
atoi [] = none
atoi (c ∷ s) =
    if c == b'-'
    then negative (at_most (2 ^ 63) (number s))
    else if c == b'+'
    then positive (at_most (2 ^ 63 - 1) (number s))
    else positive (at_most (2 ^ 63 - 1) (number (c ∷ s)))

-- The separator is not in the text.
abbrev pub Lacks : ℕ → Str → Type 0
Lacks sep s = All (λ c. (c == sep) ≡ false) s

split_from_last : (sep : ℕ) (s part : Str) → Lacks sep s → split_from sep s part ≡ (part ++ s) ∷ []
unfolding split_from
split_from_last sep [] part v = rw (append-nil part) refl
split_from_last sep (c ∷ s) part v =
    rw v.0 (rw (split_from_last sep s (part ++ (c ∷ [])) v.1, append_assoc part (c ∷ []) s) refl)

split_from_part :
    (sep : ℕ) (s rest part : Str)
    → Lacks sep s
    → split_from sep (s ++ (sep ∷ rest)) part ≡ (part ++ s) ∷ split sep rest
unfolding split_from
split_from_part sep [] rest part v = rw (append-nil part) (ground arith)
split_from_part sep (c ∷ s) rest part v =
    rw v.0
      (rw (split_from_part sep s rest (part ++ (c ∷ [])) v.1, append_assoc part (c ∷ []) s) refl)

-- A text without the separator is its one part.
pub split_last : (sep : ℕ) (s : Str) → Lacks sep s → split sep s ≡ s ∷ []
split_last sep s v = split_from_last sep s [] v

-- The part before the first separator, and the parts behind it.
pub split_part :
    (sep : ℕ) (s rest : Str) → Lacks sep s → split sep (s ++ (sep ∷ rest)) ≡ s ∷ split sep rest
split_part sep s rest v = split_from_part sep s rest [] v

-- `strings.Join`
unfoldable pub join : ℕ → List Str → Str
join sep [] = []
join sep (s ∷ []) = s
join sep (s ∷ t ∷ parts) = s ++ (sep ∷ join sep (t ∷ parts))

join-cons :
    (sep : ℕ) (s : Str) (parts : List Str)
    → parts ≢ []
    → join sep (s ∷ parts) ≡ s ++ (sep ∷ join sep parts)
unfolding join
join-cons sep s [] ne = absurd (ne refl)
join-cons sep s (p ∷ parts) ne = refl

split_from_some : (sep : ℕ) (s part : Str) → split_from sep s part ≢ []
unfolding split_from
split_from_some sep [] part e = cc
split_from_some sep (c ∷ s) part e = ground (arith, split_from_some sep s (part ++ (c ∷ [])))

same_char : (sep c : ℕ) → (c == sep) ≡ true → sep ≡ c
same_char sep c e = ground arith

join-split_from : (sep : ℕ) (s part : Str) → join sep (split_from sep s part) ≡ part ++ s
unfolding split_from join
join-split_from sep [] part = sym (append-nil part)
join-split_from sep (c ∷ s) part = elim (Bool-cases (c == sep)) [
  | inl same ↦ rw same (
      join-cons sep part (split sep s) (split_from_some sep s [])
      ∙ ap (λ x. part ++ (sep ∷ x)) (join-split_from sep s [])
      ∙ ap (λ k. part ++ (k ∷ s)) (same_char sep c same))
  | inr other ↦ rw other (join-split_from sep s (part ++ (c ∷ [])) ∙ append_assoc part (c ∷ []) s)
]

-- The parts put together again are the text.
pub join-split : (sep : ℕ) (s : Str) → join sep (split sep s) ≡ s
join-split sep s = join-split_from sep s []
