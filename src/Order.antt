-- ===== src/Order.antt =====
-- The order of Go strings, byte by byte, and sorting by it.
use reflector_go.Prelude.{
  List, Str, Bool, length, ◌≡◌, ◌∷◌, any, true, str_eq, arith, false, if◌then◌else◌, suc, [], ltb,
  str_eq_iff, ◌||◌, refl, ◌==◌, ◌&&◌,
}

-- `a <= b` on strings.
unfoldable pub str_leb : Str → Str → Bool
str_leb [] t = true
str_leb (c ∷ s) [] = false
str_leb (c ∷ s) (d ∷ t) = if ltb c d then true else (c == d) && str_leb s t

pub str_leb_total : (s t : Str) → str_leb s t ≡ false → str_leb t s ≡ true
unfolding str_leb
str_leb_total [] t e = ground arith
str_leb_total (c ∷ s) [] e = refl
str_leb_total (c ∷ s) (d ∷ t) e = ground (arith, str_leb_total s t)

pub str_leb_trans : (s t u : Str) → str_leb s t ≡ true → str_leb t u ≡ true → str_leb s u ≡ true
unfolding str_leb
str_leb_trans [] t u p q = refl
str_leb_trans (c ∷ s) [] u p q = ground arith
str_leb_trans (c ∷ s) (d ∷ t) [] p q = ground arith
str_leb_trans (c ∷ s) (d ∷ t) (e ∷ u) p q = ground (arith, str_leb_trans s t u)

pub str_leb_refl : (s : Str) → str_leb s s ≡ true
unfolding str_leb
str_leb_refl [] = refl
str_leb_refl (c ∷ s) = ground (arith, str_leb_refl s)

-- `sort.Strings`
abbrev pub insert_str : Str → List Str → List Str
insert_str s [] = s ∷ []
insert_str s (t ∷ ts) = let rest = insert_str s ts in if str_leb s t then s ∷ t ∷ ts else t ∷ rest

abbrev pub sort_strings : List Str → List Str
sort_strings [] = []
sort_strings (s ∷ ss) = insert_str s (sort_strings ss)

abbrev pub mem_str : Str → List Str → Bool
mem_str h hashes = any (λ k. str_eq k h) hashes

-- No string stands twice in the list.
abbrev pub AreDistinct : List Str → Type 0
AreDistinct [] = Unit
AreDistinct (s ∷ ss) = (mem_str s ss ≡ false) × AreDistinct ss

mem_str-insert_str :
    (h s : Str) (ts : List Str) → mem_str h (insert_str s ts) ≡ (str_eq s h || mem_str h ts)
mem_str-insert_str h s [] = ground arith
mem_str-insert_str h s (t ∷ ts) = ground (arith, mem_str-insert_str h s ts)

pub mem_str-sort_strings : (h : Str) (ss : List Str) → mem_str h (sort_strings ss) ≡ mem_str h ss
mem_str-sort_strings h [] = refl
mem_str-sort_strings h (s ∷ ss) =
    ground (arith, mem_str-insert_str h s (sort_strings ss), mem_str-sort_strings h ss)

length-insert_str : (s : Str) (ts : List Str) → length (insert_str s ts) ≡ suc (length ts)
length-insert_str s [] = refl
length-insert_str s (t ∷ ts) = ground (arith, length-insert_str s ts)

pub length-sort_strings : (ss : List Str) → length (sort_strings ss) ≡ length ss
length-sort_strings [] = refl
length-sort_strings (s ∷ ss) =
    omega (arith, length-insert_str s (sort_strings ss), length-sort_strings ss)

insert_str-AreDistinct :
    (s : Str) (ts : List Str)
    → mem_str s ts ≡ false
    → AreDistinct ts
    → AreDistinct (insert_str s ts)
insert_str-AreDistinct s [] new v = (refl, tt)
insert_str-AreDistinct s (t ∷ ts) new v =
    ground (
      arith,
      insert_str-AreDistinct s ts,
      mem_str-insert_str t s ts,
      str_eq_iff s t,
      str_eq_iff t s,
    )

pub sort_strings-AreDistinct : (ss : List Str) → AreDistinct ss → AreDistinct (sort_strings ss)
sort_strings-AreDistinct [] v = tt
sort_strings-AreDistinct (s ∷ ss) v =
    insert_str-AreDistinct s (sort_strings ss) (ground (arith, mem_str-sort_strings s ss))
      (sort_strings-AreDistinct ss v.1)
