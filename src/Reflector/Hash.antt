-- ===== src/Reflector/Hash.antt =====
-- reflector/server.go: `BlobHash`. `digest` stands for `sha512.Sum384`; `hex.EncodeToString` writes
-- two lower-case digits for each byte.
use reflector_go.Prelude.{
  List, ℕ, length, ◌≡◌, ◌<◌, All, if◌then◌else◌, Str, arith, ltb, ◌*◌, ◌∷◌, [], ◌+◌, ◌/◌, ◌-◌, ◌%◌,
  refl,
}

abbrev hex_digit : ℕ → ℕ
hex_digit n = if ltb n 10 then n + b'0' else n + b'a' - 10

unfoldable pub hex_encode : List ℕ → Str
hex_encode [] = []
hex_encode (b ∷ bs) = hex_digit (b / 16) ∷ hex_digit (b % 16) ∷ hex_encode bs

unfoldable pub blob_hash : (List ℕ → List ℕ) → List ℕ → Str
unfolding hex_encode
blob_hash digest blob = hex_encode (digest blob)

-- The hex text of a digest has two characters for each byte.
pub length-hex_encode : (bs : List ℕ) → length (hex_encode bs) ≡ 2 * length bs
unfolding hex_encode
length-hex_encode [] = omega arith
length-hex_encode (b ∷ bs) = omega (arith, length-hex_encode bs)

hex_digit_injective : (m n : ℕ) → m < 16 → n < 16 → hex_digit m ≡ hex_digit n → m ≡ n
hex_digit_injective m n p q e = ground arith

-- Every element is a byte.
abbrev pub IsBytes : List ℕ → Type 0
IsBytes bs = All (λ b. b < 256) bs

-- Different digests of bytes have different hashes.
pub hex_encode_injective :
    (xs ys : List ℕ) → IsBytes xs → IsBytes ys → hex_encode xs ≡ hex_encode ys → xs ≡ ys
unfolding hex_encode
hex_encode_injective [] [] p q e = refl
hex_encode_injective [] (b ∷ ys) p q e = cc
hex_encode_injective (a ∷ xs) [] p q e = cc
hex_encode_injective (a ∷ xs) (b ∷ ys) p q e = ground (
  arith,
  hex_encode_injective xs ys p.1 q.1,
  hex_digit_injective (a / 16) (b / 16),
  hex_digit_injective (a % 16) (b % 16),
)
