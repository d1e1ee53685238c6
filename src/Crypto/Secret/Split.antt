-- ===== src/Crypto/Secret/Split.antt =====
-- Splitting what was joined, and the alphabet of the digests.
use num_duel.Prelude.{ℕ, ◌/◌, ◌%◌, ◌≡◌, ◌≢◌, refl, List, [], ◌∷◌, ◌++◌, All, arith}
use num_duel.Model.{Text}
use num_duel.Crypto.Secret.{hex, hex_char, split_colon}

abbrev pub NoColon : Text → Type 0
NoColon = All (λ c. c ≢ 58)

pub split-append : (p rest : Text) → NoColon p → split_colon (p ++ 58 ∷ rest) ≡ p ∷ split_colon rest
unfolding split_colon
split-append [] rest h = refl
split-append (c ∷ p) rest (ne, h) = rw (split-append p rest h) (ground arith)

pub split_last : (p : Text) → NoColon p → split_colon p ≡ p ∷ []
unfolding split_colon
split_last [] h = refl
split_last (c ∷ p) (ne, h) = rw (split_last p h) (ground arith)

pub hex-NoColon : (bs : List ℕ) → NoColon (hex bs)
unfolding hex
hex-NoColon [] = tt
hex-NoColon (b ∷ bs) = (ground arith, (ground arith, hex-NoColon bs))

hex_char_injective : (a b : ℕ) → hex_char a ≡ hex_char b → a ≡ b
hex_char_injective a b h = ground arith

high_low : (x y : ℕ) → x / 16 ≡ y / 16 → x % 16 ≡ y % 16 → x ≡ y
high_low x y h l = omega arith

-- The two characters of a byte fix the byte.
hex_byte :
    (x y : ℕ)
    → hex_char (x / 16) ≡ hex_char (y / 16)
    → hex_char (x % 16) ≡ hex_char (y % 16)
    → x ≡ y
hex_byte x y h l = high_low x y (hex_char_injective _ _ h) (hex_char_injective _ _ l)

cons_injective : {a b : ℕ} {xs ys : List ℕ} → a ∷ xs ≡ b ∷ ys → (a ≡ b) × (xs ≡ ys)
cons_injective h = (cc, cc)

pub hex_injective : (xs ys : List ℕ) → hex xs ≡ hex ys → xs ≡ ys
unfolding hex
hex_injective [] [] h = refl
hex_injective [] (y ∷ ys) h = cc
hex_injective (x ∷ xs) [] h = cc
hex_injective (x ∷ xs) (y ∷ ys) h =
    let high = cons_injective h in
    let low = cons_injective high.1 in cc (hex_byte x y high.0 low.0, hex_injective xs ys low.1)
