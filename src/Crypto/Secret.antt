-- ===== src/Crypto/Secret.antt =====
-- backend/crypto/secret.go: a secret number is stored as four keyed digests, one for each position.
-- HMAC-SHA256 under the pepper and the text of a UUID are arguments.
mod Split
pub mod Laws
use num_duel.Prelude.{
  ℕ, zero, suc, ◌+◌, ◌/◌, ◌%◌, Bool, List, [], ◌∷◌, ◌++◌, length, text_eq, ltb, ◌==◌, if◌then◌else◌,
}
use num_duel.Model.{Four, Text, Uuid, Result, ok, err, other, DigitResult, miss, hit}

-- `%d`, with fuel; the quotient falls below the fuel.
decimal_fuel : ℕ → ℕ → Text
decimal_fuel zero n = []
decimal_fuel (suc f) n =
    let high = decimal_fuel f (n / 10) in
    if ltb n 10 then (48 + n) ∷ [] else high ++ (48 + n % 10) ∷ []

unfoldable pub decimal : ℕ → Text
unfolding decimal_fuel
decimal n = decimal_fuel (suc n) n

abbrev pub hex_char : ℕ → ℕ
hex_char n = if ltb n 10 then 48 + n else 87 + n

-- `hex.EncodeToString`
unfoldable pub hex : List ℕ → Text
hex [] = []
hex (b ∷ bs) = hex_char (b / 16) ∷ hex_char (b % 16) ∷ hex bs

-- `strings.Split(s, ":")`
abbrev pub push_front : ℕ → List Text → List Text
push_front c [] = (c ∷ []) ∷ []
push_front c (p ∷ ps) = (c ∷ p) ∷ ps

unfoldable pub split_colon : Text → List Text
split_colon [] = [] ∷ []
split_colon (c ∷ s) = let rest = split_colon s in if c == 58 then [] ∷ rest else push_front c rest

-- `strings.Join(parts, ":")`
unfoldable pub join_colon : List Text → Text
join_colon [] = []
join_colon (p ∷ []) = p
join_colon (p ∷ q ∷ ps) = p ++ 58 ∷ join_colon (q ∷ ps)

abbrev pub compare_digest : Text → Text → DigitResult
compare_digest part expected = if text_eq part expected then hit else miss

module _ (hmac : Text → List ℕ) (uuid_text : Uuid → Text) where
  unfoldable pub message : Uuid → ℕ → ℕ → ℕ → Text
  unfolding decimal
  message game slot position digit =
      uuid_text game ++ (58 ∷ (decimal slot ++ (58 ∷ (decimal position ++ (58 ∷ decimal digit)))))

  unfoldable pub digest : Uuid → ℕ → ℕ → ℕ → Text
  digest game slot position digit = hex (hmac (message game slot position digit))

  -- `Hash`; it never fails.
  unfoldable pub hash : Four ℕ → Uuid → ℕ → Text
  hash digits game slot = join_colon (
      digest game slot 0 digits.d0
      ∷ digest game slot 1 digits.d1
      ∷ digest game slot 2 digits.d2
      ∷ digest game slot 3 digits.d3
      ∷ [])

  -- `Verify` after the split.
  unfoldable pub verify_parts : List Text → Four ℕ → Uuid → ℕ → Result (List DigitResult)
  verify_parts (p0 ∷ p1 ∷ p2 ∷ p3 ∷ []) guess game slot = ok (
      compare_digest p0 (digest game slot 0 guess.d0)
      ∷ compare_digest p1 (digest game slot 1 guess.d1)
      ∷ compare_digest p2 (digest game slot 2 guess.d2)
      ∷ compare_digest p3 (digest game slot 3 guess.d3)
      ∷ [])
  verify_parts _ guess game slot = err (other 0)

  unfoldable pub verify : Text → Four ℕ → Uuid → ℕ → Result (List DigitResult)
  unfolding verify_parts
  verify stored guess game slot = verify_parts (split_colon stored) guess game slot
