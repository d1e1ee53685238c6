-- ===== src/Game/Validate.antt =====
-- backend/usecase/game_validate.go: the digits of a secret or a guess. The input is its bytes: a byte
-- above 127 starts a rune that is no digit, so the loop over the runes stops there.
pub mod Laws
use num_duel.Prelude.{
  ℕ, suc, ◌+◌, ◌-◌, Bool, ◌||◌, List, [], ◌∷◌, length, contains, ltb, ◌==◌, if◌then◌else◌, Option,
  none, some,
}
use num_duel.Prelude.Int.{ℤ, pos, negsuc}
use num_duel.Model.{Four, Text, Result, Err, ok, err, bad_digit, bad_digit_length, duplicate_digit}

-- `digits[i] = d`
abbrev pub put : ℕ → ℕ → Four ℕ → Four ℕ
put i d f =
    if i == 0
    then record f { d0 = d }
    else if i == 1
    then record f { d1 = d }
    else if i == 2
    then record f { d2 = d }
    else record f { d3 = d }

abbrev pub zeros : Four ℕ
zeros = record { d0 = 0; d1 = 0; d2 = 0; d3 = 0 }

-- The loop, with the position, the bytes ahead, the set `seen` and the array.
unfoldable pub scan_digits : ℕ → Text → List ℕ → Four ℕ → Result (Four ℕ)
scan_digits i [] seen digits = ok digits
scan_digits i (ch ∷ rest) seen digits =
    let d = ch - 48 in
    let next = scan_digits (suc i) rest (d ∷ seen) (put i d digits) in
    if ltb ch 48 || ltb 57 ch
    then err bad_digit
    else if contains d seen
    then err duplicate_digit
    else next

unfoldable pub validate_four_digits : Text → Result (Four ℕ)
validate_four_digits input =
    if length input == 4 then scan_digits 0 input [] zeros else err bad_digit_length

-- The loop of `ValidateFourDigitsArray`, whose digits may be negative; no error is none. The set
-- has only digits that passed the first test.
unfoldable pub scan_array : List ℤ → List ℕ → Option Err
scan_array [] seen = none
scan_array (negsuc n ∷ rest) seen = some bad_digit
scan_array (pos d ∷ rest) seen =
    let next = scan_array rest (d ∷ seen) in
    if ltb 9 d then some bad_digit else if contains d seen then some duplicate_digit else next

unfoldable pub validate_four_digits_array : Four ℤ → Option Err
validate_four_digits_array digits =
    scan_array (digits.d0 ∷ digits.d1 ∷ digits.d2 ∷ digits.d3 ∷ []) []
