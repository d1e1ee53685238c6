-- ===== src/Game/Validate/Laws.antt =====
-- Which texts pass validation, and what comes back.
use num_duel.Prelude.{
  ℕ, suc, ◌+◌, ◌-◌, ◌≤◌, ◌≡◌, ◌≢◌, ◌↔◌, false, List, [], ◌∷◌, contains, length, arith, none,
}
use num_duel.Model.{Four, Text, ok, err, bad_digit_length, ok_injective}
use num_duel.Game.Validate.{
  put, zeros, scan_digits, validate_four_digits, scan_array, validate_four_digits_array,
}
use num_duel.Prelude.Int.{ℤ, pos}

-- The digits as text.
abbrev pub spell : Four ℕ → Text
spell f = (48 + f.d0) ∷ (48 + f.d1) ∷ (48 + f.d2) ∷ (48 + f.d3) ∷ []

-- Four decimal digits, no two of them equal.
pub record IsSecret (f : Four ℕ) : Type 0 where
  pub le0 : f.d0 ≤ 9
  pub le1 : f.d1 ≤ 9
  pub le2 : f.d2 ≤ 9
  pub le3 : f.d3 ≤ 9
  pub ne01 : f.d0 ≢ f.d1
  pub ne02 : f.d0 ≢ f.d2
  pub ne03 : f.d0 ≢ f.d3
  pub ne12 : f.d1 ≢ f.d2
  pub ne13 : f.d1 ≢ f.d3
  pub ne23 : f.d2 ≢ f.d3

-- What one round of the loop has checked, when the whole loop succeeds.
scan_step :
    (i ch : ℕ) (rest : Text) (seen : List ℕ) (digits : Four ℕ) {f : Four ℕ}
    → scan_digits i (ch ∷ rest) seen digits ≡ ok f
    → (48 ≤ ch)
      × (ch ≤ 57)
      × (contains (ch - 48) seen ≡ false)
      × (scan_digits (suc i) rest ((ch - 48) ∷ seen) (put i (ch - 48) digits) ≡ ok f)
unfolding scan_digits
scan_step i ch rest seen digits h = ground arith

-- The facts of four rounds together.
four_rounds :
    (a b c d : ℕ) (f : Four ℕ)
    → (48 ≤ a) × (a ≤ 57)
    → (48 ≤ b) × (b ≤ 57) × (contains (b - 48) ((a - 48) ∷ []) ≡ false)
    → (48 ≤ c) × (c ≤ 57) × (contains (c - 48) ((b - 48) ∷ (a - 48) ∷ []) ≡ false)
    → (48 ≤ d) × (d ≤ 57) × (contains (d - 48) ((c - 48) ∷ (b - 48) ∷ (a - 48) ∷ []) ≡ false)
    → record { d0 = a - 48; d1 = b - 48; d2 = c - 48; d3 = d - 48 } ≡ f
    → (a ∷ b ∷ c ∷ d ∷ [] ≡ spell f) × IsSecret f
four_rounds a b c d f ha hb hc hd e = rw (← e) (ground arith)

-- Four bytes that the loop accepts.
scan_sound :
    (a b c d : ℕ) (f : Four ℕ)
    → scan_digits 0 (a ∷ b ∷ c ∷ d ∷ []) [] zeros ≡ ok f
    → (a ∷ b ∷ c ∷ d ∷ [] ≡ spell f) × IsSecret f
unfolding scan_digits
scan_sound a b c d f h =
    let r1 = scan_step 0 a (b ∷ c ∷ d ∷ []) [] zeros h in
    let r2 = scan_step 1 b (c ∷ d ∷ []) ((a - 48) ∷ []) (put 0 (a - 48) zeros) r1.3 in
    let r3 =
      scan_step 2 c (d ∷ []) ((b - 48) ∷ (a - 48) ∷ []) (put 1 (b - 48) (put 0 (a - 48) zeros))
        r2.3 in
    let r4 =
      scan_step 3 d [] ((c - 48) ∷ (b - 48) ∷ (a - 48) ∷ [])
        (put 2 (c - 48) (put 1 (b - 48) (put 0 (a - 48) zeros))) r3.3 in
    four_rounds a b c d f (r1.0, r1.1) (r2.0, r2.1, r2.2) (r3.0, r3.1, r3.2) (r4.0, r4.1, r4.2)
      (ok_injective r4.3)

-- Any other length is refused.
pub validate_length : (s : Text) → length s ≢ 4 → validate_four_digits s ≡ err bad_digit_length
unfolding validate_four_digits
validate_length s h = ground arith

pub validate_sound :
    (s : Text) (f : Four ℕ) → validate_four_digits s ≡ ok f → (s ≡ spell f) × IsSecret f
unfolding validate_four_digits
validate_sound [] f h = cc
validate_sound (a ∷ []) f h = cc
validate_sound (a ∷ b ∷ []) f h = cc
validate_sound (a ∷ b ∷ c ∷ []) f h = cc
validate_sound (a ∷ b ∷ c ∷ d ∷ []) f h = scan_sound a b c d f h
validate_sound (a ∷ b ∷ c ∷ d ∷ e ∷ r) f h =
    cc (validate_length (a ∷ b ∷ c ∷ d ∷ e ∷ r) (omega arith))

pub validate-spell : (f : Four ℕ) → IsSecret f → validate_four_digits (spell f) ≡ ok f
unfolding validate_four_digits scan_digits
validate-spell f v = ground arith

-- A text passes validation with certain digits exactly when it spells them, they are decimal, and
-- no two are equal.
pub validate_iff :
    (s : Text) (f : Four ℕ) → (validate_four_digits s ≡ ok f) ↔ ((s ≡ spell f) × IsSecret f)
validate_iff s f = (validate_sound s f, λ h. rw h.0 (validate-spell f h.1))

-- The array of digits, as Go's integers.
abbrev ints : Four ℕ → Four ℤ
ints f = record { d0 = pos f.d0; d1 = pos f.d1; d2 = pos f.d2; d3 = pos f.d3 }

-- What one round over the array has checked.
array_step :
    (d : ℕ) (rest : List ℤ) (seen : List ℕ)
    → scan_array (pos d ∷ rest) seen ≡ none
    → (d ≤ 9) × (contains d seen ≡ false) × (scan_array rest (d ∷ seen) ≡ none)
unfolding scan_array
array_step d rest seen h = ground arith

array-IsSecret : (f : Four ℕ) → validate_four_digits_array (ints f) ≡ none → IsSecret f
unfolding validate_four_digits_array
array-IsSecret f h =
    let r0 = array_step f.d0 (pos f.d1 ∷ pos f.d2 ∷ pos f.d3 ∷ []) [] h in
    let r1 = array_step f.d1 (pos f.d2 ∷ pos f.d3 ∷ []) (f.d0 ∷ []) r0.2 in
    let r2 = array_step f.d2 (pos f.d3 ∷ []) (f.d1 ∷ f.d0 ∷ []) r1.2 in
    let r3 = array_step f.d3 [] (f.d2 ∷ f.d1 ∷ f.d0 ∷ []) r2.2 in ground arith

IsSecret-array : (f : Four ℕ) → IsSecret f → validate_four_digits_array (ints f) ≡ none
unfolding validate_four_digits_array scan_array
IsSecret-array f v = ground arith

-- An array of digits passes its validation exactly when the text of the digits passes.
array_iff :
    (f : Four ℕ)
    → (validate_four_digits_array (ints f) ≡ none) ↔ (validate_four_digits (spell f) ≡ ok f)
array_iff f = (
  λ h. validate-spell f (array-IsSecret f h),
  λ h. IsSecret-array f (validate_sound (spell f) f h).1,
)
