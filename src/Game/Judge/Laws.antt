-- ===== src/Game/Judge/Laws.antt =====
-- What the judgement of a guess says about the digits.
use num_duel.Prelude.{ℕ, ◌+◌, ◌≤◌, ◌≡◌, true, ◌↔◌, List, [], ◌∷◌, ◌==◌, if◌then◌else◌, arith}
use num_duel.Model.{Four, DigitResult, digit_result_int}
use num_duel.Game.Judge.{
  judge_digit, judge_digits, is_win, hit_count, to_list, digit_results_to_ints,
}

-- A guess wins exactly when it is the secret.
pub is_win-judge_digits : (s g : Four ℕ) → (is_win (judge_digits s g) ≡ true) ↔ (s ≡ g)
unfolding judge_digits is_win
is_win-judge_digits s g = ground arith

-- At most four hits are counted, and four exactly when the guess wins.
pub hit_count-is_win :
    (r : Four DigitResult) → (hit_count r ≤ 4) × ((hit_count r ≡ 4) ↔ (is_win r ≡ true))
unfolding hit_count is_win
hit_count-is_win r = ground arith

-- 1 at a position where two secrets agree, and 0 elsewhere.
abbrev pub agrees : ℕ → ℕ → ℕ
agrees a b = if a == b then 1 else 0

abbrev pub agreement : Four ℕ → Four ℕ → List ℕ
agreement s d = agrees s.d0 d.d0 ∷ agrees s.d1 d.d1 ∷ agrees s.d2 d.d2 ∷ agrees s.d3 d.d3 ∷ []

pub judge_digits-agreement :
    (s d : Four ℕ)
    → (digit_results_to_ints (to_list (judge_digits s d)) ≡ agreement s d)
      × (hit_count (judge_digits s d)
          ≡ agrees s.d0 d.d0 + agrees s.d1 d.d1 + agrees s.d2 d.d2 + agrees s.d3 d.d3)
unfolding judge_digits judge_digit digit_results_to_ints to_list hit_count digit_result_int
judge_digits-agreement s d = ground arith
