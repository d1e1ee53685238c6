-- ===== src/Game/Judge.antt =====
-- backend/usecase/judge.go: comparing a guess with a secret.
pub mod Laws
use num_duel.Prelude.{ℕ, ◌+◌, Bool, ◌&&◌, List, [], ◌∷◌, map, ◌==◌, if◌then◌else◌}
use num_duel.Model.{Four, DigitResult, miss, hit, is_hit, digit_result_int}

-- The loop over the four positions is written out. `results[:]` is the list of an array.
unfoldable pub to_list : {A : Type 0} → Four A → List A
to_list f = f.d0 ∷ f.d1 ∷ f.d2 ∷ f.d3 ∷ []

unfoldable pub judge_digit : ℕ → ℕ → DigitResult
judge_digit secret guess = if secret == guess then hit else miss

unfoldable pub judge_digits : Four ℕ → Four ℕ → Four DigitResult
unfolding judge_digit
judge_digits secret guess = record {
  d0 = judge_digit secret.d0 guess.d0;
  d1 = judge_digit secret.d1 guess.d1;
  d2 = judge_digit secret.d2 guess.d2;
  d3 = judge_digit secret.d3 guess.d3;
}

unfoldable pub is_win : Four DigitResult → Bool
unfolding is_hit
is_win r = is_hit r.d0 && is_hit r.d1 && is_hit r.d2 && is_hit r.d3

count_hits : ℕ → List DigitResult → ℕ
count_hits n [] = n
count_hits n (r ∷ rs) = count_hits (elim r [ hit ↦ n + 1 | miss ↦ n ]) rs

unfoldable pub hit_count : Four DigitResult → ℕ
unfolding count_hits to_list
hit_count r = count_hits 0 (to_list r)

unfoldable pub digit_results_to_ints : List DigitResult → List ℕ
digit_results_to_ints = map digit_result_int
