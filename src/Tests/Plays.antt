-- ===== src/Tests/Plays.antt =====
-- Examples: moves and timeouts in the game of the two players.
use num_duel.Prelude.{
  ◌+◌, ℕ, ◌≡◌, ◌↔◌, refl, Bool, true, false, some, [], ◌∷◌, ◌++◌, arith, text_eq,
}
use mathlib.Core.List.{append_cancel_left}
use mathlib.Core.Option.{some-injective as some_injective}
use num_duel.Prelude.{Bool-cases, ◌==◌, inl, inr}
use num_duel.Crypto.Random.Laws.{decimal_digit}
use num_duel.Game.Invariant.Setup.{hash-not_empty}
use num_duel.Model.{
  is_deleted, is_master, is_in_progress, can_guess, is_current_turn, is_hit, digit_result_int,
}
use num_duel.World.{with_tx}
use num_duel.Game.Validate.{scan_digits}
use num_duel.Game.UseCase.{ensure_game_player}
use num_duel.Game.Rules.{game_opponent_id, guess_text}
use num_duel.Game.Judge.{digit_results_to_ints}
use num_duel.Model.{
  Uuid, Four, Game, Result, ok, err, not_your_turn, game_already_started, finished, is_participant,
  both_secrets_set,
}
use num_duel.World.{World}
use num_duel.Repository.Games.{game_has_id}
use num_duel.Crypto.Secret.{
  hash, hex, join_colon, digest, message, decimal, verify, verify_parts, split_colon,
}
use num_duel.Crypto.Secret.Laws.{NoCollision, verify-hash}
use num_duel.Game.Judge.{judge_digits, hit_count, to_list, is_win}
use num_duel.Game.Validate.{validate_four_digits}
use num_duel.Game.Validate.Laws.{IsSecret, spell}
use num_duel.Game.Rules.{add_game_guess, set_game_secret_hash, cancel_game_by_secret_timeout}
use num_duel.Game.Rules.Lifecycle.{IsValid, Reach-IsValid, Step, here, next, cancel}
use num_duel.Game.Play.{GuessOutcome, commit_guess, commit_secret, secret_tx, guess_tx}
use num_duel.Game.Judge.Laws.{agrees, agreement}
use num_duel.Game.Play.Verdict.{commit_guess-judges}
use num_duel.Game.Play.Moves.{commit_guess-err}
use num_duel.Game.Invariant.{AllValid}
use num_duel.Game.Invariant.Requests.{commit_guess-AllValid, commit_secret-AllValid}
use num_duel.Tests.Memory.{
  env, env-RollsBack, env-KeyedGames, same_text, no_text, digits, playing, waiting, world, use_case,
  first_row,
}

pub same-NoCollision : NoCollision same_text no_text 10 2
unfolding message decimal
same-NoCollision position a b ha hb h =
    let digit = append_cancel_left (58 ∷ []) _ _ (
      append_cancel_left (decimal position) _ _
        (append_cancel_left (58 ∷ (decimal 2 ++ 58 ∷ [])) _ _ h)) in
    ground (arith, digit, decimal_digit a ha, decimal_digit b hb)

abbrev pub eights : Four ℕ
eights = digits 5 6 8 7

abbrev pub guessed : Result GuessOutcome × World
guessed = commit_guess env use_case 1 10 (spell eights) false (world playing)

abbrev pub outcome : GuessOutcome
outcome = record {
  result = record {
    guess_id = 104;
    player_id = 1;
    turn = 1;
    digit_results = 1 ∷ 1 ∷ 0 ∷ 0 ∷ [];
    hit_count = 2;
    is_win = false;
    is_auto = false;
    next_turn_player_id = some 2;
  };
  finished = false;
  winner = 0;
}

pub guessed-ok : guessed ≡ (ok outcome, guessed.1)
unfolding commit_guess validate_four_digits scan_digits ensure_game_player guess_tx with_tx
    split_colon is_deleted is_master is_participant is_in_progress can_guess is_current_turn
    game_opponent_id guess_text digit_results_to_ints is_hit text_eq to_list hash hex join_colon
    digest message decimal verify verify_parts add_game_guess hit_count is_win digit_result_int
guessed-ok = refl

pub number-IsSecret : IsSecret (digits 5 6 7 8)
number-IsSecret = record {
  le0 = omega arith;
  le1 = omega arith;
  le2 = omega arith;
  le3 = omega arith;
  ne01 = omega arith;
  ne02 = omega arith;
  ne03 = omega arith;
  ne12 = omega arith;
  ne13 = omega arith;
  ne23 = omega arith;
}

pub playing-IsValid : IsValid playing
unfolding both_secrets_set is_participant
playing-IsValid = ground (
  arith,
  hash-not_empty same_text no_text (digits 1 2 3 4) 10 1,
  hash-not_empty same_text no_text (digits 5 6 7 8) 10 2,
)

pub waiting-IsValid : IsValid waiting
unfolding both_secrets_set is_participant
waiting-IsValid = ground arith

one-AllValid :
    (one : Game) (id : Uuid) (g : Game)
    → IsValid one
    → first_row (game_has_id id) (one ∷ []) ≡ some g
    → IsValid g
one-AllValid one id g v h = elim (Bool-cases (one.id == id)) [
  | inl same ↦ rw (some_injective one g (rw same at h)) at v
  | inr other ↦ absurd (ground arith)
]

pub playing-AllValid : AllValid env (world playing).db
playing-AllValid id g h = one-AllValid playing id g playing-IsValid h

pub waiting-AllValid : AllValid env (world waiting).db
waiting-AllValid id g h = one-AllValid waiting id g waiting-IsValid h

commit_guess-judges_example :
    (d : Four ℕ) × (spell eights ≡ spell d)
    × (outcome.result.digit_results ≡ agreement (digits 5 6 7 8) d)
    × (2 ≡ agrees 5 d.d0 + agrees 6 d.d1 + agrees 7 d.d2 + agrees 8 d.d3)
    × ((false ≡ true) ↔ (spell eights ≡ spell (digits 5 6 7 8)))
commit_guess-judges_example =
    commit_guess-judges env use_case 1 10 (spell eights) false (world playing) guessed.1 outcome
      playing (digits 5 6 7 8) refl refl number-IsSecret same-NoCollision guessed-ok

commit_guess-AllValid_example : AllValid env guessed.1.db
commit_guess-AllValid_example =
    commit_guess-AllValid env use_case 1 10 (spell eights) false (world playing) guessed.1
      (ok outcome) env-KeyedGames env-RollsBack guessed-ok playing-AllValid

abbrev chosen : Result Bool × World
chosen = commit_secret env use_case 2 10 (spell eights) (world waiting)

chosen-ok : chosen ≡ (ok false, chosen.1)
unfolding commit_secret validate_four_digits scan_digits ensure_game_player secret_tx with_tx
    set_game_secret_hash hash hex join_colon digest message decimal both_secrets_set is_participant
    is_deleted is_master
chosen-ok = refl

commit_secret-AllValid_example : AllValid env chosen.1.db
commit_secret-AllValid_example =
    commit_secret-AllValid env use_case 2 10 (spell eights) (world waiting) chosen.1 (ok false)
      env-KeyedGames env-RollsBack chosen-ok waiting-AllValid

abbrev early : Result GuessOutcome × World
early = commit_guess env use_case 2 10 (spell eights) false (world playing)

early-err : early ≡ (err not_your_turn, early.1)
unfolding commit_guess validate_four_digits scan_digits ensure_game_player guess_tx with_tx
    split_colon is_deleted is_master is_participant is_in_progress can_guess is_current_turn
    game_opponent_id guess_text digit_results_to_ints is_hit text_eq to_list hash hex join_colon
    digest message decimal verify verify_parts add_game_guess hit_count is_win digit_result_int
early-err = refl

commit_guess-err_example : early.1.db ≡ (world playing).db
commit_guess-err_example =
    commit_guess-err env use_case 2 10 (spell eights) false (world playing) early.1 not_your_turn
      env-RollsBack early-err

abbrev again : Result Bool × World
again = commit_secret env use_case 2 10 (spell eights) (world playing)

again-err : again ≡ (err game_already_started, again.1)
unfolding commit_secret validate_four_digits scan_digits ensure_game_player secret_tx with_tx
    is_participant is_deleted is_master
again-err = refl

verify-hash_example :
    verify same_text no_text (hash same_text no_text (digits 5 6 7 8) 10 2) (digits 5 6 7 8) 10 2
    ≡ ok (to_list (judge_digits (digits 5 6 7 8) (digits 5 6 7 8)))
verify-hash_example =
    verify-hash same_text no_text 10 2 same-NoCollision (digits 5 6 7 8) (digits 5 6 7 8)
      number-IsSecret number-IsSecret

abbrev pub cancelled_game : Game
cancelled_game = record waiting { status = finished; finished_at = some 9; updated_at = 9 }

pub cancel_step : Step waiting cancelled_game
unfolding cancel_game_by_secret_timeout
cancel_step = cancel waiting cancelled_game 9 refl

Reach-IsValid_example : IsValid cancelled_game
Reach-IsValid_example = Reach-IsValid (next here cancel_step) waiting-IsValid
