-- ===== src/Tests/Turns.antt =====
-- Examples: the transaction of a guess.
use num_duel.Prelude.{inl, ℕ, ◌≡◌, refl, Bool, true, false, some, List, [], ◌∷◌, text_eq}
use num_duel.Model.{
  Uuid, Text, Four, Game, Guess, DigitResult, hit, miss, ok, finished, is_deleted, is_master,
  is_participant, is_in_progress, can_guess, is_current_turn, is_hit, digit_result_int,
}
use num_duel.World.{World}
use num_duel.Crypto.Secret.{
  hash, hex, join_colon, digest, message, decimal, verify, verify_parts, split_colon,
}
use num_duel.Game.Judge.{hit_count, to_list, is_win, digit_results_to_ints}
use num_duel.Game.Rules.{add_game_guess, game_opponent_id, guess_text, finish_game}
use num_duel.Game.Play.{
  GuessOutcome, guess_tx, commit_guess, four_results, finish_game_service, increment_user_win_count,
}
use num_duel.Game.Play.Facts.{guess_tx-missing_loser}
use num_duel.Game.Play.Win.{Wins, commit_guess-Wins}
use num_duel.World.{with_tx}
use num_duel.Game.UseCase.{ensure_game_player}
use num_duel.Game.Validate.{validate_four_digits, scan_digits}
use num_duel.Game.Validate.Laws.{spell}
use num_duel.Tests.Memory.{env, player, digits, playing, tables, use_case, world}

-- The guesses 5687 and 5678.
abbrev eights : Four ℕ
eights = digits 5 6 8 7

abbrev sevens : Four ℕ
sevens = digits 5 6 7 8

abbrev two_hits : List DigitResult
two_hits = hit ∷ hit ∷ miss ∷ miss ∷ []

abbrev four_hits : List DigitResult
four_hits = hit ∷ hit ∷ hit ∷ hit ∷ []

abbrev guess_row : Four ℕ → Text → List DigitResult → ℕ → Guess
guess_row d text rs hits = record {
  id = 102;
  game_id = 10;
  player_id = 1;
  turn = 1;
  guess_number = text;
  digit_results = rs;
  hit_count = hits;
  is_auto = false;
  created_at = 1001;
  updated_at = 1001;
}

abbrev missed_row : Guess
missed_row = guess_row eights (53 ∷ 54 ∷ 56 ∷ 55 ∷ []) two_hits 2

abbrev won_row : Guess
won_row = guess_row sevens (53 ∷ 54 ∷ 55 ∷ 56 ∷ []) four_hits 4

abbrev passed : Game
passed = record playing { current_turn = 2; current_turn_player_id = some 2; updated_at = 1001 }

abbrev over : Game
over = record passed { status = finished; winner_id = some 1; finished_at = some 1001 }

abbrev outcome : List ℕ → ℕ → Bool → Uuid → GuessOutcome
outcome ints hits won winner = record {
  result = record {
    guess_id = 102;
    player_id = 1;
    turn = 1;
    digit_results = ints;
    hit_count = hits;
    is_win = won;
    is_auto = false;
    next_turn_player_id = some 2;
  };
  finished = won;
  winner = winner;
}

abbrev missed : GuessOutcome
missed = outcome (1 ∷ 1 ∷ 0 ∷ 0 ∷ []) 2 false 0

abbrev won : GuessOutcome
won = outcome (1 ∷ 1 ∷ 1 ∷ 1 ∷ []) 4 true 1

abbrev lonely : World
lonely = record (world playing) { db = tables (player 1 ∷ []) playing }

abbrev after_miss : World
after_miss = (guess_tx env 1 10 eights false (world playing)).1

abbrev after_win : World
after_win = (guess_tx env 1 10 sevens false (world playing)).1

abbrev after_lonely : World
after_lonely = (guess_tx env 1 10 sevens false lonely).1

miss-ok : guess_tx env 1 10 eights false (world playing) ≡ (ok missed, after_miss)
unfolding guess_tx finish_game_service increment_user_win_count finish_game split_colon
    is_participant is_in_progress can_guess is_current_turn game_opponent_id guess_text
    digit_results_to_ints is_hit text_eq to_list hash hex join_colon digest message decimal verify
    verify_parts add_game_guess hit_count is_win digit_result_int
miss-ok = refl

win-ok : guess_tx env 1 10 sevens false (world playing) ≡ (ok won, after_win)
unfolding guess_tx finish_game_service increment_user_win_count finish_game split_colon
    is_participant is_in_progress can_guess is_current_turn game_opponent_id guess_text
    digit_results_to_ints is_hit text_eq to_list hash hex join_colon digest message decimal verify
    verify_parts add_game_guess hit_count is_win digit_result_int
win-ok = refl

lonely-ok : guess_tx env 1 10 sevens false lonely ≡ (ok won, after_lonely)
unfolding guess_tx finish_game_service increment_user_win_count finish_game split_colon
    is_participant is_in_progress can_guess is_current_turn game_opponent_id guess_text
    digit_results_to_ints is_hit text_eq to_list hash hex join_colon digest message decimal verify
    verify_parts add_game_guess hit_count is_win digit_result_int
lonely-ok = refl

miss-judged : verify env.hmac env.uuid_text playing.player2_secret eights 10 2 ≡ ok two_hits
unfolding guess_tx finish_game_service increment_user_win_count finish_game split_colon
    is_participant is_in_progress can_guess is_current_turn game_opponent_id guess_text
    digit_results_to_ints is_hit text_eq to_list hash hex join_colon digest message decimal verify
    verify_parts add_game_guess hit_count is_win digit_result_int
miss-judged = refl

win-judged : verify env.hmac env.uuid_text playing.player2_secret sevens 10 2 ≡ ok four_hits
unfolding guess_tx finish_game_service increment_user_win_count finish_game split_colon
    is_participant is_in_progress can_guess is_current_turn game_opponent_id guess_text
    digit_results_to_ints is_hit text_eq to_list hash hex join_colon digest message decimal verify
    verify_parts add_game_guess hit_count is_win digit_result_int
win-judged = refl

miss-played :
    add_game_guess 102 playing 1 eights (four_results two_hits) false 1001 ≡ ok (missed_row, passed)
unfolding guess_tx finish_game_service increment_user_win_count finish_game split_colon
    is_participant is_in_progress can_guess is_current_turn game_opponent_id guess_text
    digit_results_to_ints is_hit text_eq to_list hash hex join_colon digest message decimal verify
    verify_parts add_game_guess hit_count is_win digit_result_int
miss-played = refl

win-played :
    add_game_guess 102 playing 1 sevens (four_results four_hits) false 1001 ≡ ok (won_row, passed)
unfolding guess_tx finish_game_service increment_user_win_count finish_game split_colon
    is_participant is_in_progress can_guess is_current_turn game_opponent_id guess_text
    digit_results_to_ints is_hit text_eq to_list hash hex join_colon digest message decimal verify
    verify_parts add_game_guess hit_count is_win digit_result_int
win-played = refl

won-finishes : finish_game passed 1 1001 ≡ ok over
unfolding finish_game is_in_progress
won-finishes = refl

passed-opponent : game_opponent_id passed 1 ≡ ok 2
unfolding game_opponent_id
passed-opponent = refl

four_hits-win : is_win (four_results four_hits) ≡ true
unfolding is_win is_hit
four_hits-win = refl

two_hits-miss : is_win (four_results two_hits) ≡ false
unfolding is_win is_hit
two_hits-miss = refl

abbrev crowned : World
crowned = (commit_guess env use_case 1 10 (spell sevens) false (world playing)).1

abbrev crowning : GuessOutcome
crowning = record won { result = record won.result { guess_id = 104 } }

crowned-ok :
    commit_guess env use_case 1 10 (spell sevens) false (world playing) ≡ (ok crowning, crowned)
unfolding commit_guess validate_four_digits scan_digits ensure_game_player with_tx is_deleted
    is_master guess_tx finish_game_service increment_user_win_count finish_game split_colon
    is_participant is_in_progress can_guess is_current_turn game_opponent_id guess_text
    digit_results_to_ints is_hit text_eq to_list hash hex join_colon digest message decimal verify
    verify_parts add_game_guess hit_count is_win digit_result_int
crowned-ok = refl

commit_guess-Wins_example : Wins env playing 1 2 (player 1) (player 2) (world playing).db crowned.db
commit_guess-Wins_example =
    commit_guess-Wins env use_case 1 10 2 (spell sevens) false (world playing) crowned crowning
      playing (player 1) (player 2) refl crowned-ok refl (inl (refl, refl)) refl refl

guess_tx-missing_loser_example :
    (after_lonely.db ≡ record lonely.db { guesses = won_row ∷ [] }) × (won.finished ≡ true)
guess_tx-missing_loser_example =
    guess_tx-missing_loser env 1 10 sevens false lonely after_lonely won playing refl lonely-ok
      four_hits win-judged won_row passed (won_row ∷ []) win-played refl (player 1) 2 four_hits-win
      passed-opponent refl refl

abbrev second_row : Guess
second_row = record missed_row { id = 103; player_id = 2; turn = 2 }

second-played :
    add_game_guess 103 passed 2 eights (four_results two_hits) false 1001
    ≡ ok (
      second_row,
      record passed { current_turn = 3; current_turn_player_id = some 1; updated_at = 1001 },
    )
unfolding guess_tx finish_game_service increment_user_win_count finish_game split_colon
    is_participant is_in_progress can_guess is_current_turn game_opponent_id guess_text
    digit_results_to_ints is_hit text_eq to_list hash hex join_colon digest message decimal verify
    verify_parts add_game_guess hit_count is_win digit_result_int
second-played = refl
