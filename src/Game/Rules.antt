-- ===== src/Game/Rules.antt =====
-- backend/usecase/game_logic.go: the changes of one game. A function that fails has not touched the
-- game yet, so it returns the new game or an error.
pub mod Lifecycle
use num_duel.Prelude.{
  ℕ, ◌+◌, Bool, not, ◌&&◌, ◌||◌, Option, none, some, List, [], ◌∷◌, ◌++◌, ◌==◌, if◌then◌else◌,
}
use num_duel.Model.{
  Uuid, Time, Text, Four, Game, Guess, DigitResult, Result, ok, err, forbidden, bad_request,
  game_not_started, not_your_turn, game_already_finished, other, waiting_secret, in_progress,
  finished, is_waiting_secret, is_in_progress, is_empty, both_secrets_set, can_guess, ◌>>=◌,
}
use num_duel.Game.Judge.{to_list, hit_count}
use num_duel.Crypto.Secret.{decimal}

unfoldable pub game_player_slot : Game → Uuid → Result ℕ
game_player_slot game user =
    if user == game.player1_id
    then ok 1
    else if user == game.player2_id
    then ok 2
    else err forbidden

unfoldable pub set_game_secret_hash : Game → Uuid → Text → Result Game
set_game_secret_hash game user hash =
    if user == game.player1_id
    then (if not (is_empty game.player1_secret)
        then err bad_request
        else ok (record game { player1_secret = hash }))
    else if user == game.player2_id
    then (if not (is_empty game.player2_secret)
        then err bad_request
        else ok (record game { player2_secret = hash }))
    else err forbidden

unfoldable pub start_game : Game → Time → Result Game
unfolding is_waiting_secret both_secrets_set
start_game game now =
    if not (is_waiting_secret game.status) || not (both_secrets_set game)
    then err bad_request
    else ok (record game {
      status = in_progress;
      current_turn = 1;
      current_turn_player_id = some game.player1_id;
      started_at = some now;
      updated_at = now;
    })

unfoldable pub game_opponent_id : Game → Uuid → Result Uuid
game_opponent_id game user =
    if user == game.player1_id
    then ok game.player2_id
    else if user == game.player2_id
    then ok game.player1_id
    else err forbidden

unfoldable pub game_opponent_secret_hash : Game → Uuid → Result (Text × ℕ)
game_opponent_secret_hash game user =
    if user == game.player1_id
    then ok (game.player2_secret, 2)
    else if user == game.player2_id
    then ok (game.player1_secret, 1)
    else err forbidden

-- `fmt.Sprintf("%d%d%d%d", …)`
unfoldable pub guess_text : Four ℕ → Text
unfolding decimal
guess_text d = decimal d.d0 ++ (decimal d.d1 ++ (decimal d.d2 ++ decimal d.d3))

-- The fresh UUID stands first; the game after the guess is returned with the guess.
unfoldable pub add_game_guess :
    Uuid → Game → Uuid → Four ℕ → Four DigitResult → Bool → Time → Result (Guess × Game)
unfolding is_in_progress can_guess game_opponent_id
add_game_guess fresh game user digits results is_auto now =
    if not (is_in_progress game.status)
    then err game_not_started
    else if not (can_guess game user)
    then err not_your_turn
    else game_opponent_id game user >>= λ next. ok (
      record {
        id = fresh;
        game_id = game.id;
        player_id = user;
        turn = game.current_turn;
        guess_number = guess_text digits;
        digit_results = to_list results;
        hit_count = hit_count results;
        is_auto = is_auto;
        created_at = now;
        updated_at = now;
      },
      record game {
        current_turn = game.current_turn + 1;
        current_turn_player_id = some next;
        updated_at = now;
      },
    )

unfoldable pub finish_game : Game → Uuid → Time → Result Game
unfolding is_in_progress
finish_game game winner now =
    if not (is_in_progress game.status)
    then err game_already_finished
    else if not (winner == game.player1_id) && not (winner == game.player2_id)
    then err (other 4)
    else ok (record game {
      status = finished;
      winner_id = some winner;
      finished_at = some now;
      updated_at = now;
    })

unfoldable pub cancel_game_by_secret_timeout : Game → Time → Result Game
unfolding is_waiting_secret
cancel_game_by_secret_timeout game now =
    if not (is_waiting_secret game.status)
    then err bad_request
    else ok (record game { status = finished; finished_at = some now; updated_at = now })
