-- ===== src/Game/UseCase.antt =====
-- backend/usecase/game.go: what a game use case is built with, the state shown to a player, and the
-- check of the player. A store or a service may be absent, which the code tests for.
use num_duel.Prelude.{ℕ, Bool, true, false, not, ◌&&◌, Option, none, some, map, ◌==◌, if◌then◌else◌}
use num_duel.Model.{
  Uuid, Game, User, Guess, unauthorized, forbidden, not_found, is_deleted, is_master,
  is_participant, is_in_progress, rate_limit_exceeded,
}
use num_duel.World.{
  M, Env, GuessSummary, GameStateOutput, Payload, game_state_sync, Key, send, get_now, pure, when,
  fail_if, or_throw, ◌>>=◌, ◌>>◌,
}
use num_duel.Repository.Games.{
  find_game_by_id, list_guesses_by_game_and_player, count_by_game_excluding_player,
}
use num_duel.Repository.Users.{find_user_by_id}
use num_duel.RedisStore.{acquire_lock, remaining_seconds}
use num_duel.Game.Judge.{digit_results_to_ints}

pub record GameUseCase : Type 0 where
  pub locks : Bool
  pub turns : Bool
  pub random : Bool
  pub notifier : Bool
  pub turn_duration : ℕ
  pub secret_setup : ℕ
  pub game_lock_ttl : ℕ

pub summarize : Guess → GuessSummary
summarize r = record {
  turn = r.turn;
  guess_number = r.guess_number;
  digit_results = digit_results_to_ints r.digit_results;
  hit_count = r.hit_count;
  is_auto = r.is_auto;
}

-- `opponentID` of buildGameState.
abbrev pub other_player : Game → Uuid → Uuid
other_player game user = if user == game.player2_id then game.player1_id else game.player2_id

-- A deleted or unknown user, and a master.
abbrev pub user_gone : Option User → Bool
user_gone none = true
user_gone (some u) = is_deleted u

abbrev pub user_is_master : Option User → Bool
user_is_master none = false
user_is_master (some u) = is_master u

module _ (env : Env) where
  -- `ensureGamePlayer`
  unfoldable pub ensure_game_player : Uuid → M (Unit {0})
  ensure_game_player user = do
    u ← find_user_by_id env user
    fail_if (user_gone u) unauthorized
    fail_if (user_is_master u) forbidden

  module _ (g : GameUseCase) where
    -- The same payload to each of the two players.
    abbrev pub send_to : Uuid → Payload → M (Unit {0})
    send_to user payload = when g.notifier (send (record { to = user; payload = payload }))

    abbrev pub send_both : Game → Payload → M (Unit {0})
    send_both game payload = send_to game.player1_id payload >> send_to game.player2_id payload

    -- The lock in front of a player's action; none is taken where there is no store.
    abbrev pub take_lock : Key → M (Unit {0})
    take_lock key =
        acquire_lock env key g.game_lock_ttl >>= λ got. fail_if (not got) rate_limit_exceeded

    abbrev pub lock_action : Bool → Key → M (Unit {0})
    lock_action wanted key = when (g.locks && wanted) (take_lock key)

    -- `remaining` of buildGameState
    abbrev pub remaining_in_game : Uuid → Game → M ℕ
    remaining_in_game game_id game =
        if g.turns && is_in_progress game.status
        then (do now ← get_now env; remaining_seconds env game_id now)
        else pure 0

    -- `buildGameState`
    unfoldable pub build_game_state : Uuid → Uuid → M GameStateOutput
    unfolding summarize
    build_game_state user game_id = do
      found ← find_game_by_id env game_id
      game ← or_throw found not_found
      fail_if (not (is_participant game user)) forbidden
      mine ← list_guesses_by_game_and_player env game_id user
      opp_count ← count_by_game_excluding_player env game_id (other_player game user)
      remaining ← remaining_in_game game_id game
      pure (record {
        game_id = game_id;
        status = game.status;
        current_turn = game.current_turn;
        current_turn_player_id = game.current_turn_player_id;
        remaining_seconds = remaining;
        my_guesses = map summarize mine;
        opponent_guess_count = opp_count;
      })

    unfoldable pub get_game_state : Uuid → Uuid → M GameStateOutput
    get_game_state user game_id = build_game_state user game_id

    unfoldable pub sync_game_state : Uuid → Uuid → M GameStateOutput
    sync_game_state user game_id = do
      state ← build_game_state user game_id
      send_to user (game_state_sync state)
      pure state
