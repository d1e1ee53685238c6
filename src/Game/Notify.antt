-- ===== src/Game/Notify.antt =====
-- backend/usecase/game_play.go, the notifications after a transaction has been committed.
use num_duel.Prelude.{ℕ, ◌+◌, Bool, ◌&&◌, Option, none, some, if◌then◌else◌}
use num_duel.Model.{Uuid, Time, Game, is_some}
use num_duel.World.{
  M, Env, GuessResultOutput, game_state_sync, turn_changed, guess_result, game_over, guess_win,
  get_now, pure, done, when, ignore, ◌>>=◌, ◌>>◌,
}
use num_duel.Repository.Games.{find_game_by_id}
use num_duel.Repository.Logs.{record_game_over_activity_log}
use num_duel.RedisStore.{set_turn, delete_turn, remaining_seconds}
use num_duel.Game.UseCase.{GameUseCase, send_to, send_both, build_game_state}

module _ (env : Env) (g : GameUseCase) where
  -- The timer of the player whose turn it is; `now` is read by the caller.
  abbrev pub start_turn_timer : Uuid → Game → Time → M (Unit {0})
  start_turn_timer game_id game now = elim game.current_turn_player_id [
    | none ↦ done
    | some player ↦
        when g.turns (set_turn env game_id game.current_turn player now (now + g.turn_duration))
  ]

  abbrev pub notify_remaining : Game → M ℕ
  notify_remaining game =
      if g.turns then (do now ← get_now env; remaining_seconds env game.id now) else pure 0

  unfoldable pub notify_turn_changed : Game → M (Unit {0})
  notify_turn_changed game = elim game.current_turn_player_id [
    | none ↦ done
    | some player ↦ when g.notifier (do
      remaining ← notify_remaining game
      send_both env g game (turn_changed game.id game.current_turn player remaining))
  ]

  unfoldable pub sync_player : Uuid → Uuid → M (Unit {0})
  sync_player user game_id = do
    state ← build_game_state env g user game_id
    send_to env g user (game_state_sync state)

  -- A game that is gone is no error.
  abbrev pub notify_started : Uuid → Option Game → M (Unit {0})
  notify_started game_id none = done
  notify_started game_id (some game) = do
    now ← get_now env
    start_turn_timer game_id game now
    sync_player game.player1_id game_id
    sync_player game.player2_id game_id
    notify_turn_changed game

  unfoldable pub notify_game_start : Uuid → M (Unit {0})
  unfolding notify_turn_changed sync_player
  notify_game_start game_id = find_game_by_id env game_id >>= notify_started game_id

  -- The end of notifyGuessResult: the game is over, or the turn passes.
  abbrev pub notify_over : Uuid → Game → Uuid → M (Unit {0})
  notify_over game_id game winner = do
    when g.turns (ignore (delete_turn env game_id))
    now ← get_now env
    record_game_over_activity_log env game_id guess_win (some winner) now
    send_both env g game (game_over game_id guess_win (some winner))

  abbrev pub notify_next : Uuid → Game → M (Unit {0})
  notify_next game_id game = do
    when (g.turns && is_some game.current_turn_player_id)
        (do now ← get_now env; start_turn_timer game_id game now)
    notify_turn_changed game

  abbrev pub notify_result : Uuid → GuessResultOutput → Bool → Uuid → Option Game → M (Unit {0})
  notify_result game_id result finished winner none = done
  notify_result game_id result finished winner (some game) = do
    send_both env g game (guess_result game_id result)
    if finished then notify_over game_id game winner else notify_next game_id game

  unfoldable pub notify_guess_result : Uuid → GuessResultOutput → Bool → Uuid → M (Unit {0})
  unfolding notify_turn_changed
  notify_guess_result game_id result finished winner =
      find_game_by_id env game_id >>= notify_result game_id result finished winner
