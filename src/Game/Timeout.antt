-- ===== src/Game/Timeout.antt =====
-- backend/usecase/handle_timeout.go and game_recovery.go: what the workers do when a player or a pair
-- of players lets the time run out, and after a restart.
pub mod Laws
use num_duel.Prelude.{
  ℕ, ◌+◌, ◌-◌, ◌/◌, Bool, true, false, not, ◌&&◌, ◌||◌, Option, none, some, List, [], ◌∷◌, ltb, leb,
  ◌==◌, if◌then◌else◌,
}
use num_duel.Model.{
  Uuid, Time, Text, Game, Result, ok, err, Err, other, waiting_secret, in_progress,
  is_waiting_secret, is_in_progress, is_some, not_your_turn, game_already_finished,
  game_not_started, not_found,
}
use num_duel.World.{
  M, Env, World, guess_lock, turn_changed, game_over, secret_setup_timeout, get_now, new_uuid, pure,
  throw, done, when, lift, ignore, with_tx, tick, ◌>>=◌, ◌>>◌,
}
use num_duel.Repository.Games.{
  find_game_by_id, find_game_by_id_for_update, update_game, list_games_by_status,
  list_games_by_status_created_before,
}
use num_duel.Repository.Logs.{
  record_timeout_activity_log, record_recover_activity_log, record_game_over_activity_log,
}
use num_duel.RedisStore.{TurnInfo, acquire_lock, get_turn, set_turn, delete_turn, second}
use num_duel.Crypto.Random.{generate_guess_number}
use num_duel.Game.Rules.{cancel_game_by_secret_timeout}
use num_duel.Game.UseCase.{GameUseCase, send_both, send_to}
use num_duel.Game.Play.{submit_guess}

-- `isTimeoutRaceError`
unfoldable pub is_timeout_race_error : Err → Bool
is_timeout_race_error not_your_turn = true
is_timeout_race_error game_already_finished = true
is_timeout_race_error game_not_started = true
is_timeout_race_error not_found = true
is_timeout_race_error e = false

-- A turn of this player that has run out.
abbrev pub turn_expired : Uuid → Time → Option TurnInfo → Bool
turn_expired player now none = false
turn_expired player now (some t) = t.player_id == player && leb t.expires_at now

module _ (env : Env) (g : GameUseCase) where
  -- `validateTimeoutGame`: every branch after the query returns nil.
  abbrev pub validate_timeout_game : Uuid → Uuid → ℕ → M (Unit {0})
  validate_timeout_game game_id player redis_turn = do found ← find_game_by_id env game_id; done

  -- The guess for the player; a race that was lost is no error.
  abbrev pub settle_timeout :
      Uuid → Uuid → Time → Result (Unit {0}) × World → Result (Unit {0}) × World
  settle_timeout game_id player now (ok u, w) = record_timeout_activity_log env game_id player now w
  settle_timeout game_id player now (err e, w) =
      (if is_timeout_race_error e then ok tt else err e, w)

  abbrev pub guess_for_player : Uuid → Uuid → Time → M (Unit {0})
  guess_for_player game_id player now =
      (λ w. (lift (generate_guess_number (env.rand w.calls))) (tick w)) >>= λ number w.
      settle_timeout game_id player now (submit_guess env g player game_id number true w)

  -- The second reading of the turn, and the guess.
  abbrev pub timeout_again : Uuid → Uuid → Time → Option TurnInfo → M (Unit {0})
  timeout_again game_id player now again =
      if turn_expired player now again
      then (if g.random then guess_for_player game_id player now else throw (other 5))
      else done

  abbrev pub timeout_confirmed : Uuid → Uuid → Time → M (Unit {0})
  timeout_confirmed game_id player now = get_turn env game_id >>= timeout_again game_id player now

  abbrev pub timeout_read : Uuid → Uuid → Time → Option TurnInfo → M (Unit {0})
  timeout_read game_id player now none = done
  timeout_read game_id player now (some t) =
      if turn_expired player now (some t)
      then (validate_timeout_game game_id player t.turn >> timeout_confirmed game_id player now)
      else done

  abbrev pub timeout_locked : Uuid → Uuid → Time → Bool → M (Unit {0})
  timeout_locked game_id player now got =
      if got && g.turns then (get_turn env game_id >>= timeout_read game_id player now) else done

  abbrev pub lock_or_free : Uuid → Uuid → M Bool
  lock_or_free game_id player =
      if g.locks then acquire_lock env (guess_lock game_id player) g.game_lock_ttl else pure true

  unfoldable pub handle_timeout : Uuid → Uuid → M (Unit {0})
  handle_timeout game_id player = do
    now ← get_now env
    got ← lock_or_free game_id player
    timeout_locked game_id player now got

  -- The tests of CancelBySecretTimeout on the row, whose deadline must have passed.
  abbrev pub setup_expired : Game → Time → Bool
  setup_expired game now =
      is_waiting_secret game.status
      && (not (is_some game.started_at || is_some game.finished_at || is_some game.winner_id)
          && ltb (game.created_at + g.secret_setup) now)

  -- An error of cancelGameBySecretTimeout is not looked at; the game is written all the same.
  abbrev pub cancelled : Game → Time → Result Game → Game
  cancelled game now (ok after) = after
  cancelled game now (err e) = game

  -- The transaction: the players of the game that was cancelled, if one was.
  abbrev pub cancel_found : Time → Option Game → M (Option Game)
  cancel_found now none = pure none
  cancel_found now (some game) =
      if setup_expired game now
      then (do
        let after : Game = cancelled game now (cancel_game_by_secret_timeout game now)
        update_game env after
        pure (some after))
      else pure none

  unfoldable pub cancel_tx : Uuid → Time → M (Option Game)
  cancel_tx game_id now = find_game_by_id_for_update env game_id >>= cancel_found now

  abbrev pub announce_cancelled : Uuid → Time → Option Game → M (Unit {0})
  announce_cancelled game_id now none = done
  announce_cancelled game_id now (some game) = do
    when g.turns (ignore (delete_turn env game_id))
    send_both env g game (game_over game_id secret_setup_timeout none)
    record_game_over_activity_log env game_id secret_setup_timeout none now

  unfoldable pub cancel_by_secret_timeout : Uuid → M (Unit {0})
  cancel_by_secret_timeout game_id = do
    now ← get_now env
    with_tx env (cancel_tx game_id now) >>= announce_cancelled game_id now

  abbrev pub turn_running : Time → Option TurnInfo → Bool
  turn_running now none = false
  turn_running now (some t) = ltb now t.expires_at

  abbrev pub restart_turn : Game → Uuid → Time → M (Unit {0})
  restart_turn game player now = do
    let expires : Time = now + g.turn_duration
    set_turn env game.id game.current_turn player now expires
    send_both env g game (turn_changed game.id game.current_turn player ((expires - now) / second))
    record_recover_activity_log env game.id now

  abbrev pub recover_turn_of : Game → Time → Option Uuid → M (Unit {0})
  recover_turn_of game now none = done
  recover_turn_of game now (some player) =
      if g.turns
      then (do
        info ← get_turn env game.id
        if turn_running now info then done else restart_turn game player now)
      else done

  unfoldable pub recover_in_progress_game_turn : Game → Time → M (Unit {0})
  recover_in_progress_game_turn game now = recover_turn_of game now game.current_turn_player_id

  abbrev pub each_game : (Game → M (Unit {0})) → List Game → M (Unit {0})
  each_game act [] = done
  each_game act (game ∷ games) = act game >> each_game act games

  -- `RecoverActiveGames`
  unfoldable pub recover_active_games : M (Unit {0})
  unfolding recover_in_progress_game_turn cancel_by_secret_timeout
  recover_active_games = do
    now ← get_now env
    playing ← list_games_by_status env in_progress
    each_game (λ game. recover_in_progress_game_turn game now) playing
    expired ← list_games_by_status_created_before env waiting_secret (now - g.secret_setup)
    each_game (λ game. cancel_by_secret_timeout game.id) expired
