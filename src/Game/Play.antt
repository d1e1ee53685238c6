-- ===== src/Game/Play.antt =====
-- backend/usecase/game_play.go: setting a secret and guessing. Each use case is its part up to the
-- commit, and the notifications after it.
pub mod Facts
pub mod Moves
pub mod Verdict
pub mod Win
pub mod Allowed
pub mod Total
use num_duel.Prelude.{
  ℕ, suc, ◌+◌, Bool, true, false, not, ◌&&◌, ◌||◌, Option, none, some, List, [], ◌∷◌, ◌==◌,
  if◌then◌else◌,
}
use num_duel.Model.{
  Uuid, Time, Text, Four, Game, Guess, User, MatchHistory, DigitResult, miss, Result, ok, err, Err,
  not_found, forbidden, bad_request, game_already_started, game_already_finished, waiting_secret,
  in_progress, finished, GameStatus, is_participant, is_empty, both_secrets_set, map_repo_not_found,
}
use num_duel.World.{
  M, Env, World, GuessResultOutput, secret_lock, guess_lock, get_now, new_uuid, pure, throw, done,
  when, fail_if, or_throw, lift, map_err, with_tx, ◌>>=◌, ◌>>◌,
}
use num_duel.Repository.Games.{
  find_game_by_id_for_update, update_game, create_guess, create_history,
}
use num_duel.Repository.Users.{find_user_by_id, update_user}
use num_duel.Repository.Logs.{record_guess_activity_log}
use num_duel.Crypto.Secret.{hash, verify}
use num_duel.Game.Judge.{is_win, digit_results_to_ints}
use num_duel.Game.Validate.{validate_four_digits}
use num_duel.Game.Rules.{
  set_game_secret_hash, start_game, game_opponent_id, add_game_guess, finish_game,
}
use num_duel.Game.UseCase.{GameUseCase, ensure_game_player, lock_action}
use num_duel.Game.Notify.{notify_game_start, notify_guess_result}

-- The switch over the status in SetSecretNumber.
abbrev pub awaits_secret : GameStatus → M (Unit {0})
awaits_secret waiting_secret = done
awaits_secret in_progress = throw game_already_started
awaits_secret finished = throw game_already_finished

-- `slot`
abbrev pub own_slot : Game → Uuid → ℕ
own_slot game user = if user == game.player2_id then 2 else 1

-- `opponentHash` and `opponentSlot`
abbrev pub opponent_hash : Game → Uuid → Text
opponent_hash game user =
    if user == game.player2_id then game.player1_secret else game.player2_secret

abbrev pub opponent_slot : Game → Uuid → ℕ
opponent_slot game user = if user == game.player2_id then 1 else 2

-- The copy of at most four results into an array of misses.
abbrev pub first_or_miss : List DigitResult → DigitResult
first_or_miss [] = miss
first_or_miss (r ∷ rs) = r

abbrev pub rest_of : List DigitResult → List DigitResult
rest_of [] = []
rest_of (r ∷ rs) = rs

abbrev pub four_results : List DigitResult → Four DigitResult
four_results rs = record {
  d0 = first_or_miss rs;
  d1 = first_or_miss (rest_of rs);
  d2 = first_or_miss (rest_of (rest_of rs));
  d3 = first_or_miss (rest_of (rest_of (rest_of rs)));
}

-- What SubmitGuess's transaction hands to the code after it; the winner is `uuid.Nil` at first.
pub record GuessOutcome : Type 0 where
  pub result : GuessResultOutput
  pub finished : Bool
  pub winner : Uuid

module _ (env : Env) where
  -- `startGameInTx` with the clock's reading, when both secrets are there.
  abbrev pub start_if_ready : Game → M Bool
  start_if_ready game =
      if both_secrets_set game
      then (do
        now ← get_now env
        started ← lift (start_game game now)
        update_game env started
        pure true)
      else pure false

  -- The transaction of SetSecretNumber; it tells whether the game has started.
  unfoldable pub secret_tx : Uuid → Uuid → Four ℕ → M Bool
  secret_tx user game_id digits = do
    found ← find_game_by_id_for_update env game_id
    game ← or_throw found not_found
    fail_if (not (is_participant game user)) forbidden
    awaits_secret game.status
    changed ← lift (
        set_game_secret_hash game user
          (hash env.hmac env.uuid_text digits game_id (own_slot game user)))
    now ← get_now env
    let stamped : Game = record changed { updated_at = now }
    update_game env stamped
    start_if_ready stamped

  -- `incrementUserWinCount`
  unfoldable pub increment_user_win_count : Uuid → Time → M (Unit {0})
  increment_user_win_count user now = do
    found ← find_user_by_id env user
    u ← or_throw found not_found
    update_user env (record u { win_count = u.win_count + 1; updated_at = now })

  -- `finishGameService` after both players have been looked up; a player who is missing ends
  -- it with no error.
  abbrev pub finish_with : Game → Uuid → Uuid → Time → Option User → Option User → M (Unit {0})
  finish_with game winner loser now (some w) (some l) = do
    over ← lift (finish_game game winner now)
    update_game env over
    id ← new_uuid env
    create_history env (record {
      id = id;
      game_id = over.id;
      winner_id = winner;
      loser_id = loser;
      winner_username = w.username;
      loser_username = l.username;
      finished_at = now;
      created_at = now;
      updated_at = now;
    })
    increment_user_win_count winner now
  finish_with game winner loser now w l = done

  -- The loser is looked up only if the winner is there.
  abbrev pub finish_found : Game → Uuid → Uuid → Time → Option User → M (Unit {0})
  finish_found game winner loser now none = done
  finish_found game winner loser now (some w) =
      map_err map_repo_not_found (find_user_by_id env loser)
      >>= finish_with game winner loser now (some w)

  unfoldable pub finish_game_service : Game → Uuid → Time → M (Unit {0})
  finish_game_service game winner now = do
    fail_if (winner == 0) bad_request
    loser ← lift (game_opponent_id game winner)
    map_err map_repo_not_found (find_user_by_id env winner) >>= finish_found game winner loser now

  -- The transaction of SubmitGuess.
  unfoldable pub guess_tx : Uuid → Uuid → Four ℕ → Bool → M GuessOutcome
  guess_tx user game_id digits is_auto = do
    found ← find_game_by_id_for_update env game_id
    game ← or_throw found not_found
    fail_if (not (is_participant game user)) forbidden
    fail_if (is_empty (opponent_hash game user)) bad_request
    slice ← lift (
        verify env.hmac env.uuid_text (opponent_hash game user) digits game_id
          (opponent_slot game user))
    let results : Four DigitResult = four_results slice
    now ← get_now env
    id ← new_uuid env
    played ← lift (add_game_guess id game user digits results is_auto now)
    create_guess env played.0
    let won : Bool = is_win results
    if won then finish_game_service played.1 user now else update_game env played.1
    pure (record {
      result = record {
        guess_id = played.0.id;
        player_id = user;
        turn = played.0.turn;
        digit_results = digit_results_to_ints played.0.digit_results;
        hit_count = played.0.hit_count;
        is_win = won;
        is_auto = is_auto;
        next_turn_player_id = played.1.current_turn_player_id;
      };
      finished = won;
      winner = if won then user else 0;
    })

  -- Both use cases after the digits have been read.
  abbrev pub secret_checked : Uuid → Uuid → Four ℕ → M Bool
  secret_checked user game_id digits =
      ensure_game_player env user >> with_tx env (secret_tx user game_id digits)

  abbrev pub guess_checked : Uuid → Uuid → Bool → Four ℕ → M GuessOutcome
  guess_checked user game_id is_auto digits =
      ensure_game_player env user >> with_tx env (guess_tx user game_id digits is_auto)

  module _ (g : GameUseCase) where
    -- SetSecretNumber up to the commit.
    unfoldable pub commit_secret : Uuid → Uuid → Text → M Bool
    commit_secret user game_id secret =
        lock_action env g true (secret_lock game_id user)
        >> (lift (validate_four_digits secret) >>= secret_checked user game_id)

    unfoldable pub set_secret_number : Uuid → Uuid → Text → M (Unit {0})
    unfolding commit_secret
    set_secret_number user game_id secret = do
      started ← commit_secret user game_id secret
      when started (notify_game_start env g game_id)

    -- SubmitGuess up to the commit; a guess made for the player takes no lock.
    unfoldable pub commit_guess : Uuid → Uuid → Text → Bool → M GuessOutcome
    commit_guess user game_id guess is_auto =
        lock_action env g (not is_auto) (guess_lock game_id user)
        >> (lift (validate_four_digits guess) >>= guess_checked user game_id is_auto)

    unfoldable pub submit_guess : Uuid → Uuid → Text → Bool → M (Unit {0})
    unfolding commit_guess
    submit_guess user game_id guess is_auto = do
      out ← commit_guess user game_id guess is_auto
      now ← get_now env
      record_guess_activity_log env game_id user out.result.turn out.result.hit_count
          out.result.is_win is_auto now
      notify_guess_result env g game_id out.result out.finished out.winner
