-- ===== src/Matching.antt =====
-- backend/usecase/matching.go: the queue of the players who look for a game.
pub mod Laws
use num_duel.Prelude.{
  ℕ, Bool, true, false, not, ◌||◌, Option, none, some, List, [], ◌∷◌, ◌==◌, if◌then◌else◌,
}
use num_duel.Model.{
  Uuid, Time, Game, User, MatchingQueueEntry, waiting_secret, is_waiting_secret, is_in_progress,
  is_deleted, is_master, is_some, Err, unauthorized, forbidden, bad_request, user_in_active_game,
  already_in_matching,
}
use num_duel.World.{
  M, Env, matched, Event, send, get_now, new_uuid, pure, throw, done, when, fail_if, with_tx, ◌>>=◌,
  ◌>>◌,
}
use num_duel.Repository.Games.{
  create_game, list_games_by_player_id, insert_entry, delete_entries_by_ids,
  delete_entries_by_user_id, list_waiting_for_update, find_entry_by_user_id,
}
use num_duel.Repository.Users.{find_user_by_id}
use num_duel.Game.UseCase.{user_gone, user_is_master}

-- `StartMatchingOutput`, `CancelMatchingOutput` and `GetMatchingStatusOutput`.
pub data MatchingOutput : Type 0 where
  matched_in : Uuid → MatchingOutput
  waiting idle cancelled : MatchingOutput

-- The loop of findActiveGameForUser.
unfoldable pub first_active : List Game → Option Game
unfolding is_waiting_secret is_in_progress
first_active [] = none
first_active (g ∷ gs) =
    if is_waiting_secret g.status || is_in_progress g.status then some g else first_active gs

-- The two players that are told of a game.
abbrev pub matched_output : Option Game → MatchingOutput
matched_output none = waiting
matched_output (some g) = matched_in g.id

-- The row of a new game.
abbrev pub new_match : Uuid → Time → MatchingQueueEntry → MatchingQueueEntry → Game
new_match id now p1 p2 = record {
  id = id;
  status = waiting_secret;
  player1_id = p1.user_id;
  player2_id = p2.user_id;
  player1_secret = [];
  player2_secret = [];
  current_turn_player_id = none;
  current_turn = 1;
  winner_id = none;
  started_at = none;
  finished_at = none;
  created_at = now;
  updated_at = now;
}

module _ (env : Env) where
  unfoldable pub find_active_game_for_user : Uuid → M (Option Game)
  unfolding first_active
  find_active_game_for_user user = do
    games ← list_games_by_player_id env user
    pure (first_active games)

  -- Every entry waits.
  abbrev pub user_waiting_in_matching_queue : Uuid → M Bool
  user_waiting_in_matching_queue user = do
    entry ← find_entry_by_user_id env user
    pure (is_some entry)

  -- A user who is there, is not deleted and is no master is asked for a game.
  unfoldable pub matching_player_ready : Uuid → M Bool
  unfolding find_active_game_for_user
  matching_player_ready user = find_user_by_id env user >>= λ u.
      if user_gone u || user_is_master u
      then pure false
      else (find_active_game_for_user user >>= λ g. pure (not (is_some g)))

  abbrev pub remove_queue_entries : List Uuid → M (Unit {0})
  remove_queue_entries ids = delete_entries_by_ids env ids

  -- The new game, once both players are ready.
  unfoldable pub create_match : MatchingQueueEntry → MatchingQueueEntry → M (Option Game)
  create_match p1 p2 = do
    now ← get_now env
    id ← new_uuid env
    let game = new_match id now p1 p2
    create_game env game
    remove_queue_entries (p1.id ∷ p2.id ∷ [])
    pure (some game)

  -- The second player is asked only if the first is ready.
  unfoldable pub match_second : MatchingQueueEntry → MatchingQueueEntry → Bool → M (Option Game)
  unfolding matching_player_ready create_match
  match_second p1 p2 ready =
      if ready
      then (matching_player_ready p2.user_id >>= λ ok2.
          if ok2 then create_match p1 p2 else (remove_queue_entries (p2.id ∷ []) >> pure none))
      else (remove_queue_entries (p1.id ∷ []) >> pure none)

  unfoldable pub match_entries : List MatchingQueueEntry → M (Option Game)
  unfolding match_second matching_player_ready
  match_entries (p1 ∷ p2 ∷ rest) =
      if p1.user_id == p2.user_id
      then throw bad_request
      else (matching_player_ready p1.user_id >>= match_second p1 p2)
  match_entries _ = pure none

  unfoldable pub match_players : M (Option Game)
  unfolding match_entries
  match_players = list_waiting_for_update env 2 >>= match_entries

  -- The transaction of Start.
  unfoldable pub start_tx : Uuid → Time → M (Option Game)
  unfolding match_players
  start_tx user now = do
    id ← new_uuid env
    insert_entry env (record { id = id; user_id = user; created_at = now })
    match_players

  abbrev pub notify_matched : Bool → Option Game → M (Unit {0})
  notify_matched notifier none = done
  notify_matched notifier (some g) = when notifier (
      send (record { to = g.player1_id; payload = matched g.id })
      >> send (record { to = g.player2_id; payload = matched g.id }))

  -- Start up to the commit.
  unfoldable pub commit_start : Uuid → M (Option Game)
  unfolding find_active_game_for_user start_tx
  commit_start user = do
    u ← find_user_by_id env user
    fail_if (user_gone u) unauthorized
    fail_if (user_is_master u) forbidden
    game ← find_active_game_for_user user
    fail_if (is_some game) user_in_active_game
    queued ← user_waiting_in_matching_queue user
    fail_if queued already_in_matching
    now ← get_now env
    with_tx env (start_tx user now)

  unfoldable pub start : Bool → Uuid → M MatchingOutput
  unfolding commit_start
  start notifier user = do
    game ← commit_start user
    notify_matched notifier game
    pure (matched_output game)

  unfoldable pub cancel : Uuid → M MatchingOutput
  cancel user = with_tx env (delete_entries_by_user_id env user) >> pure cancelled

  unfoldable pub status : Uuid → M MatchingOutput
  unfolding find_active_game_for_user
  status user = find_active_game_for_user user >>= λ game. elim game [
    | some g ↦ pure (matched_in g.id)
    | none ↦
        user_waiting_in_matching_queue user >>= λ queued. pure (if queued then waiting else idle)
  ]
