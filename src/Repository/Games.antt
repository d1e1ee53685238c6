-- ===== src/Repository/Games.antt =====
-- backend/repository/{game,guess,match_history,matching_queue}.go.
use mathlib.Core.Option
use num_duel.Prelude.{
  none, if◌then◌else◌, ℕ, Bool, not, ◌&&◌, ◌||◌, Option, some, List, [], ◌∷◌, length, contains, ltb,
  ◌==◌, take,
}
use num_duel.Model.{
  Uuid, Time, Game, Guess, MatchHistory, MatchingQueueEntry, GameStatus, same_status,
}
use num_duel.World.{M, Env, query, exec, done}

-- The conditions of the queries.
abbrev pub game_has_id : Uuid → Game → Bool
game_has_id id g = g.id == id

abbrev pub game_has_player : Uuid → Game → Bool
game_has_player u g = g.player1_id == u || g.player2_id == u

abbrev pub game_created_before : GameStatus → Time → Game → Bool
game_created_before status before g = same_status g.status status && ltb g.created_at before

abbrev pub guess_by : Uuid → Uuid → Guess → Bool
guess_by game player r = r.game_id == game && r.player_id == player

abbrev pub guess_not_by : Uuid → Uuid → Guess → Bool
guess_not_by game player r = r.game_id == game && not (r.player_id == player)

abbrev pub entry_has_user : Uuid → MatchingQueueEntry → Bool
entry_has_user u e = e.user_id == u

abbrev pub entry_in : List Uuid → MatchingQueueEntry → Bool
entry_in ids e = contains e.id ids

abbrev pub any_entry : MatchingQueueEntry → Bool
any_entry e = Bool.true

module _ (env : Env) where
  abbrev pub create_game : Game → M (Unit {0})
  create_game g =
      exec env (λ db. Option.map (λ t. record db { games = t }) (env.games.create g db.games))

  -- Save is refused where a text is too long for its column.
  abbrev pub update_game : Game → M (Unit {0})
  update_game g = exec env (λ db.
      if env.game_fits g then some (record db { games = env.games.save g db.games }) else none)

  -- A row that is not there is no error.
  abbrev pub find_game_by_id : Uuid → M (Option Game)
  find_game_by_id id = query env (λ db. env.games.first (game_has_id id) db.games)

  abbrev pub find_game_by_id_for_update : Uuid → M (Option Game)
  find_game_by_id_for_update id = query env (λ db. env.games.first (game_has_id id) db.games)

  abbrev pub list_games_by_player_id : Uuid → M (List Game)
  list_games_by_player_id u = query env (λ db. env.games.find (game_has_player u) db.games)

  abbrev pub list_games_by_status : GameStatus → M (List Game)
  list_games_by_status status =
      query env (λ db. env.games.find (λ g. same_status g.status status) db.games)

  abbrev pub list_games_by_status_created_before : GameStatus → Time → M (List Game)
  list_games_by_status_created_before status before =
      query env (λ db. env.games.find (game_created_before status before) db.games)

  abbrev pub create_guess : Guess → M (Unit {0})
  create_guess r =
      exec env (λ db. Option.map (λ t. record db { guesses = t }) (env.guesses.create r db.guesses))

  -- `ORDER BY turn`
  abbrev pub list_guesses_by_game_and_player : Uuid → Uuid → M (List Guess)
  list_guesses_by_game_and_player game player =
      query env (λ db. env.guesses.find_in_order (λ r. r.turn) (guess_by game player) db.guesses)

  abbrev pub count_by_game_excluding_player : Uuid → Uuid → M ℕ
  count_by_game_excluding_player game player =
      query env (λ db. length (env.guesses.find (guess_not_by game player) db.guesses))

  abbrev pub create_history : MatchHistory → M (Unit {0})
  create_history h =
      exec env
        (λ db. Option.map (λ t. record db { histories = t }) (env.histories.create h db.histories))

  abbrev pub insert_entry : MatchingQueueEntry → M (Unit {0})
  insert_entry e =
      exec env (λ db. Option.map (λ t. record db { queue = t }) (env.queue.create e db.queue))

  abbrev pub delete_entries_by_ids : List Uuid → M (Unit {0})
  delete_entries_by_ids [] = done
  delete_entries_by_ids (i ∷ ids) =
      exec env (λ db. some (record db { queue = env.queue.delete (entry_in (i ∷ ids)) db.queue }))

  abbrev pub delete_entries_by_user_id : Uuid → M (Unit {0})
  delete_entries_by_user_id u =
      exec env (λ db. some (record db { queue = env.queue.delete (entry_has_user u) db.queue }))

  -- Every entry has the one status there is. `ORDER BY created_at LIMIT limit`.
  abbrev pub list_waiting_for_update : ℕ → M (List MatchingQueueEntry)
  list_waiting_for_update limit =
      query env (λ db. take limit (env.queue.find_in_order (λ e. e.created_at) any_entry db.queue))

  abbrev pub find_entry_by_user_id : Uuid → M (Option MatchingQueueEntry)
  find_entry_by_user_id u = query env (λ db. env.queue.first (entry_has_user u) db.queue)
