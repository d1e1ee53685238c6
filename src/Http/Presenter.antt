-- ===== src/Http/Presenter.antt =====
-- backend/controller/presenter.go: the JSON of each answer. The text of an action, of a status and of a
-- role is the constant of backend/model/enums.go.
use num_duel.Prelude.{Option, none, some, List, [], ◌∷◌}
use num_duel.Prelude.Texts.{codes}
use num_duel.Model.{
  Uuid, Time, Text, User, GameStatus, waiting_secret, in_progress, finished, Role, user, master,
  LoginAction, login, logout, auto_logout,
}
use num_duel.Model.Json.{Json, null, bool, num, str, obj, end, field, rows_by, optional}
use num_duel.World.{GuessSummary, GameStateOutput}
use num_duel.Profile.{GetProfileOutput, MatchHistoryItem, LoginHistoryItem, WsConnectionHistoryItem}
use num_duel.Ranking.{RankingItem}
use num_duel.Matching.{MatchingOutput, matched_in, waiting, idle, cancelled}
use num_duel.Admin.{AdminUserItem}
use num_duel.Admin.Search.{ActivityLogItem}
use num_duel.Backup.Status.{BackupStatus}

abbrev pub role_text : Role → Text
role_text user = codes "user"
role_text master = codes "master"

abbrev pub status_text : GameStatus → Text
status_text waiting_secret = codes "WAITING_SECRET"
status_text in_progress = codes "IN_PROGRESS"
status_text finished = codes "FINISHED"

-- The labels are Japanese; the bytes are those of UTF-8.
abbrev pub logout_label : Text
logout_label =
    227 ∷ 131 ∷ 173 ∷ 227 ∷ 130 ∷ 176 ∷ 227 ∷ 130 ∷ 162 ∷ 227 ∷ 130 ∷ 166 ∷ 227 ∷ 131 ∷ 136 ∷ []

abbrev pub login_action_label : LoginAction → Text
login_action_label login =
    227 ∷ 131 ∷ 173 ∷ 227 ∷ 130 ∷ 176 ∷ 227 ∷ 130 ∷ 164 ∷ 227 ∷ 131 ∷ 179 ∷ []
login_action_label logout = logout_label
login_action_label auto_logout = 232 ∷ 135 ∷ 170 ∷ 229 ∷ 139 ∷ 149 ∷ logout_label

module _ (uuid_text : Uuid → Text) (rfc3339 : Time → Text) where
  abbrev pub id_json : Uuid → Json
  id_json u = str (uuid_text u)

  abbrev pub time_json : Time → Json
  time_json t = str (rfc3339 t)

  -- `registerUserResponse` and `getMeResponse`
  unfoldable pub register_user_response : User → Json
  register_user_response u = obj (
      field (codes "id") (id_json u.id) (
        field (codes "username") (str u.username) (
          field (codes "role") (str (role_text u.role))
            (field (codes "winCount") (num u.win_count) end))))

  unfoldable pub login_response : User → Json
  login_response u = obj (
      field (codes "id") (id_json u.id) (
        field (codes "username") (str u.username)
          (field (codes "role") (str (role_text u.role)) end)))

  unfoldable pub get_profile_response : GetProfileOutput → Json
  get_profile_response out = obj (
      field (codes "username") (str out.username) (
        field (codes "winCount") (num out.win_count)
          (field (codes "rank") (optional num out.rank) end)))

  abbrev pub match_history_item_json : MatchHistoryItem → Json
  match_history_item_json item = obj (
      field (codes "gameId") (id_json item.game_id) (
        field (codes "winnerUsername") (str item.winner_username) (
          field (codes "loserUsername") (str item.loser_username)
            (field (codes "finishedAt") (time_json item.finished_at) end))))

  abbrev pub match_history_response : List MatchHistoryItem → Json
  match_history_response = rows_by match_history_item_json

  abbrev pub login_history_item_json : LoginHistoryItem → Json
  login_history_item_json item = obj (
      field (codes "action") (str (login_action_label item.action))
        (field (codes "createdAt") (time_json item.created_at) end))

  abbrev pub login_history_response : List LoginHistoryItem → Json
  login_history_response = rows_by login_history_item_json

  abbrev pub ws_history_item_json : WsConnectionHistoryItem → Json
  ws_history_item_json item = obj (
      field (codes "connectionId") (str item.connection_id) (
        field (codes "connectedAt") (time_json item.connected_at)
          (field (codes "disconnectedAt") (optional time_json item.disconnected_at) end)))

  abbrev pub ws_history_response : List WsConnectionHistoryItem → Json
  ws_history_response = rows_by ws_history_item_json

  abbrev pub ranking_item_json : RankingItem → Json
  ranking_item_json item = obj (
      field (codes "rank") (num item.rank) (
        field (codes "username") (str item.username)
          (field (codes "winCount") (num item.win_count) end)))

  abbrev pub ranking_response : List RankingItem → Json
  ranking_response = rows_by ranking_item_json

  abbrev pub admin_user_json : AdminUserItem → Json
  admin_user_json u = obj (
      field (codes "id") (id_json u.id) (
        field (codes "username") (str u.username) (
          field (codes "email") (str u.email) (
            field (codes "role") (str (role_text u.role)) (
              field (codes "winCount") (num u.win_count) (
                field (codes "deletedAt") (optional time_json u.deleted_at)
                  (field (codes "createdAt") (time_json u.created_at) end)))))))

  abbrev pub admin_users_response : List AdminUserItem → Json
  admin_users_response = rows_by admin_user_json

  abbrev pub activity_log_json : ActivityLogItem → Json
  activity_log_json item = obj (
      field (codes "id") (id_json item.id) (
        field (codes "userId") (optional id_json item.user_id) (
          field (codes "logType") (str item.log_type) (
            field (codes "detail") item.detail
              (field (codes "createdAt") (time_json item.created_at) end)))))

  abbrev pub activity_logs_response : List ActivityLogItem → Json
  activity_logs_response = rows_by activity_log_json

  unfoldable pub log_types_response : List Text → Json
  log_types_response types = obj (field (codes "logTypes") (rows_by str types) end)

  unfoldable pub backup_status_response : BackupStatus → Json
  backup_status_response out = obj (
      field (codes "status") (str out.status)
        (field (codes "lastSyncedAt") (optional time_json out.last_synced_at) end))

  abbrev pub status_game : Text → Json → Json
  status_game status game =
      obj (field (codes "status") (str status) (field (codes "gameId") game end))

  -- `startMatchingResponse` and `matchingStatusResponse`; only a cancellation has no game.
  unfoldable pub matching_response : MatchingOutput → Json
  matching_response (matched_in game) = status_game (codes "matched") (id_json game)
  matching_response waiting = status_game (codes "waiting") null
  matching_response idle = status_game (codes "idle") null
  matching_response cancelled = obj (field (codes "status") (str (codes "cancelled")) end)

  abbrev pub guess_json : GuessSummary → Json
  guess_json row = obj (
      field (codes "turn") (num row.turn) (
        field (codes "guessNumber") (str row.guess_number) (
          field (codes "digitResults") (rows_by num row.digit_results) (
            field (codes "hitCount") (num row.hit_count)
              (field (codes "isAuto") (bool row.is_auto) end)))))

  -- The player whose turn it is, as a text that may be empty.
  abbrev pub turn_player : Option Uuid → Text
  turn_player none = []
  turn_player (some u) = uuid_text u

  unfoldable pub game_state_response : GameStateOutput → Json
  game_state_response s = obj (
      field (codes "gameId") (id_json s.game_id) (
        field (codes "status") (str (status_text s.status)) (
          field (codes "currentTurn") (num s.current_turn) (
            field (codes "currentTurnPlayerID") (str (turn_player s.current_turn_player_id)) (
              field (codes "remainingSeconds") (num s.remaining_seconds) (
                field (codes "myGuesses") (rows_by guess_json s.my_guesses)
                  (field (codes "opponentGuessCount") (num s.opponent_guess_count) end)))))))
