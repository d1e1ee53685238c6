-- ===== src/World/State.antt =====
-- The state.
use num_duel.Prelude.{ℕ, Bool, Option, List}
use num_duel.Model.{
  Uuid, Time, Text, Game, Guess, User, MatchHistory, MatchingQueueEntry, Ranking, RefreshToken,
  WsConnectionLog, GameStatus, LoginAction,
}

pub record GuessSummary : Type 0 where
  pub turn : ℕ
  pub guess_number : Text
  pub digit_results : List ℕ
  pub hit_count : ℕ
  pub is_auto : Bool

-- `GameStateOutput`; the player whose turn it is stays an option in place of "".
pub record GameStateOutput : Type 0 where
  pub game_id : Uuid
  pub status : GameStatus
  pub current_turn : ℕ
  pub current_turn_player_id : Option Uuid
  pub remaining_seconds : ℕ
  pub my_guesses : List GuessSummary
  pub opponent_guess_count : ℕ

-- `guessResultOutput`
pub record GuessResultOutput : Type 0 where
  pub guess_id : Uuid
  pub player_id : Uuid
  pub turn : ℕ
  pub digit_results : List ℕ
  pub hit_count : ℕ
  pub is_win : Bool
  pub is_auto : Bool
  pub next_turn_player_id : Option Uuid

pub data Reason : Type 0 where
  guess_win secret_setup_timeout : Reason

-- The payloads of `SendToUser`.
pub data Payload : Type 0 where
  game_state_sync : GameStateOutput → Payload
  turn_changed : Uuid → ℕ → Uuid → ℕ → Payload
  guess_result : Uuid → GuessResultOutput → Payload
  game_over : Uuid → Reason → Option Uuid → Payload
  matched : Uuid → Payload
  opponent_status : Uuid → Uuid → Bool → Payload

pub record Event : Type 0 where
  pub to : Uuid
  pub payload : Payload

-- `model.ActivityLog`: the log type and the detail are one value.
pub data Activity : Type 0 where
  guess_made : Uuid → Uuid → ℕ → ℕ → Bool → Bool → Activity
  game_ended : Uuid → Reason → Option Uuid → Activity
  timed_out : Uuid → Uuid → Activity
  recovered : Uuid → Activity
  user_deleted : Uuid → Uuid → Activity
  ranking_rebuilt : Uuid → Activity

pub record ActivityLog : Type 0 where
  pub id : Uuid
  pub user_id : Option Uuid
  pub activity : Activity
  pub created_at : Time
  pub updated_at : Time

pub record LoginLog : Type 0 where
  pub id : Uuid
  pub user_id : Uuid
  pub action : LoginAction
  pub created_at : Time
  pub updated_at : Time

pub record Tables : Type 0 where
  pub users : List User
  pub games : List Game
  pub guesses : List Guess
  pub histories : List MatchHistory
  pub queue : List MatchingQueueEntry
  pub rankings : List Ranking
  pub tokens : List RefreshToken
  pub activity_logs : List ActivityLog
  pub login_logs : List LoginLog
  pub ws_logs : List WsConnectionLog

-- The keys of backend/redis/store.go, a constructor for each format.
pub data Key : Type 0 where
  secret_lock guess_lock : Uuid → Uuid → Key
  turn ws_user force_logout : Uuid → Key
  ranking_rebuild_lock log_download_lock user_delete_lock : Uuid → Key
  jwt_revoked : Text → Key
  backup_status : Key

-- `turnPayload`
pub record TurnPayload : Type 0 where
  pub turn : ℕ
  pub player_id : Uuid
  pub started_at : Time
  pub expires_at : Time

-- The status of the backup holds the seconds of its time.
pub data Value : Type 0 where
  mark : Value
  connection : Text → Value
  turn_value : TurnPayload → Value
  unix_seconds : ℕ → Value
  backup_value : Text → Option ℕ → Value

abbrev pub Redis : Type 0
Redis = List (Key × Value)

pub record World : Type 0 where
  pub db : Tables
  pub redis : Redis
  pub sent : List Event
  pub calls : ℕ
