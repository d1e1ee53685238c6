-- ===== src/World/Outside.antt =====
-- What the program calls and does not implement: GORM over the database, the Redis server, the clock,
-- UUIDs, HMAC, random numbers, the text of JSON and of times. What depends on the moment gets the
-- number of the call; `ilike` matches a pattern of SQL, `distinct_in_order` is DISTINCT with ORDER BY.
use num_duel.Prelude.{ℕ, Bool, false, Option, List, ◌≡◌}
use num_duel.Model.{
  Uuid, Time, Text, Result, Game, Guess, User, MatchHistory, MatchingQueueEntry, Ranking,
  RefreshToken, WsConnectionLog,
}
use num_duel.Model.Json.{Json}
use num_duel.World.State.{Tables, ActivityLog, LoginLog, Redis, Key, Value}

-- GORM on one table; `updates` and `delete_some`, a Delete under a Limit, tell how many
-- rows they changed; `find_latest` is in descending order. `create` gives none where a constraint refuses the row; `game_fits` tells whether the texts of a
-- game fit their columns, without which Save refuses it.
pub record Gorm (Row : Type 0) : Type 0 where
  pub first : (Row → Bool) → List Row → Option Row
  pub find : (Row → Bool) → List Row → List Row
  pub find_in_order : (Row → ℕ) → (Row → Bool) → List Row → List Row
  pub create : Row → List Row → Option (List Row)
  pub save : Row → List Row → List Row
  pub updates : (Row → Bool) → (Row → Row) → List Row → ℕ × List Row
  pub delete : (Row → Bool) → List Row → List Row
  pub find_latest : (Row → ℕ) → (Row → Bool) → List Row → List Row
  pub delete_some : ℕ → (Row → Bool) → List Row → ℕ × List Row
  pub create_all : List Row → List Row → Option (List Row)

-- A Redis server; `turn_keys` are the pages of SCAN over the keys of the turns.
pub record Server : Type 0 where
  pub get : ℕ → Key → Redis → Option Value
  pub set : ℕ → Key → Value → ℕ → Redis → Redis
  pub set_nx : ℕ → Key → ℕ → Redis → Bool × Redis
  pub del : ℕ → Key → Redis → Redis
  pub turn_keys : ℕ → Redis → List (List Key)

pub record Env : Type 0 where
  pub users : Gorm User
  pub games : Gorm Game
  pub guesses : Gorm Guess
  pub histories : Gorm MatchHistory
  pub queue : Gorm MatchingQueueEntry
  pub rankings : Gorm Ranking
  pub tokens : Gorm RefreshToken
  pub activity_logs : Gorm ActivityLog
  pub login_logs : Gorm LoginLog
  pub ws_logs : Gorm WsConnectionLog
  pub game_fits : Game → Bool
  pub rollback : Tables → Tables → Tables
  pub server : Server
  pub fails : ℕ → Bool
  pub now : ℕ → Time
  pub fresh : ℕ → Uuid
  pub hmac : Text → List ℕ
  pub uuid_text : Uuid → Text
  pub rand : ℕ → ℕ → ℕ → Result ℕ
  pub ilike : Text → Text → Bool
  pub distinct_in_order : List Text → List Text
  pub marshal : Json → Text
  pub rfc3339 : Time → Text

-- GORM's documentation of `Transaction`: after an error the tables are as they were before.
pub record RollsBack (env : Env) : Type 0 where
  pub rollback_restores : (before after : Tables) → env.rollback before after ≡ before

-- A database, a Redis server and a generator that answer every call.
pub record Answers (env : Env) : Type 0 where
  pub answers : (n : ℕ) → env.fails n ≡ false
