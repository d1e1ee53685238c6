-- ===== src/RedisStore/Expired.antt =====
-- ListExpiredTurns of backend/redis/store.go. The keys that SCAN tells come in pages, each by a call;
-- a key that is told twice is looked at twice.
use num_duel.Prelude.{Option, none, some, List, [], ◌∷◌, ◌++◌, leb, if◌then◌else◌}
use num_duel.Model.{Uuid, Time, Result, ok, err}
use num_duel.World.{M, Env, Key, turn, redis_call, pure, ◌>>=◌, ◌>>◌}
use num_duel.RedisStore.{TurnInfo, get_turn}

pub record ExpiredTurnEntry : Type 0 where
  pub game_id : Uuid
  pub player_id : Uuid

-- `parseTurnKeyGameID`
unfoldable pub parse_turn_key_game_id : Key → Option Uuid
parse_turn_key_game_id (turn game) = some game
parse_turn_key_game_id _ = none

-- The turns that ended by now, of the two that were read.
abbrev pub expired_entry : Uuid → Time → Result (Option TurnInfo) → List ExpiredTurnEntry
expired_entry game now (err e) = []
expired_entry game now (ok none) = []
expired_entry game now (ok (some info)) =
    if leb info.expires_at now
    then record { game_id = game; player_id = info.player_id } ∷ []
    else []

module _ (env : Env) (now : Time) where
  abbrev pub expired_of_game : Option Uuid → M (List ExpiredTurnEntry)
  expired_of_game none w = (ok [], w)
  expired_of_game (some game) w =
      let (r, w') = get_turn env game w in (ok (expired_entry game now r), w')

  -- The keys of a page.
  unfoldable pub expired_of_keys : List Key → M (List ExpiredTurnEntry)
  unfolding parse_turn_key_game_id
  expired_of_keys [] = pure []
  expired_of_keys (k ∷ ks) = do
    first ← expired_of_game (parse_turn_key_game_id k)
    rest ← expired_of_keys ks
    pure (first ++ rest)

  -- The pages that are left; a page that fails ends the scan with its error.
  unfoldable pub expired_of_pages : List (List Key) → M (List ExpiredTurnEntry)
  unfolding expired_of_keys
  expired_of_pages [] = pure []
  expired_of_pages (page ∷ pages) = do
    redis_call env (λ n r. (tt, r))
    first ← expired_of_keys page
    rest ← expired_of_pages pages
    pure (first ++ rest)

  -- The pages are those of the state in which the scan begins.
  unfoldable pub list_expired_turns : M (List ExpiredTurnEntry)
  unfolding expired_of_pages
  list_expired_turns w = expired_of_pages (env.server.turn_keys w.calls w.redis) w
