-- ===== src/RedisStore.antt =====
-- backend/redis/store.go: locks, turns, revoked tokens and forced logouts in Redis. Times are in
-- nanoseconds. What is under a key is the value that was marshalled: the JSON text between is
-- not modelled, and a value of another kind stands for one that does not parse.
pub mod Expired
use num_duel.Prelude.{
  ℕ, ◌-◌, ◌*◌, ◌/◌, Bool, true, false, Option, none, some, ltb, ◌==◌, if◌then◌else◌,
}
use num_duel.Model.{Uuid, Time, Text, other, is_empty}
use num_duel.World.{
  M, Env, Key, turn, ws_user, force_logout, jwt_revoked, Value, mark, connection, turn_value,
  unix_seconds, redis_call, pure, throw, done, ◌>>=◌,
}

abbrev pub second : ℕ
second = 1000000000

-- `TurnInfo`
pub record TurnInfo : Type 0 where
  pub turn : ℕ
  pub player_id : Uuid
  pub expires_at : Time

abbrev pub at_least : ℕ → ℕ → ℕ
at_least low n = if ltb n low then low else n

-- `GetTurn` after the call.
abbrev pub read_turn : Option Value → M (Option TurnInfo)
read_turn none = pure none
read_turn (some (turn_value p)) =
    pure (some (record { turn = p.turn; player_id = p.player_id; expires_at = p.expires_at }))
read_turn (some _) = throw (other 2)

-- `RemainingSeconds` after the call; what is over shows as 0.
abbrev pub read_remaining : Time → Option Value → M ℕ
read_remaining now none = pure 0
read_remaining now (some (turn_value p)) = pure ((p.expires_at - now) / second)
read_remaining now (some _) = throw (other 2)

-- `GetForceLogoutBefore` after the call, in nanoseconds; the zero time if there is none.
abbrev pub read_force_logout : Option Value → M Time
read_force_logout none = pure 0
read_force_logout (some (unix_seconds s)) = pure (s * second)
read_force_logout (some _) = throw (other 3)

module _ (env : Env) where
  abbrev pub redis_get : Key → M (Option Value)
  redis_get k = redis_call env (λ n r. (env.server.get n k r, r))

  abbrev pub redis_set : Key → Value → ℕ → M (Unit {0})
  redis_set k v ttl = redis_call env (λ n r. (tt, env.server.set n k v ttl r))

  abbrev pub redis_del : Key → M (Unit {0})
  redis_del k = redis_call env (λ n r. (tt, env.server.del n k r))

  -- The lock's script, with a life of whole seconds and at least one.
  abbrev pub acquire_lock : Key → ℕ → M Bool
  acquire_lock k ttl = redis_call env (λ n r. env.server.set_nx n k (at_least 1 (ttl / second)) r)

  abbrev pub set_turn : Uuid → ℕ → Uuid → Time → Time → M (Unit {0})
  set_turn game t player started expires =
      redis_set (turn game)
        (turn_value
          (record { turn = t; player_id = player; started_at = started; expires_at = expires }))
        (at_least second (expires - started))

  abbrev pub get_turn : Uuid → M (Option TurnInfo)
  get_turn game = redis_get (turn game) >>= read_turn

  abbrev pub remaining_seconds : Uuid → Time → M ℕ
  remaining_seconds game now = redis_get (turn game) >>= read_remaining now

  abbrev pub delete_turn : Uuid → M (Unit {0})
  delete_turn game = redis_del (turn game)

  -- `Revoke` and `IsRevoked` of an access token.
  abbrev pub revoke_jwt : Text → ℕ → M (Unit {0})
  revoke_jwt jti ttl =
      if is_empty jti then done else if ttl == 0 then done else redis_set (jwt_revoked jti) mark ttl

  abbrev pub is_jwt_revoked : Text → M Bool
  is_jwt_revoked jti = do
    v ← redis_get (jwt_revoked jti)
    pure (elim v [ none ↦ false | some _ ↦ true ])

  -- `SetUser`; a time to live of 0 is an hour.
  abbrev pub set_ws_user : Uuid → Text → ℕ → M (Unit {0})
  set_ws_user u connection_id ttl =
      redis_set (ws_user u) (connection connection_id) (if ttl == 0 then 3600 * second else ttl)

  abbrev pub delete_ws_user : Uuid → M (Unit {0})
  delete_ws_user u = redis_del (ws_user u)

  -- The time of a forced logout, to the second, for thirty days.
  abbrev pub set_force_logout_before : Uuid → Time → M (Unit {0})
  set_force_logout_before u at =
      redis_set (force_logout u) (unix_seconds (at / second)) (2592000 * second)

  abbrev pub get_force_logout_before : Uuid → M Time
  get_force_logout_before u = redis_get (force_logout u) >>= read_force_logout
