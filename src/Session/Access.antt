-- ===== src/Session/Access.antt =====
-- Authenticate of backend/usecase/ws_auth.go, and what it notes and tells. The claims come from
-- parsing the access token, which is an argument.
pub mod Laws
use num_duel.Prelude.{ℕ, Bool, true, false, not, ◌&&◌, Option, none, some, ltb, ◌==◌, if◌then◌else◌}
use num_duel.Model.{
  Uuid, Time, Text, Role, User, Game, Result, ok, err, Err, WsConnectionLog, unauthorized, is_empty,
  is_deleted,
}
use num_duel.World.{
  M, Env, World, opponent_status, get_now, new_uuid, pure, throw, done, when, fail_if, ignore, lift,
  query, exec, send, ◌>>=◌, ◌>>◌,
}
use num_duel.Repository.Users.{find_user_by_id, update_user}
use num_duel.Repository.Connections.{create_ws_log, update_disconnected}
use num_duel.RedisStore.{is_jwt_revoked, get_force_logout_before}
use num_duel.Matching.{find_active_game_for_user}
use num_duel.Game.Rules.{game_opponent_id}
use num_duel.Session.{missing_or_deleted}

-- `AccessTokenClaims`; a time that is not set is 0.
pub record AccessTokenClaims : Type 0 where
  pub user_id : Uuid
  pub role : Role
  pub jti : Text
  pub issued_at : Time
  pub expires_at : Time

pub record WsAuthUseCase : Type 0 where
  pub parse : ℕ → Text → Result AccessTokenClaims
  pub revoker : Bool
  pub force_logout : Bool
  pub notifier : Bool

module _ (env : Env) (a : WsAuthUseCase) where
  abbrev pub check_revoked : AccessTokenClaims → M (Unit {0})
  check_revoked c =
      when a.revoker (is_jwt_revoked env c.jti >>= λ revoked. fail_if revoked unauthorized)

  -- A token is refused if it was issued before the last forced logout.
  abbrev pub check_force_logout : AccessTokenClaims → M (Unit {0})
  check_force_logout c = when (a.force_logout && not (c.issued_at == 0)) (
      get_force_logout_before env c.user_id >>= λ before.
      fail_if (not (before == 0) && ltb c.issued_at before) unauthorized)

  abbrev pub parse_token : Text → M AccessTokenClaims
  parse_token token w = lift (a.parse w.calls token) w

  -- The user of the token.
  unfoldable pub known_user : AccessTokenClaims → M Uuid
  known_user c = do
    u ← find_user_by_id env c.user_id
    fail_if (missing_or_deleted u) unauthorized
    pure c.user_id

  -- Authenticate after the token has been parsed.
  unfoldable pub authenticate_claims : AccessTokenClaims → M Uuid
  authenticate_claims c = do check_revoked c; check_force_logout c; known_user c

  unfoldable pub authenticate : Text → M Uuid
  authenticate token = do
    fail_if (is_empty token) unauthorized
    claims ← parse_token token
    authenticate_claims claims

  -- The opponent in a game that runs is told; nobody else is, and no error is looked at.
  abbrev pub tell_opponent : Uuid → Bool → Option Game → M (Unit {0})
  tell_opponent user connected none = done
  tell_opponent user connected (some g) = lift (game_opponent_id g user) >>= λ opponent.
      when a.notifier
        (send (record { to = opponent; payload = opponent_status g.id user connected }))

  unfoldable pub notify_opponent : Bool → Uuid → M (Unit {0})
  unfolding find_active_game_for_user
  notify_opponent connected user =
      ignore (find_active_game_for_user env user >>= tell_opponent user connected)

  unfoldable pub record_connection : Uuid → Text → M Uuid
  record_connection user connection_id = do
    now ← get_now env
    id ← new_uuid env
    create_ws_log env (record {
      id = id;
      user_id = user;
      connection_id = connection_id;
      connected_at = now;
      disconnected_at = none;
    })
    pure id

  -- The user's activity, unless the user is gone.
  abbrev pub touch_found : Option User → M (Unit {0})
  touch_found none = done
  touch_found (some u) =
      if is_deleted u
      then done
      else (get_now env >>= λ now.
          update_user env (record u { last_activity_at = now; updated_at = now }))

  unfoldable pub touch_activity : Uuid → M (Unit {0})
  touch_activity user = ignore (find_user_by_id env user >>= touch_found)

  unfoldable pub close_connection_log : Uuid → M (Unit {0})
  close_connection_log log =
      if log == 0 then done else ignore (get_now env >>= λ now. update_disconnected env log now)
