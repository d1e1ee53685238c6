-- ===== src/Api/Guard.antt =====
-- backend/middleware/auth.go, admin.go and auth_context.go: what stands in front of a handler. The
-- cookie is the text the request carries, AuthInfo what Auth leaves for the handler, and the wired
-- services are Booleans (jwt, parsing a token, is a function of the call's number).
pub mod Issued
pub mod Laws
use num_duel.Prelude.{ℕ, Bool, true, false, not, ◌&&◌, Option, none, some, ltb, ◌==◌, if◌then◌else◌}
use num_duel.Model.{Uuid, Time, Text, Role, user, master, Result, unauthorized, forbidden, is_empty}
use num_duel.World.{
  M, Env, World, tick, get_now, throw, pure, done, when, fail_if, lift, ◌>>=◌, ◌>>◌,
}
use num_duel.Repository.Users.{find_user_by_id}
use num_duel.RedisStore.{is_jwt_revoked, get_force_logout_before}
use num_duel.Session.{missing_or_deleted}
use num_duel.Session.Access.{AccessTokenClaims}

pub record AuthConfig : Type 0 where
  pub jwt : ℕ → Text → Result AccessTokenClaims
  pub revoker : Bool
  pub force_logout : Bool
  pub users : Bool

pub record AuthInfo : Type 0 where
  pub user_id : Uuid
  pub role : Role
  pub jti : Text
  pub expires_at : Time

-- The cookie, which may be missing.
abbrev pub cookie_value : Option Text → M Text
cookie_value none = throw unauthorized
cookie_value (some t) = fail_if (is_empty t) unauthorized >> pure t

abbrev pub info_of : AccessTokenClaims → AuthInfo
info_of c = record { user_id = c.user_id; role = c.role; jti = c.jti; expires_at = c.expires_at }

module _ (env : Env) (a : AuthConfig) where
  -- The three tests on the claims.
  abbrev pub refuse_revoked : AccessTokenClaims → M (Unit {0})
  refuse_revoked c = when a.revoker (is_jwt_revoked env c.jti >>= λ b. fail_if b unauthorized)

  abbrev pub refuse_forced : AccessTokenClaims → M (Unit {0})
  refuse_forced c = when (a.force_logout && not (c.issued_at == 0)) (
      get_force_logout_before env c.user_id >>= λ before.
      fail_if (not (before == 0) && ltb c.issued_at before) unauthorized)

  abbrev pub refuse_unknown : AccessTokenClaims → M (Unit {0})
  refuse_unknown c =
      when a.users
        (find_user_by_id env c.user_id >>= λ u. fail_if (missing_or_deleted u) unauthorized)

  -- Auth after the token has been parsed.
  unfoldable pub auth_claims : AccessTokenClaims → M AuthInfo
  auth_claims c = do refuse_revoked c; refuse_forced c; refuse_unknown c; pure (info_of c)

  abbrev pub parse_jwt : Text → M AccessTokenClaims
  parse_jwt t w = lift (a.jwt w.calls t) w

  -- What Auth hands on to the next handler.
  unfoldable pub auth : Option Text → M AuthInfo
  auth cookie = do t ← cookie_value cookie; c ← parse_jwt t; auth_claims c

  -- Admin over what Auth has handed on.
  abbrev pub is_master_role : Role → Bool
  is_master_role user = false
  is_master_role master = true

  unfoldable pub admin : {A : Type 0} → Option AuthInfo → M A → M A
  admin none next = throw unauthorized
  admin (some i) next = fail_if (not (is_master_role i.role)) forbidden >> next
