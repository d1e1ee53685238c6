-- ===== src/Session.antt =====
-- backend/usecase/auth_refresh.go, auth_login.go, auth_logout.go and auth_session.go: sessions and their
-- refresh tokens. Passwords, access tokens, the making of refresh tokens, `strings.TrimSpace` and
-- the store of connections are the interfaces that the use case is built with.
pub mod Laws
pub mod Validate
pub mod Access
pub mod Accounts
pub mod AutoLogout
pub mod Cleanup
use num_duel.Prelude.{
  ℕ, ◌+◌, ◌*◌, ◌-◌, Bool, true, false, not, ◌||◌, Option, none, some, if◌then◌else◌, leb,
}
use num_duel.Model.{
  Uuid, Time, Text, Role, User, RefreshToken, RefreshTokenStatus, active, revoked, LoginAction,
  Result, map_validation_err, unauthorized, is_empty, is_deleted, is_active, new_refresh_token,
}
use num_duel.Model
use num_duel.World.{
  M, Env, LoginLog, tick, get_now, new_uuid, pure, throw, done, when, fail_if, or_throw, ignore,
  lift, map_err, with_tx, ◌>>=◌, ◌>>◌,
}
use num_duel.Repository.Users.{
  update_user, find_user_by_id, find_user_by_email, find_token_by_hash,
  find_token_by_hash_for_update, create_token, mark_token_used, revoke_token,
  revoke_tokens_by_family_id, revoke_tokens_by_user_id,
}
use num_duel.Repository.Logs.{create_login_log_row}
use num_duel.Session.Validate.{validate_login_email, validate_password}
use num_duel.RedisStore.{second, revoke_jwt}

-- `RefreshTokenPair`
pub record TokenPair : Type 0 where
  pub plaintext : Text
  pub hash : Text

-- `SessionTokens` and `RefreshResult`
pub record SessionTokens : Type 0 where
  pub access_token : Text
  pub refresh_token : Text

pub record AuthUseCase : Type 0 where
  pub trim_space : Text → Text
  pub refresh_hash : Text → Text
  pub generate : ℕ → Result TokenPair
  pub issue : ℕ → Uuid → Role → Time → Result Text
  pub hash_password : ℕ → Text → Result Text
  pub verify_password : Text → Text → Bool
  pub delete_session : Uuid → M (Unit {0})
  pub jwt_revoker : Bool
  pub ws_sessions : Bool
  pub refresh_days : ℕ

-- A call of one of the interfaces.
abbrev pub ask : {A : Type 0} → (ℕ → Result A) → M A
ask f w = (f w.calls, tick w)

abbrev pub token_expiry : AuthUseCase → Time → Time
token_expiry a now = now + a.refresh_days * (86400 * second)

abbrev pub is_revoked_status : RefreshTokenStatus → Bool
is_revoked_status active = false
is_revoked_status revoked = true

abbrev pub missing_or_deleted : Option User → Bool
missing_or_deleted none = true
missing_or_deleted (some u) = is_deleted u

module _ (env : Env) (a : AuthUseCase) where
  abbrev pub touch_user_activity : User → Time → M (Unit {0})
  touch_user_activity u now =
      update_user env (record u { last_activity_at = now; updated_at = now })

  abbrev pub create_login_log : Uuid → LoginAction → Time → M (Unit {0})
  create_login_log user action now = do
    id ← new_uuid env
    create_login_log_row env
        (record { id = id; user_id = user; action = action; created_at = now; updated_at = now })

  unfoldable pub issue_session : User → M SessionTokens
  unfolding new_refresh_token
  issue_session u = do
    now ← get_now env
    access ← ask (λ n. a.issue n u.id u.role now)
    pair ← ask a.generate
    family ← new_uuid env
    id ← new_uuid env
    create_token env (new_refresh_token id u.id pair.hash family (token_expiry a now) now)
    pure (record { access_token = access; refresh_token = pair.plaintext })

  -- The part of rotateRefreshToken that makes the new token.
  unfoldable pub replace_token : RefreshToken → Time → User → M SessionTokens
  unfolding new_refresh_token
  replace_token locked now u = do
    access ← ask (λ n. a.issue n u.id u.role now)
    pair ← ask a.generate
    id ← new_uuid env
    create_token env (new_refresh_token id u.id pair.hash locked.family_id (token_expiry a now) now)
    mark_token_used env locked.id now id
    touch_user_activity u now
    pure (record { access_token = access; refresh_token = pair.plaintext })

  -- A token of a user who is gone.
  abbrev pub refuse_token : RefreshToken → Time → M SessionTokens
  refuse_token locked now = ignore (revoke_token env locked.id now) >> throw unauthorized

  unfoldable pub rotate_for : RefreshToken → Time → Option User → M SessionTokens
  unfolding replace_token is_deleted
  rotate_for locked now none = refuse_token locked now
  rotate_for locked now (some u) =
      if is_deleted u then refuse_token locked now else replace_token locked now u

  unfoldable pub rotate_refresh_token : Text → Time → M SessionTokens
  unfolding rotate_for is_active
  rotate_refresh_token hash now = do
    found ← find_token_by_hash_for_update env hash
    locked ← or_throw found unauthorized
    fail_if (not (is_active locked now)) unauthorized
    user ← find_user_by_id env locked.user_id
    rotate_for locked now user

  unfoldable pub handle_reused_refresh_token : RefreshToken → Time → M (Unit {0})
  unfolding with_tx
  handle_reused_refresh_token stored now = do
    with_tx env (revoke_tokens_by_family_id env stored.family_id now)
    when a.ws_sessions (ignore (a.delete_session stored.user_id))

  -- Refresh with the token that was found.
  unfoldable pub refresh_stored : Text → Time → RefreshToken → M SessionTokens
  unfolding handle_reused_refresh_token rotate_refresh_token is_active
  refresh_stored hash now stored =
      if is_revoked_status stored.status
      then (handle_reused_refresh_token stored now >> throw unauthorized)
      else if not (is_active stored now)
      then (revoke_token env stored.id now >> throw unauthorized)
      else with_tx env (rotate_refresh_token hash now)

  unfoldable pub refresh : Text → M SessionTokens
  unfolding refresh_stored
  refresh presented = do
    let plain = a.trim_space presented
    fail_if (is_empty plain) unauthorized
    now ← get_now env
    found ← find_token_by_hash env (a.refresh_hash plain)
    stored ← or_throw found unauthorized
    refresh_stored (a.refresh_hash plain) now stored

  -- The transaction of Login.
  unfoldable pub login_tx : User → Time → M SessionTokens
  login_tx u now = do
    create_login_log u.id Model.login now
    touch_user_activity u now
    issue_session (record u { last_activity_at = now; updated_at = now })

  -- `findUserByEmailActive` with the check of the password.
  abbrev pub login_user : Text → Option User → M User
  login_user password none = throw unauthorized
  login_user password (some u) =
      if is_deleted u || not (a.verify_password u.password_hash password)
      then throw unauthorized
      else pure u

  -- The user and the tokens of a login.
  unfoldable pub login : Text → Text → M (User × SessionTokens)
  login email password = do
    map_err map_validation_err (lift (validate_login_email email))
    map_err map_validation_err (lift (validate_password password))
    found ← find_user_by_email env email
    u ← login_user password found
    now ← get_now env
    tokens ← with_tx env (login_tx u now)
    pure (u, tokens)

  -- Logout with the user, the token's identity and its end.
  unfoldable pub logout : Uuid → Text → Time → M (Unit {0})
  unfolding with_tx
  logout user jti exp = do
    now ← get_now env
    fail_if (is_empty jti || leb exp now) unauthorized
    when a.jwt_revoker (revoke_jwt env jti (exp - now))
    when a.ws_sessions (ignore (a.delete_session user))
    with_tx env (do
      revoke_tokens_by_user_id env user now
      create_login_log user Model.logout now
      found ← find_user_by_id env user
      elim found [ none ↦ done | some u ↦ touch_user_activity u now ])
