-- ===== src/Session/Accounts.antt =====
-- backend/usecase/auth_register.go, auth_me.go, auth_seed.go and auth_helpers.go: the accounts.
pub mod Laws
pub mod Login
pub mod LongPassword
use num_duel.Prelude.{ℕ, Bool, true, ◌||◌, Option, none, some, [], ◌∷◌, if◌then◌else◌}
use num_duel.Model.{
  Uuid, Time, Text, Role, User, user, master, is_some, is_empty, map_validation_err, unauthorized,
  duplicate_user, other,
}
use num_duel.World.{
  M, Env, get_now, new_uuid, pure, done, fail_if, or_throw, lift, map_err, with_tx, ◌>>=◌, ◌>>◌,
}
use num_duel.Repository.Users.{
  create_user, find_user_by_id, find_user_by_email, find_user_by_username, exists_active_master,
}
use num_duel.Session.{AuthUseCase, ask, missing_or_deleted}
use num_duel.Session.Validate.{
  validate_username, validate_email, validate_login_email, validate_password,
}

-- `masterUsername`, which is "admin"
abbrev pub master_username : Text
master_username = 97 ∷ 100 ∷ 109 ∷ 105 ∷ 110 ∷ []

-- The row of a new account.
abbrev pub new_user : Uuid → Text → Text → Text → Role → Time → User
new_user id username email hash role now = record {
  id = id;
  username = username;
  email = email;
  password_hash = hash;
  role = role;
  win_count = 0;
  deleted_at = none;
  deleted_by = none;
  last_activity_at = now;
  created_at = now;
  updated_at = now;
}

module _ (env : Env) where
  abbrev pub username_exists : Text → Option User → M Bool
  username_exists name (some u) = pure true
  username_exists name none = find_user_by_username env name >>= λ u. pure (is_some u)

  unfoldable pub email_or_username_exists : Text → Text → M Bool
  email_or_username_exists email name = find_user_by_email env email >>= username_exists name

  module _ (a : AuthUseCase) where
    -- The hash of the password, the row and its transaction, which Register and SeedMaster share.
    unfoldable pub create_account : Text → Text → Text → Role → M User
    create_account name email password role = do
      hash ← ask (λ n. a.hash_password n password)
      now ← get_now env
      id ← new_uuid env
      with_tx env (create_user env (new_user id name email hash role now))
      pure (new_user id name email hash role now)

    -- Register after its checks of the three texts.
    unfoldable pub register_checked : Text → Text → Text → M User
    register_checked name email password = do
      exists ← email_or_username_exists email name
      fail_if exists duplicate_user
      create_account name email password user

    unfoldable pub register : Text → Text → Text → M User
    register name email password = do
      map_err map_validation_err (lift (validate_username name))
      map_err map_validation_err (lift (validate_email email))
      map_err map_validation_err (lift (validate_password password))
      register_checked name email password

    unfoldable pub get_me : Uuid → M User
    get_me id = do
      found ← find_user_by_id env id
      fail_if (missing_or_deleted found) unauthorized
      or_throw found unauthorized

    -- SeedMaster where there is no master yet.
    unfoldable pub seed_checked : Text → Text → M (Unit {0})
    seed_checked email password = do
      map_err map_validation_err (lift (validate_login_email email))
      map_err map_validation_err (lift (validate_password password))
      exists ← email_or_username_exists email master_username
      fail_if exists (other 7)
      create_account master_username email password master
      done

    unfoldable pub seed_master : Text → Text → M (Unit {0})
    seed_master email password =
        if is_empty email || is_empty password
        then done
        else (exists_active_master env >>= λ exists.
            if exists then done else seed_checked email password)
