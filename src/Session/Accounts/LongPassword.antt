-- ===== src/Session/Accounts/LongPassword.antt =====
-- backend/usecase/auth_register.go over backend/crypto/password.go: passwords that bcrypt refuses.
use num_duel.Prelude.{ℕ, suc, ◌<◌, ◌≡◌, none, length, arith}
use num_duel.Model.{Text, user, ok, err, external}
use num_duel.World.{Env, World, Answers, tick}
use num_duel.Repository.Users.{user_has_email, user_has_username}
use num_duel.Api.Errors.{map_http_error}
use num_duel.Crypto.Token.{Libraries, hash_password}
use num_duel.Session.{AuthUseCase}
use num_duel.Session.Validate.{validate_username, validate_email, validate_password}
use num_duel.Session.Accounts.{email_or_username_exists, create_account, register_checked, register}

-- The documentation of bcrypt: GenerateFromPassword refuses a password of more than 72 bytes.
pub record RefusesLong (lib : Libraries) (reason : ℕ) : Type 0 where
  pub refuses :
      (n cost : ℕ) (password : Text)
      → 72 < length password
      → lib.bcrypt n password cost ≡ err (external reason)

module _ (env : Env) (a : AuthUseCase) (lib : Libraries) (reason : ℕ) where
  module _ (up : Answers env) (law : RefusesLong lib reason)
      (hashes : (n : ℕ) (p : Text) → a.hash_password n p ≡ hash_password lib n p)
      (name email password : Text) (w : World) (long : 72 < length password) where
    create-long :
        (v : World)
        → create_account env a name email password user v ≡ (err (external reason), tick v)
    unfolding create_account hash_password
    create-long v =
        let refused = law.refuses v.calls 12 password long in
        let same = hashes v.calls password in ground (arith, same, refused)

    register-refused :
        validate_username name ≡ ok tt
        → validate_email email ≡ ok tt
        → env.users.first (user_has_email email) w.db.users ≡ none
        → env.users.first (user_has_username name) w.db.users ≡ none
        → register env a name email password w ≡ (err (external reason), tick (tick (tick w)))
    unfolding register register_checked email_or_username_exists validate_password
    register-refused named addressed no_email no_name =
        ground (arith, create-long (tick (tick w)), up.answers w.calls, up.answers (suc w.calls))

    -- While the database answers, and where bcrypt hashes the passwords and refuses those of more
    -- than 72 bytes, a registration with such a password, with a name and an address that pass
    -- their checks and are not used, fails with the error of bcrypt and changes no table, and the
    -- answer is an internal error, the status 500.
    pub register-long_password :
        validate_username name ≡ ok tt
        → validate_email email ≡ ok tt
        → env.users.first (user_has_email email) w.db.users ≡ none
        → env.users.first (user_has_username name) w.db.users ≡ none
        → ((register env a name email password w).0 ≡ err (external reason))
          × ((register env a name email password w).1.db ≡ w.db)
          × ((map_http_error (external reason)).status ≡ 500)
    unfolding map_http_error
    register-long_password named addressed no_email no_name =
        ground (arith, register-refused named addressed no_email no_name)
