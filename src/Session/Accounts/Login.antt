-- ===== src/Session/Accounts/Login.antt =====
-- A login with an account that has been registered.
use mathlib.Core.Option.{some-injective as some_injective}
use num_duel.Prelude.{
  ℕ, suc, All, length, ◌≤◌, ◌≢◌, ◌≡◌, refl, sym, ap, ◌∙◌, true, false, none, some, List, arith,
}
use num_duel.Model.{
  Uuid, Time, Text, User, Role, user, RefreshToken, Result, Result-cases, ok, err, is_deleted,
  new_refresh_token, unauthorized,
}
use num_duel.Model
use num_duel.World.{
  Env, Answers, World, LoginLog, Tables, tick, bind-ok, Succeeds, with_tx-Succeeds, ◌>>=◌,
}
use num_duel.Repository.Users.{user_has_email}
use num_duel.Session.{
  AuthUseCase, SessionTokens, TokenPair, login, login_tx, issue_session, token_expiry,
  create_login_log, touch_user_activity,
}
use num_duel.Session.Laws.{login-verified}
use num_duel.Session.Validate.{validate_login_email, validate_password}
use num_duel.Session.Accounts.{register}
use num_duel.Session.Accounts.Laws.{register-Registers}

-- First finds a row that Create has stored.
pub record FindsCreated (env : Env) : Type 0 where
  pub created :
      (u : User) (t t' : List User)
      → env.users.first (user_has_email u.email) t ≡ none
      → env.users.create u t ≡ some t'
      → env.users.first (user_has_email u.email) t' ≡ some u

-- Tables that take a row whose keys no other row has and whose hash fits its column, an issuer and
-- a generator that do not fail, and a hash that verifies.
pub record Works (env : Env) (a : AuthUseCase) : Type 0 where
  pub logs :
      (l : LoginLog) (t : List LoginLog)
      → All (λ x. x.id ≢ l.id) t
      → (t' : List LoginLog) × (env.login_logs.create l t ≡ some t')
  pub stores :
      (x : RefreshToken) (t : List RefreshToken)
      → All (λ y. (y.id ≢ x.id) × (y.token_hash ≢ x.token_hash)) t
      → length x.token_hash ≤ 255
      → (t' : List RefreshToken) × (env.tokens.create x t ≡ some t')
  pub issues :
      (n : ℕ) (u : Uuid) (r : Role) (now : Time) → (token : Text) × (a.issue n u r now ≡ ok token)
  pub generates : (n : ℕ) → (pair : TokenPair) × (a.generate n ≡ ok pair) × (length pair.hash ≤ 255)
  pub verifies :
      (n : ℕ) (password hash : Text)
      → a.hash_password n password ≡ ok hash
      → a.verify_password hash password ≡ true

-- No token has an identity or a hash that is drawn from the call k on, and no entry of the log of
-- logins has such an identity.
abbrev pub NewTokens : Env → AuthUseCase → ℕ → List RefreshToken → Type 0
NewTokens env a k tokens =
    (n m : ℕ) (pair : TokenPair)
    → k ≤ n
    → k ≤ m
    → a.generate n ≡ ok pair
    → All (λ t. (t.id ≢ env.fresh m) × (t.token_hash ≢ pair.hash)) tokens

abbrev pub NewLogs : Env → ℕ → List LoginLog → Type 0
NewLogs env k logs = (n : ℕ) → k ≤ n → All (λ l. l.id ≢ env.fresh n) logs

module _ (env : Env) (a : AuthUseCase) where
  registered-found :
      (name email password : Text) (w w' : World) (u : User)
      → FindsCreated env
      → register env a name email password w ≡ (ok u, w')
      → (env.users.first (user_has_email email) w'.db.users ≡ some u)
        × (is_deleted u ≡ false)
        × (validate_password password ≡ ok tt)
        × ((n : ℕ) × (a.hash_password n password ≡ ok u.password_hash))
  unfolding is_deleted
  registered-found name email password w w' u laws h =
      let (_, _, strong, no_email, _, (n, hash, hashed, (id, now, rows, row, made, db))) =
        register-Registers env a name email password w w' u h in
      let mail : u.email ≡ email = ap (λ (x : User). x.email) row in
      let secret : u.password_hash ≡ hash = ap (λ (x : User). x.password_hash) row in
      let there = laws.created u w.db.users rows (rw (← mail) at no_email) made in
      (
        ap (λ e. env.users.first (user_has_email e) w'.db.users) (sym mail)
            ∙ ap (λ t. env.users.first (user_has_email u.email) t) (ap (λ (d : Tables). d.users) db)
            ∙ there,
        rw row refl,
        strong,
        (n, hashed ∙ ap ok (sym secret)),
      )

  -- A login with an address that was registered is for the account that was registered, with a
  -- password that its hash verifies, and the address passes the check of a login, which is
  -- stricter than that of a registration.
  pub register-login :
      (name email password other : Text) (w w' v v' : World) (u u' : User) (r : SessionTokens)
      → FindsCreated env
      → register env a name email password w ≡ (ok u, w')
      → v.db.users ≡ w'.db.users
      → login env a email other v ≡ (ok (u', r), v')
      → (u' ≡ u)
        × (validate_login_email email ≡ ok tt)
        × (a.verify_password u.password_hash other ≡ true)
  register-login name email password other w w' v v' u u' r laws registered same h =
      let (there, _, _, _) = registered-found name email password w w' u laws registered in
      let (mailed, _, found, _, verified) = login-verified env a email other v v' u' r h in
      let one : u' ≡ u =
        some_injective u' u
          (sym found ∙ (ap (λ t. env.users.first (user_has_email email) t) same ∙ there)) in
      (one, mailed, rw one at verified)

  module _ (up : Answers env) (works : Works env a) where
    issue_session-Succeeds :
        (k : ℕ) (u : User) (w : World)
        → k ≤ w.calls
        → NewTokens env a k w.db.tokens
        → Succeeds (issue_session env a u) w
    unfolding issue_session new_refresh_token
    issue_session-Succeeds k u w later unused =
        let now = env.now w.calls in
        let (token, issued) = works.issues (suc w.calls) u.id u.role now in
        let (pair, made, fits) = works.generates (suc (suc w.calls)) in
        let v = tick (tick (tick (tick (tick w)))) in
        let row =
          new_refresh_token (env.fresh (suc (suc (suc (suc w.calls))))) u.id pair.hash
            (env.fresh (suc (suc (suc w.calls)))) (token_expiry a now) now in
        let (rows, stored) =
          works.stores row v.db.tokens
            (unused (suc (suc w.calls)) (suc (suc (suc (suc w.calls)))) pair (omega arith)
              (omega arith) made)
            fits in
        (
          record { access_token = token; refresh_token = pair.plaintext },
          tick (record v { db = record v.db { tokens = rows } }),
          ground (arith, issued, made, stored, up.answers v.calls),
        )

    login_tx-Succeeds :
        (k : ℕ) (u : User) (now : Time) (w : World)
        → k ≤ w.calls
        → NewLogs env k w.db.login_logs
        → NewTokens env a k w.db.tokens
        → Succeeds (login_tx env a u now) w
    unfolding login_tx
    login_tx-Succeeds k u now w later unlogged unused =
        let log : LoginLog = record {
          id = env.fresh w.calls;
          user_id = u.id;
          action = Model.login;
          created_at = now;
          updated_at = now;
        } in
        let (logs, logged) = works.logs log w.db.login_logs (unlogged w.calls later) in
        let u' : User = record u { last_activity_at = now; updated_at = now } in
        let v = tick (tick (record w { db = record w.db { login_logs = logs } })) in
        let v1 = tick (record v { db = record v.db { users = env.users.save u' v.db.users } }) in
        let note = create_login_log env a u.id Model.login now in
        let touch = touch_user_activity env a u now in
        let issue = issue_session env a u' in
        let noted : note w ≡ (ok tt, v) = ground (arith, logged, up.answers (suc w.calls)) in
        let touched : touch v ≡ (ok tt, v1) = ground (arith, up.answers v.calls) in
        let (r, v2, issued) = issue_session-Succeeds k u' v1 (omega arith) unused in
        (
          r,
          v2,
          bind-ok note (λ _. touch >>= λ _. issue) w noted
              ∙ (bind-ok touch (λ _. issue) v touched ∙ issued),
        )

    -- After a registration with an address that a login accepts, a login with that address and
    -- password ends well, for the new user, while the users table stays as it is then, given that
    -- the database answers, that the tables of tokens and logins take rows whose unique keys are
    -- new and whose hash fits, that the identities and the hash that are drawn are new, that the
    -- interfaces of tokens do not fail and give a hash that fits, that First finds what Create
    -- has stored, and that a hash verifies its password.
    pub register-logs_in :
        (name email password : Text) (w w' v : World) (u : User)
        → FindsCreated env
        → register env a name email password w ≡ (ok u, w')
        → v.db.users ≡ w'.db.users
        → validate_login_email email ≡ ok tt
        → NewLogs env v.calls v.db.login_logs
        → NewTokens env a v.calls v.db.tokens
        → (r : SessionTokens) × (v' : World) × (login env a email password v ≡ (ok (u, r), v'))
    unfolding login
    register-logs_in name email password w w' v u laws registered same mailed unlogged unused =
        let (there, kept, strong, (n, hashed)) =
          registered-found name email password w w' u laws registered in
        let found : env.users.first (user_has_email email) v.db.users ≡ some u =
          ap (λ t. env.users.first (user_has_email email) t) same ∙ there in
        let verified = works.verifies n password u.password_hash hashed in
        let now = env.now (suc v.calls) in
        let start = tick (tick v) in
        let (r, v', logged) =
          with_tx-Succeeds env up (login_tx env a u now) start
            (login_tx-Succeeds v.calls u now start (omega arith) unlogged unused) in
        (r, v', (ground (arith, up.answers v.calls)))
