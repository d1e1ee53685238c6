-- ===== src/Tests/Accounts.antt =====
-- Examples: an account is registered, and its owner logs in.
use mathlib.Core.Option.{some-injective as some_injective}
use num_duel.Prelude.{
  ℕ, ◌≡◌, refl, true, none, some, List, [], ◌∷◌, ◌++◌, arith, text_eq, text_eq_iff, ap, sym, ◌∙◌,
}
use num_duel.Model.{Uuid, Text, User, ok, ok_injective, is_deleted, new_refresh_token}
use num_duel.World.{World, with_tx}
use num_duel.Repository.Users.{user_has_email, user_has_username}
use num_duel.Session.{SessionTokens, login, login_tx, issue_session}
use num_duel.Session.Validate.{
  validate_username, validate_email, validate_password, validate_login_email, all_username_chars,
  ends_with_at,
}
use num_duel.Session.Accounts.{email_or_username_exists, create_account, register_checked, register}
use num_duel.Session.Accounts.Laws.{Registers, register-Registers}
use num_duel.Session.Accounts.Login.{
  FindsCreated, Works, NewLogs, NewTokens, register-login, register-logs_in,
}
use num_duel.Tests.Memory.{env, first_row, playing, world}
use num_duel.Tests.Sessions.{auth, email, password, issued}

abbrev name : Text
name = 98 ∷ 111 ∷ 98 ∷ []

abbrev registered : World
registered = (register env auth name email password (world playing)).1

abbrev member : User
member = record {
  id = 104;
  username = name;
  email = email;
  password_hash = password;
  role = num_duel.Model.user;
  win_count = 0;
  deleted_at = none;
  deleted_by = none;
  last_activity_at = 1003;
  created_at = 1003;
  updated_at = 1003;
}

registered-ok : register env auth name email password (world playing) ≡ (ok member, registered)
unfolding register register_checked create_account email_or_username_exists validate_username
    validate_email validate_password all_username_chars text_eq with_tx
registered-ok = refl

register-Registers_example :
    (validate_username name ≡ ok tt)
    × (validate_email email ≡ ok tt)
    × (validate_password password ≡ ok tt)
    × (env.users.first (user_has_email email) (world playing).db.users ≡ none)
    × (env.users.first (user_has_username name) (world playing).db.users ≡ none)
    × ((n : ℕ) × (hash : Text) × (auth.hash_password n password ≡ ok hash)
        × Registers env name email hash member (world playing).db registered.db)
register-Registers_example =
    register-Registers env auth name email password (world playing) registered member registered-ok

first-created :
    (u : User) (t : List User)
    → first_row (user_has_email u.email) t ≡ none
    → first_row (user_has_email u.email) (t ++ u ∷ []) ≡ some u
first-created u [] h = ground (arith, text_eq_iff u.email u.email)
first-created u (x ∷ xs) h = ground (arith, first-created u xs)

env-FindsCreated : FindsCreated env
env-FindsCreated = record {
  created = λ u t t' none_there made.
      ap (first_row (user_has_email u.email)) (some_injective t' _ (sym made))
      ∙ first-created u t none_there;
}

env-Works : Works env auth
env-Works = record {
  logs = λ l t h. (_, refl);
  stores = λ x t h e. (_, refl);
  issues = λ n u r now. (_, refl);
  generates = λ n. (_, refl, omega arith);
  verifies = λ n p hash h. (text_eq_iff hash p).1 (sym (ok_injective h));
}

login_email-ok : validate_login_email email ≡ ok tt
unfolding validate_login_email ends_with_at
login_email-ok = refl

no_session_yet :
    NewLogs env registered.calls registered.db.login_logs
    × NewTokens env auth registered.calls registered.db.tokens
unfolding register validate_username validate_email validate_password register_checked
    email_or_username_exists text_eq create_account with_tx all_username_chars
no_session_yet = (λ n h. tt, λ n m pair h e made. tt)

register-logs_in_example :
    (r : SessionTokens) × (v : World) × (login env auth email password registered
      ≡ (ok (member, r), v))
register-logs_in_example =
    register-logs_in env auth (record { answers = λ n. refl }) env-Works name email password
      (world playing) registered registered member env-FindsCreated registered-ok refl
      login_email-ok no_session_yet.0 no_session_yet.1

abbrev entered : World
entered = (login env auth email password registered).1

entered-ok : login env auth email password registered ≡ (ok (member, issued), entered)
unfolding register register_checked create_account email_or_username_exists login login_tx
    issue_session validate_username validate_email validate_login_email validate_password
    all_username_chars ends_with_at is_deleted new_refresh_token text_eq with_tx
entered-ok = refl

member_entered :
    (member ≡ member)
    × (validate_login_email email ≡ ok tt)
    × (auth.verify_password member.password_hash password ≡ true)
member_entered =
    register-login env auth name email password password (world playing) registered registered
      entered member member issued env-FindsCreated registered-ok refl entered-ok
