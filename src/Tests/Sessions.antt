-- ===== src/Tests/Sessions.antt =====
-- Examples: a refresh token is used.
use num_duel.Prelude.{
  ◌+◌, ◌*◌, ◌≡◌, ◌≢◌, refl, true, false, some, List, [], ◌∷◌, ◌==◌, ◌&&◌, text_eq,
}
use num_duel.Model.{
  Uuid, Text, User, RefreshToken, ok, err, unauthorized, is_active, is_revoked, is_expired,
  is_deleted, new_refresh_token,
}
use num_duel.World.{World, with_tx, done}
use num_duel.Repository.Users.{token_has_hash, user_has_id}
use num_duel.RedisStore.{second}
use num_duel.Session.{
  AuthUseCase, SessionTokens, replace_token, rotate_for, rotate_refresh_token, refresh_stored,
}
use num_duel.Repository.Users.{user_has_email}
use num_duel.Session.Validate.{validate_login_email, validate_password, ends_with_at}
use num_duel.Session.{login, login_tx, issue_session}
use num_duel.Session.Laws.{
  in_use, replaced, issued_token, login-verified, refresh_stored-rotates, with_tx-rotate_gone,
}
use num_duel.Tests.Memory.{env, env-RollsBack, player, playing, world}

abbrev pub auth : AuthUseCase
auth = record {
  trim_space = λ t. t;
  refresh_hash = λ t. t;
  generate = λ n. ok (record { plaintext = 7 ∷ []; hash = 8 ∷ [] });
  issue = λ n u role now. ok (9 ∷ []);
  hash_password = λ n p. ok p;
  verify_password = text_eq;
  delete_session = λ u. done;
  jwt_revoker = true;
  ws_sessions = true;
  refresh_days = 7;
}

abbrev held : RefreshToken
held = new_refresh_token 30 1 (5 ∷ []) 40 900 10

abbrev with_token : World
with_token = let w = world playing in record w { db = record w.db { tokens = held ∷ [] } }

abbrev pub issued : SessionTokens
issued = record { access_token = 9 ∷ []; refresh_token = 7 ∷ [] }

abbrev refreshed : World
refreshed = (refresh_stored env auth (5 ∷ []) 50 held with_token).1

refreshed-ok : refresh_stored env auth (5 ∷ []) 50 held with_token ≡ (ok issued, refreshed)
unfolding refresh_stored with_tx rotate_refresh_token rotate_for replace_token is_active is_revoked
    is_expired is_deleted new_refresh_token text_eq
refreshed-ok = refl

refresh_stored-rotates_example :
    (locked : RefreshToken) × (u : User) × (new_hash : Text) × (id : Uuid) × (rows : List
      RefreshToken)
    × (env.tokens.first (token_has_hash (5 ∷ [])) with_token.db.tokens ≡ some locked)
    × (is_active locked 50 ≡ true)
    × (env.users.first (user_has_id locked.user_id) with_token.db.users ≡ some u)
    × (is_deleted u ≡ false)
    × (env.tokens.create
          (issued_token id u.id new_hash locked.family_id (50 + 7 * (86400 * second)) 50)
          with_token.db.tokens
        ≡ some rows)
    × ((env.tokens.updates (λ t. t.id == locked.id && in_use t) (replaced 50 id) rows).0 ≢ 0)
    × (refreshed.db ≡ record with_token.db {
      tokens = (env.tokens.updates (λ t. t.id == locked.id && in_use t) (replaced 50 id) rows).1;
      users =
          env.users.save (record u { last_activity_at = 50; updated_at = 50 }) with_token.db.users;
    })
refresh_stored-rotates_example =
    refresh_stored-rotates env auth (5 ∷ []) 50 held with_token refreshed issued refreshed-ok

-- The user 1 is deleted.
abbrev orphaned : World
orphaned =
    let w = with_token in
    record w { db = record w.db { users = record (player 1) { deleted_at = some 20 } ∷ [] } }

abbrev refused : World
refused = (with_tx env (rotate_refresh_token env auth (5 ∷ []) 50) orphaned).1

refused-err :
    with_tx env (rotate_refresh_token env auth (5 ∷ []) 50) orphaned ≡ (err unauthorized, refused)
unfolding with_tx rotate_refresh_token rotate_for is_active is_revoked is_expired is_deleted
    new_refresh_token text_eq
refused-err = refl

orphaned-found : env.tokens.first (token_has_hash (5 ∷ [])) orphaned.db.tokens ≡ some held
unfolding new_refresh_token text_eq
orphaned-found = refl

with_tx-rotate_gone_example : refused.db ≡ orphaned.db
unfolding is_deleted new_refresh_token
with_tx-rotate_gone_example =
    with_tx-rotate_gone env auth (5 ∷ []) 50 orphaned refused (err unauthorized) held env-RollsBack
      orphaned-found refl refused-err

abbrev pub email : Text
email = 97 ∷ 64 ∷ 98 ∷ []

abbrev pub password : Text
password = 49 ∷ 50 ∷ 51 ∷ 52 ∷ 53 ∷ 54 ∷ 55 ∷ 56 ∷ []

abbrev member : User
member = record (player 1) { email = email; password_hash = password }

abbrev before_login : World
before_login = let w = world playing in record w { db = record w.db { users = member ∷ [] } }

abbrev logged_in : World
logged_in = (login env auth email password before_login).1

login-ok : login env auth email password before_login ≡ (ok (member, issued), logged_in)
unfolding login login_tx issue_session with_tx validate_login_email validate_password ends_with_at
    is_deleted text_eq
login-ok = refl

login-verified_example :
    (validate_login_email email ≡ ok tt)
    × (validate_password password ≡ ok tt)
    × (env.users.first (user_has_email email) before_login.db.users ≡ some member)
    × (is_deleted member ≡ false)
    × (auth.verify_password member.password_hash password ≡ true)
login-verified_example =
    login-verified env auth email password before_login logged_in member issued login-ok
