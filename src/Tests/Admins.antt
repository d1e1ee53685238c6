-- ===== src/Tests/Admins.antt =====
-- Examples: an admin deletes a user, and the user's access token is refused.
use num_duel.Prelude.{
  ◌≡◌, ◌≢◌, refl, true, false, none, some, List, [], ◌∷◌, ◌==◌, arith, if◌then◌else◌,
}
use num_duel.Model.{Uuid, Time, User, ok, finished, user, is_deleted, is_master}
use num_duel.World.{World, Reads, with_tx, pure, ◌>>=◌}
use num_duel.RedisStore.{delete_ws_user}
use num_duel.Repository.Users.{user_has_id}
use num_duel.Repository.Games.{game_has_player}
use num_duel.Matching.{first_active, find_active_game_for_user}
use num_duel.Admin.{
  AdminUseCase, check_target, delete_user, delete_locked, delete_target, delete_user_tx,
  sanitize_csv_cell,
}
use num_duel.Admin.Laws.{Deletes, delete_user-Deletes}
use num_duel.Admin.Exclusion.{KeyedUsers, delete_user-authenticate}
use num_duel.Session.Access.{
  WsAuthUseCase, AccessTokenClaims, authenticate, authenticate_claims, known_user,
}
use num_duel.Session.Access.Laws.{NotRevoked, NotForced, authenticate-known}
use num_duel.Api.Guard.{AuthConfig, auth}
use num_duel.Api.Guard.Laws.{socket_of, auth-authenticate}
use num_duel.Tests.Memory.{env, first_row, save_row, playing, world}

abbrev pub admin : AdminUseCase
admin = record {
  ranking = none;
  ws_sessions = true;
  delete_session = delete_ws_user env;
  force_logout = true;
  locks = true;
  admin_lock_ttl = 10;
}

-- The game of the players 1 and 2 is over.
abbrev pub idle : World
idle = world (record playing { status = finished })

abbrev admin_id : Uuid
admin_id = 9

abbrev deleted : World
deleted = (delete_user env admin admin_id 2 idle).1

deleted-ok : delete_user env admin admin_id 2 idle ≡ (ok tt, deleted)
unfolding delete_user delete_locked delete_target delete_user_tx check_target
    find_active_game_for_user first_active with_tx is_deleted is_master
deleted-ok = refl

delete_session-Reads : Reads (admin.delete_session 2)
delete_session-Reads w = refl

first-id_users :
    (id : Uuid) (u : User) (t : List User) → first_row (user_has_id id) t ≡ some u → u.id ≡ id
first-id_users id u [] h = cc
first-id_users id u (x ∷ xs) h = ground (arith, first-id_users id u xs)

first-save_users :
    (id : Uuid) (u : User) (t : List User)
    → first_row (user_has_id id) (save_row (λ r. r.id) u t)
      ≡ (if u.id == id then some u else first_row (user_has_id id) t)
first-save_users id u [] = refl
first-save_users id u (x ∷ xs) = ground (arith, first-save_users id u xs)

env-KeyedUsers : KeyedUsers env
env-KeyedUsers = record { first-id = first-id_users; first-save = first-save_users }

delete_user-Deletes_example :
    (admin_id ≢ 2)
    × ((u : User) × (now : Time) × (env.users.first (user_has_id 2) idle.db.users ≡ some u)
        × (is_deleted u ≡ false)
        × (is_master u ≡ false)
        × (first_active (env.games.find (game_has_player 2) idle.db.games) ≡ none)
        × Deletes env admin_id 2 u now idle.db deleted.db)
delete_user-Deletes_example =
    delete_user-Deletes env admin admin_id 2 idle deleted delete_session-Reads deleted-ok

abbrev pub claims : AccessTokenClaims
claims = record { user_id = 2; role = user; jti = 7 ∷ []; issued_at = 900; expires_at = 5000 }

abbrev pub gate : WsAuthUseCase
gate = record { parse = λ n t. ok claims; revoker = true; force_logout = true; notifier = true }

abbrev admitted : World
admitted = (authenticate env gate (1 ∷ []) idle).1

admitted-ok : authenticate env gate (1 ∷ []) idle ≡ (ok 2, admitted)
unfolding authenticate authenticate_claims known_user is_deleted
admitted-ok = refl

authenticate-known_example :
    (c : AccessTokenClaims) × (gate.parse idle.calls (1 ∷ []) ≡ ok c)
    × (2 ≡ c.user_id)
    × NotRevoked env gate c idle
    × ((v : World) × (v.db ≡ idle.db) × (v.redis ≡ idle.redis) × NotForced env gate c v)
    × ((u : User) × (env.users.first (user_has_id 2) idle.db.users ≡ some u)
        × (is_deleted u ≡ false))
authenticate-known_example = authenticate-known env gate (1 ∷ []) idle admitted 2 admitted-ok

abbrev pub cookie_gate : AuthConfig
cookie_gate = record { jwt = λ n t. ok claims; revoker = true; force_logout = true; users = true }

auth-authenticate_example :
    (auth env cookie_gate (some (1 ∷ [])) >>= λ i. pure i.user_id) idle
    ≡ authenticate env (socket_of cookie_gate) (1 ∷ []) idle
auth-authenticate_example = auth-authenticate env cookie_gate refl (1 ∷ []) idle

delete_user-authenticate_example : authenticate env gate (1 ∷ []) deleted ≢ (ok 2, admitted)
delete_user-authenticate_example =
    delete_user-authenticate env admin gate admin_id 2 (1 ∷ []) claims idle deleted deleted admitted
      2 env-KeyedUsers delete_session-Reads deleted-ok refl refl refl

formula_cell : sanitize_csv_cell (61 ∷ 49 ∷ []) ≡ 39 ∷ 61 ∷ 49 ∷ []
unfolding sanitize_csv_cell
formula_cell = refl
