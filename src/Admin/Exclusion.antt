-- ===== src/Admin/Exclusion.antt =====
-- The deletion of a user (backend/usecase/admin.go) against the check of an access token
-- (backend/usecase/ws_auth.go).
use num_duel.Prelude.{◌≡◌, ◌≢◌, ap, ◌∙◌, some, List, arith, ◌==◌, if◌then◌else◌}
use num_duel.Model.{Uuid, Time, Text, User, ok, is_deleted}
use num_duel.World.{Env, World, Tables, Reads}
use num_duel.Repository.Users.{user_has_id}
use num_duel.Admin.{AdminUseCase, deleted_user, delete_user}
use num_duel.Admin.Laws.{delete_user-Deletes}
use num_duel.Session.Access.{WsAuthUseCase, AccessTokenClaims, authenticate}
use num_duel.Session.Access.Laws.{authenticate-known}

-- Save and First agree on the primary key of the users.
pub record KeyedUsers (env : Env) : Type 0 where
  pub first-id :
      (id : Uuid) (u : User) (t : List User)
      → env.users.first (user_has_id id) t ≡ some u
      → u.id ≡ id
  pub first-save :
      (id : Uuid) (u : User) (t : List User)
      → env.users.first (user_has_id id) (env.users.save u t)
        ≡ (if u.id == id then some u else env.users.first (user_has_id id) t)

module _ (env : Env) (a : AdminUseCase) (x : WsAuthUseCase) where
  deleted-found :
      (target admin : Uuid) (u : User) (now : Time) (t : List User)
      → KeyedUsers env
      → env.users.first (user_has_id target) t ≡ some u
      → env.users.first (user_has_id target) (env.users.save (deleted_user u admin now) t)
        ≡ some (deleted_user u admin now)
  deleted-found target admin u now t laws found =
      let same : u.id ≡ target = laws.first-id target u t found in
      ground (arith, laws.first-save target (deleted_user u admin now) t)

  -- Once an admin has deleted a user, no access token of that user is let in while the users
  -- table stays as it is then, given that Save and First agree on the primary key of the users
  -- and that the deletion of a session leaves the tables alone.
  pub delete_user-authenticate :
      (admin target : Uuid) (token : Text) (c : AccessTokenClaims) (w w' v v' : World) (id : Uuid)
      → KeyedUsers env
      → Reads (a.delete_session target)
      → delete_user env a admin target w ≡ (ok tt, w')
      → v.db.users ≡ w'.db.users
      → x.parse v.calls token ≡ ok c
      → c.user_id ≡ target
      → authenticate env x token v ≢ (ok id, v')
  unfolding is_deleted
  delete_user-authenticate admin target token c w w' v v' id laws reads gone same parsed whose h =
      let (_, (u, now, found, _, _, _, (_, _, _, db))) =
        delete_user-Deletes env a admin target w w' reads gone in
      let (c', parsed', user, _, _, (u', there, kept)) = authenticate-known env x token v v' id h in
      let one : c' ≡ c = ground arith in
      let users : v.db.users ≡ env.users.save (deleted_user u admin now) w.db.users =
        same ∙ ap (λ (d : Tables). d.users) db in
      let again = deleted-found target admin u now w.db.users laws found in
      let who : id ≡ target = user ∙ ap (λ (k : AccessTokenClaims). k.user_id) one ∙ whose in
      let there' = rw (who, users, again) at there in absurd (ground arith)
