-- ===== src/Http/Router/Laws.antt =====
-- backend/router/router.go: who gets through to the handlers of the administration.
use mathlib.Core.Path.{subst}
use num_duel.Prelude.{
  ◌≡◌, refl, ap, ◌⊎◌, inl, inr, Bool, true, false, not, Option, none, some, arith, ◌&&◌, ◌==◌, ltb,
}
use num_duel.Model.{Time, Text, Role, user, master, Result, ok, err, forbidden, unauthorized, User}
use num_duel.World.{
  M, Env, World, Tables, Reads, bind-Reads, redis_call-Reads, when-Reads, Value, mark, connection,
  turn_value, unix_seconds, backup_value, jwt_revoked, force_logout, pure, fail_if, tick, ◌>>=◌,
}
use num_duel.Repository.Users.{find_user_by_id}
use num_duel.RedisStore.{redis_get, read_force_logout, is_jwt_revoked, get_force_logout_before}
use num_duel.Session.{missing_or_deleted}
use num_duel.Session.Access.{AccessTokenClaims}
use num_duel.Api.Guard.{
  AuthConfig, AuthInfo, cookie_value, parse_jwt, refuse_revoked, refuse_forced, refuse_unknown,
  auth_claims, auth, admin, info_of,
}
use num_duel.Api.RateLimit.{allow}
use num_duel.Http.Request.{Request, Reply, Content, error_content, write_error}
use num_duel.Http.Controllers.{Deps, HttpHandler}
use num_duel.Http.Router.{
  AdminRoute, to_admin, Server, activity_update, behind_admin, behind_user_limit, after_auth,
  protected, dispatch, admin_handler, granted, minute,
}

abbrev pub is_error : Content → Bool
is_error (error_content a) = true
is_error _ = false

Role-cases : (r : Role) → (r ≡ user) ⊎ (r ≡ master)
Role-cases user = inl refl
Role-cases master = inr refl

-- Nothing but the rows of the users may be different.
abbrev pub KeepsOthers : Tables → Tables → Type 0
KeepsOthers db db' = db' ≡ record db { users = db'.users }

read_force_logout-Reads : (v : Option Value) → Reads (read_force_logout v)
read_force_logout-Reads none w = refl
read_force_logout-Reads (some (unix_seconds s)) w = refl
read_force_logout-Reads (some mark) w = refl
read_force_logout-Reads (some (connection c)) w = refl
read_force_logout-Reads (some (turn_value t)) w = refl
read_force_logout-Reads (some (backup_value t at)) w = refl

cookie_value-Reads : (cookie : Option Text) → Reads (cookie_value cookie)
cookie_value-Reads none w = refl
cookie_value-Reads (some t) w = ground arith

module _ (env : Env) (a : AuthConfig) (c : AccessTokenClaims) where
  refuse_revoked-Reads : Reads (refuse_revoked env a c)
  refuse_revoked-Reads =
      when-Reads a.revoker (is_jwt_revoked env c.jti >>= λ b. fail_if b unauthorized) (
        bind-Reads (is_jwt_revoked env c.jti) (λ b. fail_if b unauthorized)
          (bind-Reads (redis_get env (jwt_revoked c.jti))
            (λ v. pure (elim v [ none ↦ false | some _ ↦ true ]))
            (redis_call-Reads env (λ n r. (env.server.get n (jwt_revoked c.jti) r, r)))
            (λ v w. refl))
          (λ b w. refl))

  refuse_forced-Reads : Reads (refuse_forced env a c)
  refuse_forced-Reads =
      let test : Time → M (Unit {0}) =
        λ before. fail_if (not (before == 0) && ltb c.issued_at before) unauthorized in
      when-Reads (a.force_logout && not (c.issued_at == 0))
        (get_force_logout_before env c.user_id >>= test)
        (bind-Reads (get_force_logout_before env c.user_id) test
          (bind-Reads (redis_get env (force_logout c.user_id)) read_force_logout
            (redis_call-Reads env (λ n r. (env.server.get n (force_logout c.user_id) r, r)))
            read_force_logout-Reads)
          (λ before w. refl))

  refuse_unknown-Reads : Reads (refuse_unknown env a c)
  refuse_unknown-Reads =
      let test : Option User → M (Unit {0}) = λ u. fail_if (missing_or_deleted u) unauthorized in
      when-Reads a.users (find_user_by_id env c.user_id >>= test)
        (bind-Reads (find_user_by_id env c.user_id) test (λ w. refl) (λ u w. refl))

  auth_claims-Reads : Reads (auth_claims env a c)
  unfolding auth_claims
  auth_claims-Reads =
      let last : M AuthInfo = refuse_unknown env a c >>= λ _. pure (info_of c) in
      bind-Reads (refuse_revoked env a c) (λ _. refuse_forced env a c >>= λ _. last)
        refuse_revoked-Reads
        (λ _.
          bind-Reads (refuse_forced env a c) (λ _. last) refuse_forced-Reads
            (λ _.
              bind-Reads (refuse_unknown env a c) (λ _. pure (info_of c)) refuse_unknown-Reads
                (λ _ w. refl)))

KeepsOthers-same : (db db' : Tables) → db' ≡ db → KeepsOthers db db'
KeepsOthers-same db db' h = rw h refl

module _ (env : Env) (d : Deps) where
  auth-Reads : (cookie : Option Text) → Reads (auth env d.auth_config cookie)
  unfolding auth
  auth-Reads cookie =
      bind-Reads (cookie_value cookie)
        (λ t. parse_jwt env d.auth_config t >>= λ c. auth_claims env d.auth_config c)
        (cookie_value-Reads cookie)
        (λ t.
          bind-Reads (parse_jwt env d.auth_config t) (λ c. auth_claims env d.auth_config c)
            (λ w. refl) (λ c. auth_claims-Reads env d.auth_config c))

  behind_admin-user :
      (i : AuthInfo) (next : HttpHandler) (w : World)
      → i.role ≡ user
      → behind_admin env d i next w ≡ (write_error forbidden, w)
  unfolding behind_admin admin
  behind_admin-user i next w role = rw role refl

  activity_update-keeps :
      (i : AuthInfo) (next : HttpHandler) (w : World) (reply : Reply)
      → next w ≡ (reply, w)
      → ((activity_update env d i next w).0 ≡ reply)
        × KeepsOthers w.db (activity_update env d i next w).1.db
  unfolding activity_update
  activity_update-keeps i next w reply h = ground arith

  -- A handler that answers with an error, and changes the rows of the users at most.
  abbrev Refuses : HttpHandler → Type 0
  Refuses next = (w : World) → (is_error (next w).0.content ≡ true) × KeepsOthers w.db (next w).1.db

  granted-Refuses :
      (got : Bool) (next : HttpHandler) → Refuses next → Refuses (granted env d got next)
  unfolding write_error
  granted-Refuses true next h w = h w
  granted-Refuses false next h w = (refl, refl)

  refused-user :
      (i : AuthInfo) (next : HttpHandler)
      → i.role ≡ user
      → Refuses (activity_update env d i (behind_admin env d i next))
  unfolding write_error
  refused-user i next role w =
      let (same, keeps) =
        activity_update-keeps i (behind_admin env d i next) w (write_error forbidden)
          (behind_admin-user i next w role) in
      (ap (λ (r : Reply). is_error r.content) same, keeps)

  limit-Refuses :
      (i : AuthInfo) (next : HttpHandler) (s : Server)
      → Refuses next
      → (is_error (behind_user_limit env d i next s).0.content ≡ true)
        × KeepsOthers s.world.db (behind_user_limit env d i next s).1.world.db
  unfolding behind_user_limit
  limit-Refuses i next s h =
      granted-Refuses
        (allow (env.uuid_text i.user_id) 120 minute (env.now s.world.calls) s.user_hits).0 next h
        (tick s.world)

  abbrev Through : AdminRoute → Request → Server → Result AuthInfo × World → Type 0
  Through a r s p =
      ((i : AuthInfo) × (w : World) × (auth env d.auth_config r.access_cookie s.world ≡ (ok i, w))
        × (i.role ≡ master))
      ⊎ ((is_error
              (after_auth env d (λ i. behind_admin env d i (admin_handler env d a r i)) s
                p).0.content
            ≡ true)
          × KeepsOthers s.world.db
              (after_auth env d (λ i. behind_admin env d i (admin_handler env d a r i)) s
                p).1.world.db)

  after_auth-Through :
      (a : AdminRoute) (r : Request) (s : Server) (p : Result AuthInfo × World)
      → auth env d.auth_config r.access_cookie s.world ≡ p
      → p.1.db ≡ s.world.db
      → Through a r s p
  unfolding write_error
  after_auth-Through a r s (err e, w) given same = inr (refl, KeepsOthers-same s.world.db w.db same)
  after_auth-Through a r s (ok i, w) given same = elim (Role-cases i.role) [
    | inl is_user ↦
        let (refused, keeps) =
          limit-Refuses i
            (activity_update env d i (behind_admin env d i (admin_handler env d a r i)))
            (record s { world = w }) (refused-user i (admin_handler env d a r i) is_user) in
        inr (
          refused,
          subst
              (λ t.
                KeepsOthers t
                  (after_auth env d (λ i. behind_admin env d i (admin_handler env d a r i)) s
                    (ok i, w)).1.world.db)
              same keeps,
        )
    | inr is_master ↦ inl (i, w, given, is_master)
  ]

  -- A request to a route of the administration either comes with a token that Auth accepts, of a
  -- master, or is answered with an error and changes nothing in the tables but rows of users.
  pub dispatch-authorized :
      (a : AdminRoute) (r : Request) (s : Server)
      → ((i : AuthInfo) × (w : World) × (auth env d.auth_config r.access_cookie s.world ≡ (ok i, w))
          × (i.role ≡ master))
        ⊎ ((is_error (dispatch env d (to_admin a) r s).0.content ≡ true)
            × KeepsOthers s.world.db (dispatch env d (to_admin a) r s).1.world.db)
  unfolding dispatch protected
  dispatch-authorized a r s =
      after_auth-Through a r s (auth env d.auth_config r.access_cookie s.world) refl
        (auth-Reads r.access_cookie s.world)
