-- ===== src/Http/Router.antt =====
-- backend/router/router.go: the routes and what stands in front of them, with the middleware of
-- backend/middleware/rate_limit.go and activity_update.go. Echo finds the route of a request.
pub mod Laws
use num_duel.Prelude.{
  ℕ, ◌*◌, Bool, true, false, Option, none, some, [], ◌∷◌, ◌++◌, not, ◌&&◌, ◌==◌, if◌then◌else◌,
}
use num_duel.Prelude.Texts.{codes}
use num_duel.Model.{Uuid, Time, Text, User, Result, ok, err, rate_limit_exceeded, is_some}
use num_duel.World.{M, Env, World, tick, exec, get_now, ignore, ◌>>=◌}
use num_duel.RedisStore.{second}
use num_duel.Api.RateLimit.{Hits, allow}
use num_duel.Api.Guard.{AuthInfo, auth, admin}
use num_duel.Http.Request.{Request, Reply, write_error, reply_to}
use num_duel.Http.Controllers.{
  Deps, HttpHandler, register_handler, login_handler, refresh_handler, logout_handler, me_handler,
  profile_handler, match_history_handler, login_history_handler, ws_history_handler,
  match_start_handler, match_cancel_handler, match_status_handler, game_handler, ranking_handler,
  list_users_handler, search_users_handler, delete_user_handler, rebuild_handler,
  search_logs_handler, log_types_handler, download_logs_handler, backup_status_handler,
}

pub data PublicRoute : Type 0 where
  register login refresh : PublicRoute

pub data UserRoute : Type 0 where
  logout me profile match_history login_history ws_history : UserRoute
  match_start match_cancel match_status game ranking : UserRoute

pub data AdminRoute : Type 0 where
  list_users search_users delete_user rebuild log_types search_logs download_logs : AdminRoute
  backup_status : AdminRoute

-- The groups of routes.
pub data Route : Type 0 where
  to_public : PublicRoute → Route
  to_user : UserRoute → Route
  to_admin : AdminRoute → Route

-- The two limiters beside the world.
pub record Server : Type 0 where
  pub public_hits : Hits
  pub user_hits : Hits
  pub world : World

abbrev pub path_of : PublicRoute → Text
path_of register = codes "/api/auth/register"
path_of login = codes "/api/auth/login"
path_of refresh = codes "/api/auth/refresh"

-- `publicRateLimitForPath` on the routes that it names; the window is a minute. For every other path
-- it does not apply.
abbrev pub public_limit : PublicRoute → ℕ
public_limit login = 10
public_limit register = 5
public_limit refresh = 30

abbrev pub minute : ℕ
minute = 60 * second

module _ (env : Env) (d : Deps) where
  -- `TouchLastActivity` of backend/repository/user.go
  abbrev pub touch_last_activity : Uuid → Time → M (Unit {0})
  touch_last_activity user at = exec env λ db. some (record db {
    users =
        (env.users.updates (λ u. u.id == user && not (is_some u.deleted_at))
          (λ u. record u { last_activity_at = at; updated_at = at }) db.users).1;
  })

  -- `ActivityUpdate`: after the handler, whatever it answered.
  unfoldable pub activity_update : AuthInfo → HttpHandler → HttpHandler
  activity_update i next w =
      let (reply, w') = next w in
      (
        reply,
        if d.activity
            then (ignore (get_now env >>= λ now. touch_last_activity i.user_id now) w').1
            else w',
      )

  unfoldable pub public_handler : PublicRoute → Request → HttpHandler
  public_handler register r = register_handler env d r
  public_handler login r = login_handler env d r
  public_handler refresh r = refresh_handler env d r

  unfoldable pub user_handler : UserRoute → Request → AuthInfo → HttpHandler
  user_handler logout r i = logout_handler env d i
  user_handler me r i = me_handler env d i
  user_handler profile r i = profile_handler env d i
  user_handler match_history r i = match_history_handler env d r i
  user_handler login_history r i = login_history_handler env d r i
  user_handler ws_history r i = ws_history_handler env d r i
  user_handler match_start r i = match_start_handler env d i
  user_handler match_cancel r i = match_cancel_handler env d i
  user_handler match_status r i = match_status_handler env d i
  user_handler game r i = game_handler env d r i
  user_handler ranking r i = ranking_handler env d

  unfoldable pub admin_handler : AdminRoute → Request → AuthInfo → HttpHandler
  admin_handler list_users r i = list_users_handler env d r
  admin_handler search_users r i = search_users_handler env d r
  admin_handler delete_user r i = delete_user_handler env d r i
  admin_handler rebuild r i = rebuild_handler env d i
  admin_handler log_types r i = log_types_handler env d
  admin_handler search_logs r i = search_logs_handler env d r
  admin_handler download_logs r i = download_logs_handler env d r i
  admin_handler backup_status r i = backup_status_handler env d

  -- `Admin` in front of a handler.
  unfoldable pub behind_admin : AuthInfo → HttpHandler → HttpHandler
  behind_admin i next w =
      let (r, v) = admin env d.auth_config (some i) (λ w. (ok (next w), w)) w in
      elim r [ ok out ↦ out | err e ↦ (write_error e, v) ]

  abbrev pub granted : Bool → HttpHandler → HttpHandler
  granted true next w = next w
  granted false next w = (write_error rate_limit_exceeded, w)

  -- `UserRateLimit`: 120 requests of a user in a minute.
  unfoldable pub behind_user_limit : AuthInfo → HttpHandler → Server → Reply × Server
  unfolding allow
  behind_user_limit i next s =
      let now = env.now s.world.calls in
      let (got, hits) = allow (env.uuid_text i.user_id) 120 minute now s.user_hits in
      let (reply, w) = granted got next (tick s.world) in
      (reply, record s { user_hits = hits; world = w })

  -- `RateLimitPublic`: by the address of the client and the path.
  unfoldable pub behind_public_limit : PublicRoute → Request → HttpHandler → Server → Reply × Server
  unfolding allow
  behind_public_limit p r next s =
      let now = env.now s.world.calls in
      let key = r.real_ip ++ 58 ∷ path_of p in
      let (got, hits) = allow key (public_limit p) minute now s.public_hits in
      let (reply, w) = granted got next (tick s.world) in
      (reply, record s { public_hits = hits; world = w })

  abbrev pub after_auth :
      (AuthInfo → HttpHandler) → Server → Result AuthInfo × World → Reply × Server
  after_auth next s (ok i, w) =
      behind_user_limit i (activity_update i (next i)) (record s { world = w })
  after_auth next s (err e, w) = (write_error e, record s { world = w })

  -- `Auth`, then `UserRateLimit`, then `ActivityUpdate`.
  unfoldable pub protected : Request → (AuthInfo → HttpHandler) → Server → Reply × Server
  unfolding behind_user_limit activity_update auth
  protected r next s = after_auth next s (auth env d.auth_config r.access_cookie s.world)

  -- `Register` of the router.
  unfoldable pub dispatch : Route → Request → Server → Reply × Server
  unfolding protected behind_public_limit behind_admin public_handler user_handler admin_handler
  dispatch (to_public p) r s = behind_public_limit p r (public_handler p r) s
  dispatch (to_user u) r s = protected r (λ i. user_handler u r i) s
  dispatch (to_admin a) r s = protected r (λ i. behind_admin i (admin_handler a r i)) s
