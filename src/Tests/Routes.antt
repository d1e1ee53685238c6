-- ===== src/Tests/Routes.antt =====
-- Examples: requests to the router.
use num_duel.Prelude.{◌≡◌, ◌⊎◌, refl, true, none, some, [], ◌∷◌}
use num_duel.Prelude.Texts.{codes}
use num_duel.Model.{ok, master, is_deleted}
use num_duel.World.{World}
use num_duel.Api.Errors.{map_http_error}
use num_duel.Api.RateLimit.{allow, keep_recent}
use num_duel.Api.Guard
use num_duel.Api.Guard.{AuthInfo, auth, auth_claims}
use num_duel.Http.Request.{Request, write_error}
use num_duel.Http.Controllers.{Deps}
use num_duel.Http.Router.{
  Server, list_users, to_admin, activity_update, behind_admin, behind_user_limit, protected,
  dispatch,
}
use num_duel.Http.Router.Laws.{is_error, KeepsOthers, dispatch-authorized}
use num_duel.Tests.Memory.{env, use_case}
use num_duel.Tests.Sessions
use num_duel.Tests.Admins.{admin, cookie_gate, idle}

abbrev deps : Deps
deps = record {
  auth = Sessions.auth;
  game = use_case;
  matching_notifier = true;
  ranking = record { locks = true; lock_ttl = 0; sort_slice = λ less rows. rows };
  admin = admin;
  backup = none;
  auth_config = cookie_gate;
  activity = true;
  cookie_secure = true;
  jwt_expiry_minutes = 60;
  refresh_token_expiry_days = 7;
  parse_uuid = λ t. none;
  parse_time = λ t. none;
}

-- The token is that of the user 2, who is no master.
abbrev asking : Request
asking = record {
  access_cookie = some (1 ∷ []);
  refresh_cookie = none;
  id_param = [];
  query_param = λ key. [];
  body = none;
  real_ip = codes "::1";
}

abbrev server : Server
server = record { public_hits = λ key. []; user_hits = λ key. []; world = idle }

dispatch-authorized_example :
    ((i : AuthInfo) × (w : World) × (auth env deps.auth_config asking.access_cookie idle
        ≡ (ok i, w))
      × (i.role ≡ master))
    ⊎ ((is_error (dispatch env deps (to_admin list_users) asking server).0.content ≡ true)
        × KeepsOthers idle.db (dispatch env deps (to_admin list_users) asking server).1.world.db)
dispatch-authorized_example = dispatch-authorized env deps list_users asking server

-- The answer is 403.
forbidden_status : (dispatch env deps (to_admin list_users) asking server).0.status ≡ 403
unfolding dispatch protected auth auth_claims is_deleted behind_user_limit allow activity_update
    behind_admin Guard.admin write_error map_http_error keep_recent
forbidden_status = refl
