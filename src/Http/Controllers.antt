-- ===== src/Http/Controllers.antt =====
-- backend/controller/auth.go, me.go, matching.go, game.go, ranking.go and admin.go. What Auth has left
-- is an argument; without it a handler answers that the request is unauthorized.
use num_duel.Prelude.{ℕ, ◌*◌, Bool, Option, none, some, List, [], ◌∷◌}
use num_duel.Prelude.Texts.{codes}
use num_duel.Model.{Uuid, Time, Text, unauthorized, bad_request, is_empty}
use num_duel.Model.Json.{obj, end}
use num_duel.World.{M, Env, World, get_now, lift, fail_if, pure, ◌>>=◌, ◌>>◌}
use num_duel.Session.{AuthUseCase, SessionTokens, login, refresh, logout}
use num_duel.Session.Accounts.{register, get_me}
use num_duel.Profile.{get_profile, get_match_history, get_login_history, get_ws_history}
use num_duel.Matching.{start, cancel, status}
use num_duel.Game.UseCase.{GameUseCase, get_game_state}
use num_duel.Ranking
use num_duel.Ranking.{RankingUseCase}
use num_duel.Admin.{AdminUseCase, delete_user, rebuild_ranking}
use num_duel.Admin.Search.{
  list_users, search_users, search_activity_logs, list_activity_log_types, show_backup_status,
}
use num_duel.Admin.Csv.{download_activity_logs_csv}
use num_duel.Repository.Search.{LogFilter}
use num_duel.Backup.Status.{BackupStatus}
use num_duel.Api.Guard.{AuthConfig, AuthInfo}
use num_duel.Http.Presenter.{
  register_user_response, login_response, get_profile_response, match_history_response,
  login_history_response, ws_history_response, ranking_response, admin_users_response,
  activity_logs_response, log_types_response, backup_status_response, matching_response,
  game_state_response,
}
use num_duel.Http.Request.{
  Body, Request, Cookie, Reply, csv_content, write_data, write_error, write_nothing, write_paged,
  parse_page_limit, parse_uuid_param, parse_optional, reply_to,
}

-- `Deps` of backend/router/router.go with the settings of AuthController, and the parsers of a UUID
-- and of a time.
pub record Deps : Type 0 where
  pub auth : AuthUseCase
  pub game : GameUseCase
  pub matching_notifier : Bool
  pub ranking : RankingUseCase
  pub admin : AdminUseCase
  pub backup : Option (M BackupStatus)
  pub auth_config : AuthConfig
  pub activity : Bool
  pub cookie_secure : Bool
  pub jwt_expiry_minutes : ℕ
  pub refresh_token_expiry_days : ℕ
  pub parse_uuid : Text → Option Uuid
  pub parse_time : Text → Option Time

abbrev pub HttpHandler : Type 0
HttpHandler = World → Reply × World

abbrev pub refuse_reply : HttpHandler
refuse_reply w = (write_error unauthorized, w)

-- `AuthFrom`, with the answer where there is nothing
abbrev pub with_info : Option AuthInfo → (AuthInfo → HttpHandler) → HttpHandler
with_info none h = refuse_reply
with_info (some i) h = h i

module _ (env : Env) (d : Deps) where
  -- `setAuthCookies`
  abbrev pub auth_cookies : Text → Text → List Cookie
  auth_cookies access refresh =
      record {
        name = codes "access_token";
        value = access;
        path = codes "/";
        secure = d.cookie_secure;
        max_age = d.jwt_expiry_minutes * 60;
      }
      ∷ record {
        name = codes "refresh_token";
        value = refresh;
        path = codes "/api/auth/refresh";
        secure = d.cookie_secure;
        max_age = d.refresh_token_expiry_days * 86400;
      }
      ∷ []

  -- `clearAuthCookies`
  abbrev pub cleared_cookies : List Cookie
  cleared_cookies =
      record {
        name = codes "access_token";
        value = [];
        path = codes "/";
        secure = d.cookie_secure;
        max_age = 0;
      }
      ∷ record {
        name = codes "refresh_token";
        value = [];
        path = codes "/api/auth/refresh";
        secure = d.cookie_secure;
        max_age = 0;
      }
      ∷ []

  abbrev pub session_reply : Reply → SessionTokens → Reply
  session_reply r tokens = record r {
    cookies = auth_cookies tokens.access_token tokens.refresh_token;
  }

  -- A body that binds.
  abbrev pub with_body : Option Body → (Body → HttpHandler) → HttpHandler
  with_body none h w = (write_error bad_request, w)
  with_body (some b) h w = h b w

  unfoldable pub register_handler : Request → HttpHandler
  register_handler r = with_body r.body λ b w.
      reply_to (λ u. write_data 201 (register_user_response env.uuid_text env.rfc3339 u))
        (register env d.auth b.username b.email b.password w)

  unfoldable pub login_handler : Request → HttpHandler
  login_handler r = with_body r.body λ b w.
      reply_to
        (λ out.
          session_reply (write_data 200 (login_response env.uuid_text env.rfc3339 out.0)) out.1)
        (login env d.auth b.email b.password w)

  abbrev pub refresh_with : Option Text → HttpHandler
  refresh_with none w = refuse_reply w
  refresh_with (some token) w =
      reply_to (λ tokens. session_reply (write_data 200 (obj end)) tokens)
        ((fail_if (is_empty token) unauthorized >> refresh env d.auth token) w)

  unfoldable pub refresh_handler : Request → HttpHandler
  refresh_handler r = refresh_with r.refresh_cookie

  unfoldable pub logout_handler : AuthInfo → HttpHandler
  logout_handler i w =
      reply_to (λ done. record write_nothing { cookies = cleared_cookies })
        (logout env d.auth i.user_id i.jti i.expires_at w)

  unfoldable pub me_handler : AuthInfo → HttpHandler
  me_handler i w =
      reply_to (λ u. write_data 200 (register_user_response env.uuid_text env.rfc3339 u))
        (get_me env d.auth i.user_id w)

  unfoldable pub profile_handler : AuthInfo → HttpHandler
  profile_handler i w =
      reply_to (λ out. write_data 200 (get_profile_response env.uuid_text env.rfc3339 out))
        (get_profile env i.user_id w)

  unfoldable pub match_history_handler : Request → AuthInfo → HttpHandler
  unfolding parse_page_limit
  match_history_handler r i w =
      let (page, limit) = parse_page_limit r.query_param in
      reply_to
        (λ out.
          write_paged (match_history_response env.uuid_text env.rfc3339 out.0) page limit out.1)
        (get_match_history env i.user_id page limit w)

  unfoldable pub login_history_handler : Request → AuthInfo → HttpHandler
  unfolding parse_page_limit
  login_history_handler r i w =
      let (page, limit) = parse_page_limit r.query_param in
      reply_to
        (λ out.
          write_paged (login_history_response env.uuid_text env.rfc3339 out.0) page limit out.1)
        (get_login_history env i.user_id page limit w)

  unfoldable pub ws_history_handler : Request → AuthInfo → HttpHandler
  unfolding parse_page_limit
  ws_history_handler r i w =
      let (page, limit) = parse_page_limit r.query_param in
      reply_to
        (λ out. write_paged (ws_history_response env.uuid_text env.rfc3339 out.0) page limit out.1)
        (get_ws_history env i.user_id page limit w)

  unfoldable pub match_start_handler : AuthInfo → HttpHandler
  match_start_handler i w =
      reply_to (λ out. write_data 200 (matching_response env.uuid_text env.rfc3339 out))
        (start env d.matching_notifier i.user_id w)

  unfoldable pub match_cancel_handler : AuthInfo → HttpHandler
  match_cancel_handler i w =
      reply_to (λ out. write_data 200 (matching_response env.uuid_text env.rfc3339 out))
        (cancel env i.user_id w)

  unfoldable pub match_status_handler : AuthInfo → HttpHandler
  match_status_handler i w =
      reply_to (λ out. write_data 200 (matching_response env.uuid_text env.rfc3339 out))
        (status env i.user_id w)

  unfoldable pub game_handler : Request → AuthInfo → HttpHandler
  game_handler r i w =
      reply_to (λ out. write_data 200 (game_state_response env.uuid_text env.rfc3339 out))
        ((lift (parse_uuid_param d.parse_uuid r.id_param) >>= get_game_state env d.game i.user_id)
          w)

  unfoldable pub ranking_handler : HttpHandler
  ranking_handler w =
      reply_to (λ out. write_data 200 (ranking_response env.uuid_text env.rfc3339 out))
        (Ranking.get env d.ranking w)

  unfoldable pub list_users_handler : Request → HttpHandler
  unfolding parse_page_limit
  list_users_handler r w =
      let (page, limit) = parse_page_limit r.query_param in
      reply_to
        (λ out. write_paged (admin_users_response env.uuid_text env.rfc3339 out.0) page limit out.1)
        (list_users env page limit w)

  unfoldable pub search_users_handler : Request → HttpHandler
  search_users_handler r w =
      reply_to (λ out. write_data 200 (admin_users_response env.uuid_text env.rfc3339 out))
        (search_users env (r.query_param (codes "q")) w)

  unfoldable pub delete_user_handler : Request → AuthInfo → HttpHandler
  delete_user_handler r i w =
      reply_to (λ done. write_nothing)
        ((lift (parse_uuid_param d.parse_uuid r.id_param) >>= delete_user env d.admin i.user_id) w)

  unfoldable pub rebuild_handler : AuthInfo → HttpHandler
  rebuild_handler i w = reply_to (λ done. write_nothing) (rebuild_ranking env d.admin i.user_id w)

  -- The conditions of a search of the logs; the first that does not parse is the error.
  unfoldable pub log_filter : Request → M LogFilter
  log_filter r = do
    user ← lift (parse_optional d.parse_uuid (r.query_param (codes "userId")))
    from ← lift (parse_optional d.parse_time (r.query_param (codes "from")))
    to ← lift (parse_optional d.parse_time (r.query_param (codes "to")))
    pure (record {
      log_type = r.query_param (codes "logType");
      user_id = user;
      from = from;
      to = to;
    })

  unfoldable pub search_logs_handler : Request → HttpHandler
  unfolding parse_page_limit log_filter
  search_logs_handler r w =
      let (page, limit) = parse_page_limit r.query_param in
      reply_to
        (λ out.
          write_paged (activity_logs_response env.uuid_text env.rfc3339 out.0) page limit out.1)
        ((log_filter r >>= λ f. search_activity_logs env f page limit) w)

  unfoldable pub log_types_handler : HttpHandler
  log_types_handler w =
      reply_to (λ out. write_data 200 (log_types_response env.uuid_text env.rfc3339 out))
        (list_activity_log_types env w)

  -- The time is in the name of the file.
  unfoldable pub download_logs_handler : Request → AuthInfo → HttpHandler
  unfolding log_filter
  download_logs_handler r i w =
      reply_to
        (λ (out : Text × Time). record {
          status = 200;
          content = csv_content out.1 out.0;
          cookies = [];
        })
        ((log_filter r >>= λ f. download_activity_logs_csv env d.admin i.user_id f >>= λ csv.
            get_now env >>= λ now. pure (csv, now))
          w)

  unfoldable pub backup_status_handler : HttpHandler
  backup_status_handler w =
      reply_to (λ out. write_data 200 (backup_status_response env.uuid_text env.rfc3339 out))
        (show_backup_status env d.backup w)
