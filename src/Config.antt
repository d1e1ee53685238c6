-- ===== src/Config.antt =====
-- backend/config/env.go: the configuration and the tests on it. The environment is a function,
-- empty where a variable is not set; Go's int is a signed number of 64 bits.
pub mod Laws
use num_duel.Prelude.{
  ℕ, Bool, true, false, not, ◌&&◌, ◌||◌, Option, none, some, List, [], ◌∷◌, length, ltb,
  if◌then◌else◌,
}
use num_duel.Prelude.Int.{ℤ, pos, is_positive, duration}
use num_duel.Prelude.Texts.{codes, trim_space, to_lower, split_at, atoi, parse_bool, one_of}
use num_duel.Model.{Text, is_empty}

abbrev pub Getenv : Type 0
Getenv = Text → Text

pub record Config : Type 0 where
  pub production : Bool
  pub database_url : Text
  pub backup_database_url : Text
  pub port : ℤ
  pub jwt_secret : Text
  pub jwt_expiry_minutes : ℤ
  pub refresh_token_expiry_days : ℤ
  pub cookie_secure : Bool
  pub game_secret_pepper : Text
  pub game_lock_seconds : ℤ
  pub admin_lock_seconds : ℤ
  pub turn_duration_seconds : ℤ
  pub turn_timeout_poll_seconds : ℤ
  pub secret_setup_seconds : ℤ
  pub secret_timeout_poll_seconds : ℤ
  pub session_timeout_minutes : ℤ
  pub auto_logout_poll_seconds : ℤ
  pub backup_cron : Text
  pub ranking_rebuild_cron : Text
  pub log_retention_cron : Text
  pub activity_log_retention_days : ℤ
  pub login_log_retention_days : ℤ
  pub ws_log_retention_days : ℤ
  pub retention_batch_size : ℤ
  pub retention_batch_sleep_ms : ℤ
  pub refresh_token_cleanup_cron : Text
  pub refresh_token_cleanup_grace_days : ℤ
  pub cors_allowed_origins : List Text
  pub ws_allowed_origins : List Text
  pub master_email : Text
  pub master_password : Text

-- The errors of `LoadFromEnv`, in the order of its tests.
pub data ConfigError : Type 0 where
  database_url_required jwt_secret_required jwt_secret_short pepper_required : ConfigError
  pepper_short invalid_numeric invalid_game_timing invalid_session redis_required : ConfigError

pub data Loaded : Type 0 where
  loaded : Config → Loaded
  refused : ConfigError → Loaded

-- One of the values is "production" or "prod".
unfoldable pub is_production_env : List Text → Bool
unfolding trim_space
is_production_env [] = false
is_production_env (v ∷ vs) =
    one_of (to_lower (trim_space v)) (codes "production" ∷ codes "prod" ∷ [])
    || is_production_env vs

abbrev pub or_fallback : {A : Type 0} → Option A → A → A
or_fallback none fallback = fallback
or_fallback (some a) fallback = a

-- The parts between the commas, trimmed, without the empty ones.
abbrev pub keep_origins : List Text → List Text
keep_origins [] = []
keep_origins (o ∷ os) =
    let rest = keep_origins os in let t = trim_space o in if is_empty t then rest else t ∷ rest

unfoldable pub origins : Text → List Text
unfolding trim_space split_at
origins raw = if is_empty raw then [] else keep_origins (split_at 44 raw)

module _ (getenv : Getenv) where
  unfoldable pub env_int : Text → ℤ → ℤ
  unfolding atoi
  env_int key fallback =
      if is_empty (getenv key) then fallback else or_fallback (atoi (getenv key)) fallback

  unfoldable pub env_bool : Text → Bool → Bool
  unfolding parse_bool
  env_bool key fallback =
      if is_empty (getenv key) then fallback else or_fallback (parse_bool (getenv key)) fallback

  unfoldable pub env_string : Text → Text → Text
  env_string key fallback = if is_empty (getenv key) then fallback else getenv key

  unfoldable pub redis_addr_configured : Text
  unfolding trim_space
  redis_addr_configured =
      let u = trim_space (getenv (codes "REDIS_URL")) in
      if is_empty u then trim_space (getenv (codes "REDIS_ADDR")) else u

  -- What is read, before it is tested.
  unfoldable pub read_config : Config
  unfolding is_production_env env_int env_bool env_string origins
  read_config = record {
    production = is_production_env (getenv (codes "APP_ENV") ∷ getenv (codes "ENV") ∷ []);
    database_url = getenv (codes "DATABASE_URL");
    backup_database_url = getenv (codes "BACKUP_DATABASE_URL");
    port = env_int (codes "PORT") (pos 8090);
    jwt_secret = getenv (codes "JWT_SECRET");
    jwt_expiry_minutes = env_int (codes "JWT_EXPIRY_MINUTES") (pos 60);
    refresh_token_expiry_days = env_int (codes "REFRESH_TOKEN_EXPIRY_DAYS") (pos 7);
    cookie_secure = env_bool (codes "COOKIE_SECURE") false;
    game_secret_pepper = getenv (codes "GAME_SECRET_PEPPER");
    game_lock_seconds = env_int (codes "GAME_LOCK_SECONDS") (pos 2);
    admin_lock_seconds = env_int (codes "ADMIN_LOCK_SECONDS") (pos 5);
    turn_duration_seconds = env_int (codes "TURN_DURATION_SECONDS") (pos 30);
    turn_timeout_poll_seconds = env_int (codes "TURN_TIMEOUT_POLL_SECONDS") (pos 1);
    secret_setup_seconds = env_int (codes "SECRET_SETUP_SECONDS") (pos 60);
    secret_timeout_poll_seconds = env_int (codes "SECRET_TIMEOUT_POLL_SECONDS") (pos 1);
    session_timeout_minutes = env_int (codes "SESSION_TIMEOUT_MINUTES") (pos 5);
    auto_logout_poll_seconds = env_int (codes "AUTO_LOGOUT_POLL_SECONDS") (pos 60);
    backup_cron = env_string (codes "BACKUP_CRON") (codes "0 3 * * *");
    ranking_rebuild_cron = env_string (codes "RANKING_REBUILD_CRON") (codes "*/10 * * * *");
    log_retention_cron = env_string (codes "LOG_RETENTION_CRON") (codes "30 3 * * 0");
    activity_log_retention_days = env_int (codes "ACTIVITY_LOG_RETENTION_DAYS") (pos 90);
    login_log_retention_days = env_int (codes "LOGIN_LOG_RETENTION_DAYS") (pos 90);
    ws_log_retention_days = env_int (codes "WS_LOG_RETENTION_DAYS") (pos 30);
    retention_batch_size = env_int (codes "RETENTION_BATCH_SIZE") (pos 1000);
    retention_batch_sleep_ms = env_int (codes "RETENTION_BATCH_SLEEP_MS") (pos 100);
    refresh_token_cleanup_cron =
        env_string (codes "REFRESH_TOKEN_CLEANUP_CRON") (codes "0 4 * * *");
    refresh_token_cleanup_grace_days = env_int (codes "REFRESH_TOKEN_CLEANUP_GRACE_DAYS") (pos 7);
    cors_allowed_origins = origins (getenv (codes "CORS_ALLOWED_ORIGINS"));
    ws_allowed_origins = origins (getenv (codes "WS_ALLOWED_ORIGINS"));
    master_email = getenv (codes "NUMDUEL_MASTER_EMAIL");
    master_password = getenv (codes "NUMDUEL_MASTER_PASSWORD");
  }

-- The tests, in their order; `redis` is the address that is configured.
unfoldable pub check_config : Text → Config → Option ConfigError
check_config redis c =
    if is_empty c.database_url
    then some database_url_required
    else if is_empty c.jwt_secret
    then some jwt_secret_required
    else if ltb (length c.jwt_secret) 32
    then some jwt_secret_short
    else if is_empty c.game_secret_pepper
    then some pepper_required
    else if ltb (length c.game_secret_pepper) 32
    then some pepper_short
    else if not (is_positive c.port)
        || not (is_positive c.jwt_expiry_minutes)
        || not (is_positive c.refresh_token_expiry_days)
    then some invalid_numeric
    else if not (is_positive c.game_lock_seconds)
        || not (is_positive c.admin_lock_seconds)
        || not (is_positive c.turn_duration_seconds)
        || not (is_positive c.secret_setup_seconds)
    then some invalid_game_timing
    else if not (is_positive c.session_timeout_minutes)
        || not (is_positive c.auto_logout_poll_seconds)
    then some invalid_session
    else if c.production && is_empty redis
    then some redis_required
    else none

abbrev pub loaded_unless : Option ConfigError → Config → Loaded
loaded_unless none c = loaded c
loaded_unless (some e) c = refused e

unfoldable pub load_from_env : Getenv → Loaded
unfolding read_config check_config redis_addr_configured
load_from_env getenv =
    let c = read_config getenv in loaded_unless (check_config (redis_addr_configured getenv) c) c

-- The durations, in nanoseconds of an int64.
module _ (c : Config) where
  abbrev pub game_lock_ttl : ℤ
  game_lock_ttl = duration c.game_lock_seconds 1000000000

  abbrev pub admin_lock_ttl : ℤ
  admin_lock_ttl = duration c.admin_lock_seconds 1000000000

  abbrev pub turn_duration : ℤ
  turn_duration = duration c.turn_duration_seconds 1000000000

  abbrev pub turn_timeout_poll_interval : ℤ
  turn_timeout_poll_interval = duration c.turn_timeout_poll_seconds 1000000000

  abbrev pub secret_setup_duration : ℤ
  secret_setup_duration = duration c.secret_setup_seconds 1000000000

  abbrev pub secret_timeout_poll_interval : ℤ
  secret_timeout_poll_interval = duration c.secret_timeout_poll_seconds 1000000000

  abbrev pub session_timeout : ℤ
  session_timeout = duration c.session_timeout_minutes 60000000000

  abbrev pub auto_logout_poll_interval : ℤ
  auto_logout_poll_interval = duration c.auto_logout_poll_seconds 1000000000

  abbrev pub retention_batch_sleep : ℤ
  retention_batch_sleep = duration c.retention_batch_sleep_ms 1000000
