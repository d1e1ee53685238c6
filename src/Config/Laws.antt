-- ===== src/Config/Laws.antt =====
-- backend/config/env.go: what a configuration that Load accepts is good for.
use mathlib.Core.Path.{subst}
use num_duel.Prelude.{
  ℕ, zero, suc, ltb, ◌*◌, ◌≤◌, ◌≡◌, ◌↔◌, refl, true, false, Option, none, some, length, arith,
}
use num_duel.Prelude.Int.{ℤ, pos, negsuc, is_positive, duration}
use num_duel.Crypto.Token.{JwtService, service_with, new_jwt_service, new_secret_hash_service}
use num_duel.Model.{Text, is_empty}
use num_duel.Config.{
  Getenv, Config, ConfigError, loaded, read_config, check_config, redis_addr_configured,
  load_from_env, loaded_unless, turn_duration, session_timeout,
}

-- What the start of the server wants of a configuration.
pub record IsSound (redis : Text) (c : Config) : Type 0 where
  pub has_database : is_empty c.database_url ≡ false
  pub secret_long : 32 ≤ length c.jwt_secret
  pub pepper_long : 32 ≤ length c.game_secret_pepper
  pub port_positive : is_positive c.port ≡ true
  pub expiry_positive : is_positive c.jwt_expiry_minutes ≡ true
  pub days_positive : is_positive c.refresh_token_expiry_days ≡ true
  pub lock_positive : is_positive c.game_lock_seconds ≡ true
  pub admin_positive : is_positive c.admin_lock_seconds ≡ true
  pub turn_positive : is_positive c.turn_duration_seconds ≡ true
  pub setup_positive : is_positive c.secret_setup_seconds ≡ true
  pub session_positive : is_positive c.session_timeout_minutes ≡ true
  pub poll_positive : is_positive c.auto_logout_poll_seconds ≡ true
  pub redis_configured : c.production ≡ true → is_empty redis ≡ false

check_config-none : (redis : Text) (c : Config) → check_config redis c ≡ none → IsSound redis c
unfolding check_config
check_config-none redis c h = ground arith

duration_seconds : (n : ℕ) → (duration (pos n) 1000000000 ≡ pos (n * 1000000000)) ↔ (n ≤ 9223372036)
unfolding duration
duration_seconds n = ground arith

duration_minutes :
    (n : ℕ) → (duration (pos n) 60000000000 ≡ pos (n * 60000000000)) ↔ (n ≤ 153722867)
unfolding duration
duration_minutes n = ground arith

-- The duration of a turn is the number of seconds that is configured exactly up to 9223372036
-- seconds, and the timeout of a session the number of minutes exactly up to 153722867: above, the
-- 64 bits of a duration hold another number.
pub durations_exact :
    (c : Config) (n m : ℕ)
    → c.turn_duration_seconds ≡ pos n
    → c.session_timeout_minutes ≡ pos m
    → ((turn_duration c ≡ pos (n * 1000000000)) ↔ (n ≤ 9223372036))
      × ((session_timeout c ≡ pos (m * 60000000000)) ↔ (m ≤ 153722867))
durations_exact c n m turn session = (rw turn (duration_seconds n), rw session (duration_minutes m))

IsSound-check_config : (redis : Text) (c : Config) → IsSound redis c → check_config redis c ≡ none
unfolding check_config
IsSound-check_config redis c v = ground arith

loaded_unless-loaded :
    (e : Option ConfigError) (c d : Config) → loaded_unless e c ≡ loaded d → (e ≡ none) × (d ≡ c)
loaded_unless-loaded none c d h = ground arith
loaded_unless-loaded (some e) c d h = cc

-- The services that the start of the server makes of a configuration.
abbrev pub Starts : Config → Type 0
Starts c =
    ((s : JwtService) × (new_jwt_service c.jwt_secret c.jwt_expiry_minutes ≡ some s)
      × (s.secret ≡ c.jwt_secret))
    × (new_secret_hash_service c.game_secret_pepper ≡ some c.game_secret_pepper)

service_with-some :
    (secret : Text) (minutes : ℤ)
    → is_positive minutes ≡ true
    → (s : JwtService) × (service_with secret minutes ≡ some s) × (s.secret ≡ secret)
service_with-some secret (pos zero) h = cc
service_with-some secret (pos (suc n)) h =
    (record { secret = secret; expiry_minutes = suc n }, refl, refl)
service_with-some secret (negsuc n) h = cc

IsSound-Starts : (redis : Text) (c : Config) → IsSound redis c → Starts c
unfolding new_jwt_service new_secret_hash_service
IsSound-Starts redis c v =
    let (s, made, same) = service_with-some c.jwt_secret c.jwt_expiry_minutes v.expiry_positive in
    let long : ltb (length c.jwt_secret) 32 ≡ false = ground arith in
    ((s, rw long made, same), ground arith)

load-IsSound :
    (getenv : Getenv) (c : Config)
    → load_from_env getenv ≡ loaded c
    → (c ≡ read_config getenv) × IsSound (redis_addr_configured getenv) c
unfolding load_from_env
load-IsSound getenv c h =
    let (none_wrong, same) =
      loaded_unless-loaded (check_config (redis_addr_configured getenv) (read_config getenv))
        (read_config getenv) c h in
    (
      same,
      rw same (check_config-none (redis_addr_configured getenv) (read_config getenv) none_wrong),
    )

sound-load :
    (getenv : Getenv)
    → IsSound (redis_addr_configured getenv) (read_config getenv)
    → load_from_env getenv ≡ loaded (read_config getenv)
unfolding load_from_env
sound-load getenv v =
    rw (IsSound-check_config (redis_addr_configured getenv) (read_config getenv) v) refl

-- Load accepts exactly the configuration that is read, where it is sound: there is a database,
-- the two secrets have 32 bytes or more, the nine numbers that are tested are positive, and in
-- production an address of Redis is given; and of one that is accepted the start makes the
-- service of access tokens, with its secret, and the hash of the secret numbers.
pub load_from_env_accepts :
    (getenv : Getenv) (c : Config)
    → ((load_from_env getenv ≡ loaded c)
        ↔ ((c ≡ read_config getenv) × IsSound (redis_addr_configured getenv) c))
      × (load_from_env getenv ≡ loaded c → Starts c)
load_from_env_accepts getenv c = (
  (
    load-IsSound getenv c,
    λ h. rw h.0 (sound-load getenv (subst (IsSound (redis_addr_configured getenv)) h.0 h.1)),
  ),
  λ h. IsSound-Starts (redis_addr_configured getenv) c (load-IsSound getenv c h).1,
)
