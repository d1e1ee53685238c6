-- ===== src/Tests/Start.antt =====
-- Examples: a configuration, an access token that is issued and parsed, and a password that is too long.
use num_duel.Prelude.{
  ℕ, zero, suc, ◌+◌, ◌*◌, ◌<◌, ◌≤◌, ◌≡◌, ◌↔◌, refl, ap, inl, false, true, Option, none, some, List,
  [], ◌∷◌, ◌++◌, length, take, drop, ltb, ◌||◌, text_eq, if◌then◌else◌, arith,
}
use num_duel.Prelude.Int.{pos, duration}
use num_duel.Prelude.Texts.{codes}
use num_duel.Model.{Uuid, Time, Text, Role, user, master, ok, err, external, is_deleted}
use num_duel.RedisStore.{second}
use num_duel.Api.Errors.{map_http_error}
use num_duel.Config.{
  Getenv, Config, loaded, read_config, redis_addr_configured, load_from_env, check_config,
  turn_duration, session_timeout,
}
use num_duel.Config.Laws.{IsSound, Starts, load_from_env_accepts, durations_exact}
use num_duel.Session.{AuthUseCase}
use num_duel.Session.Validate.{validate_username, validate_email, all_username_chars}
use num_duel.Session.Accounts.{register}
use num_duel.Session.Accounts.LongPassword.{register-long_password}
use num_duel.Crypto.Token.{
  token_end, AccessClaims, SigningMethod, hs256, Parsed, claims_of, invalid, Libraries, JwtService,
  issue, hash_password,
}
use num_duel.Crypto.Token.Laws.{Documented}
use num_duel.Api.Guard.{auth}
use num_duel.Api.Guard.Laws.{socket_of}
use num_duel.Api.Guard.Issued.{wired, auth-issue}
use num_duel.Session.Access.{authenticate}
use num_duel.World.{tick}
use num_duel.Tests.Memory.{env, playing, player, world}
use num_duel.Tests.Sessions

-- Three variables are set.
abbrev sample : Getenv
sample key =
    if text_eq key (codes "DATABASE_URL")
    then codes "db"
    else if text_eq key (codes "JWT_SECRET") || text_eq key (codes "GAME_SECRET_PEPPER")
    then codes "0123456789abcdef0123456789abcdef"
    else []

load_from_env_accepts_example :
    ((load_from_env sample ≡ loaded (read_config sample)) ↔ (
      (read_config sample ≡ read_config sample)
      × IsSound (redis_addr_configured sample) (read_config sample)))
    × (load_from_env sample ≡ loaded (read_config sample) → Starts (read_config sample))
load_from_env_accepts_example = load_from_env_accepts sample (read_config sample)

abbrev slow : Config
slow = record (read_config sample) {
  turn_duration_seconds = pos 9223372037;
  session_timeout_minutes = pos 5;
}

durations_exact_example :
    ((turn_duration slow ≡ pos (9223372037 * 1000000000)) ↔ (9223372037 ≤ 9223372036))
    × ((session_timeout slow ≡ pos (5 * 60000000000)) ↔ (5 ≤ 153722867))
durations_exact_example = durations_exact slow 9223372037 5 refl refl

sample-loaded : load_from_env sample ≡ loaded (read_config sample)
unfolding load_from_env read_config check_config redis_addr_configured text_eq
sample-loaded = refl

-- A token is the list of its claims.
abbrev role_number : Role → ℕ
role_number user = 0
role_number master = 1

abbrev number_role : ℕ → Role
number_role zero = user
number_role (suc n) = master

abbrev time_number : Option Time → ℕ
time_number none = 0
time_number (some t) = suc t

abbrev number_time : ℕ → Option Time
number_time zero = none
number_time (suc t) = some t

abbrev written : AccessClaims → Text
written c =
    role_number c.role
      ∷ time_number c.issued_at
      ∷ time_number c.expires_at
      ∷ length c.subject
      ∷ c.subject
    ++ c.id

abbrev no_claims : AccessClaims
no_claims = record { role = user; subject = []; id = []; issued_at = none; expires_at = none }

abbrev read_claims : Text → AccessClaims
read_claims (role ∷ issued ∷ ends ∷ n ∷ rest) = record {
  role = number_role role;
  subject = take n rest;
  id = drop n rest;
  issued_at = number_time issued;
  expires_at = number_time ends;
}
read_claims _ = no_claims

abbrev parse_with : Text → Option Text → Parsed
parse_with token none = invalid
parse_with token (some key) = claims_of (read_claims token) true

abbrev zeros : ℕ → List ℕ
zeros zero = []
zeros (suc n) = 0 ∷ zeros n

abbrev read_uuid : Text → Option Uuid
read_uuid (u ∷ []) = some u
read_uuid _ = none

abbrev lib : Libraries
lib = record {
  sign = λ secret c. ok (written c);
  parse_with_claims = λ n token key. parse_with token (key hs256);
  numeric_date = λ t. t;
  new_uuid = λ n. 100 + n;
  uuid_text = λ u. u ∷ [];
  parse_uuid = read_uuid;
  rand_read = λ n size. ok (zeros size);
  sha256 = λ t. t;
  bcrypt = λ n p cost. if ltb 72 (length p) then err (external 7) else ok p;
  bcrypt_compare = text_eq;
}

take-length : (xs ys : List ℕ) → take (length xs) (xs ++ ys) ≡ xs
take-length [] ys = refl
take-length (x ∷ xs) ys = ap (◌∷◌ x) (take-length xs ys)

drop-length : (xs ys : List ℕ) → drop (length xs) (xs ++ ys) ≡ ys
drop-length [] ys = refl
drop-length (x ∷ xs) ys = drop-length xs ys

number-role : (r : Role) → number_role (role_number r) ≡ r
number-role user = refl
number-role master = refl

number-time : (t : Option Time) → number_time (time_number t) ≡ t
number-time none = refl
number-time (some t) = refl

read-written : (c : AccessClaims) → read_claims (written c) ≡ c
read-written c = ground (
  arith,
  take-length c.subject c.id,
  drop-length c.subject c.id,
  number-role c.role,
  number-time c.issued_at,
  number-time c.expires_at,
)

parse-sign_lib :
    (n : ℕ) (secret token : Text) (c : AccessClaims) (key : SigningMethod → Option Text)
    (end : Time)
    → lib.sign secret c ≡ ok token
    → key hs256 ≡ some secret
    → c.expires_at ≡ some end
    → n < end
    → lib.parse_with_claims n token key ≡ claims_of c true
parse-sign_lib n secret token c key end signed found ends early =
    let same : token ≡ written c = (ground arith) in rw (found, same, read-written c) refl

length-zeros : (n : ℕ) → length (zeros n) ≡ n
length-zeros zero = refl
length-zeros (suc n) = ap suc (length-zeros n)

read-length_lib :
    (n size : ℕ) (bytes : List ℕ) → lib.rand_read n size ≡ ok bytes → length bytes ≡ size
read-length_lib n size bytes h = ground (arith, length-zeros size)

lib-Documented : Documented lib (λ n. n)
lib-Documented = record {
  parse-sign = parse-sign_lib;
  parse_uuid-text = λ u. refl;
  uuid_text-some = λ u. refl;
  read-length = read-length_lib;
}

abbrev service : JwtService
service = record { secret = codes "0123456789abcdef0123456789abcdef"; expiry_minutes = 60 }

abbrev token : Text
token = 0 ∷ 51 ∷ 3600000000051 ∷ 1 ∷ 2 ∷ 105 ∷ []

token-issued : issue lib service 5 2 user 50 ≡ ok token
unfolding issue token_end duration
token-issued = refl

player_there : is_deleted (player 2) ≡ false
unfolding is_deleted
player_there = refl

auth-issue_example :
    (auth env (wired lib service) (some token) (world playing) ≡ (
      ok (record {
        user_id = 2;
        role = user;
        jti = 105 ∷ [];
        expires_at = 50 + 60 * (60 * second);
      }),
      tick (tick (tick (world playing))),
    ))
    × (authenticate env (socket_of (wired lib service)) token (world playing)
        ≡ (ok 2, tick (tick (tick (world playing)))))
auth-issue_example =
    auth-issue env (record { answers = λ n. refl }) lib service (λ n. n) 5 2 user 50 token
      (world playing) lib-Documented (omega arith) token-issued refl (omega arith) (omega arith)
      refl (inl refl) (player 2, refl, player_there)

abbrev strict_auth : AuthUseCase
strict_auth = record Sessions.auth { hash_password = λ n p. lib.bcrypt n p 12 }

abbrev long_password : Text
long_password = zeros 73

refuses_lib :
    (n cost : ℕ) (password : Text)
    → 72 < length password
    → lib.bcrypt n password cost ≡ err (external 7)
refuses_lib n cost password h = ground arith

register-long_password_example :
    ((register env strict_auth (97 ∷ 97 ∷ 97 ∷ []) (98 ∷ []) long_password (world playing)).0
      ≡ err (external 7))
    × ((register env strict_auth (97 ∷ 97 ∷ 97 ∷ []) (98 ∷ []) long_password (world playing)).1.db
        ≡ (world playing).db)
    × ((map_http_error (external 7)).status ≡ 500)
unfolding hash_password validate_username validate_email all_username_chars text_eq
register-long_password_example =
    register-long_password env strict_auth lib 7 (record { answers = λ n. refl })
      (record { refuses = refuses_lib }) (λ n p. refl) (97 ∷ 97 ∷ 97 ∷ []) (98 ∷ []) long_password
      (world playing) (omega arith) refl refl refl refl
