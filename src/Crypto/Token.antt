-- ===== src/Crypto/Token.antt =====
-- backend/crypto/token.go and password.go: access tokens, refresh tokens and passwords, over the
-- libraries of JWT, SHA-256, bcrypt, UUIDs and random bytes, which are arguments.
pub mod Laws
use num_duel.Prelude.{
  ℕ, zero, suc, ◌+◌, ◌-◌, ◌*◌, Bool, true, false, Option, none, some, List, length, ltb,
  if◌then◌else◌,
}
use num_duel.Prelude.Int.{ℤ, pos, negsuc, duration}
use num_duel.Model.{Uuid, Time, Text, Role, Result, ok, err, unauthorized, token_expired, is_empty}
use num_duel.RedisStore.{second}
use num_duel.Crypto.Secret.{hex}
use num_duel.Session.{TokenPair}
use num_duel.Session.Access.{AccessTokenClaims}

-- `accessClaims`; the role that a token of the service carries is one of the two.
pub record AccessClaims : Type 0 where
  pub role : Role
  pub subject : Text
  pub id : Text
  pub issued_at : Option Time
  pub expires_at : Option Time

pub data SigningMethod : Type 0 where
  hs256 other_method : SigningMethod

-- What `jwt.ParseWithClaims` gives: the claims with `token.Valid`, or an error.
pub data Parsed : Type 0 where
  claims_of : AccessClaims → Bool → Parsed
  expired invalid : Parsed

-- The libraries; a number is that of the call.
pub record Libraries : Type 0 where
  pub sign : Text → AccessClaims → Result Text
  pub parse_with_claims : ℕ → Text → (SigningMethod → Option Text) → Parsed
  pub numeric_date : Time → Time
  pub new_uuid : ℕ → Uuid
  pub uuid_text : Uuid → Text
  pub parse_uuid : Text → Option Uuid
  pub rand_read : ℕ → ℕ → Result (List ℕ)
  pub sha256 : Text → List ℕ
  pub bcrypt : ℕ → Text → ℕ → Result Text
  pub bcrypt_compare : Text → Text → Bool

-- `JWTService`
pub record JwtService : Type 0 where
  pub secret : Text
  pub expiry_minutes : ℕ

-- The number of minutes, which must be positive.
abbrev pub service_with : Text → ℤ → Option JwtService
service_with secret (pos zero) = none
service_with secret (pos (suc n)) = some (record { secret = secret; expiry_minutes = suc n })
service_with secret (negsuc n) = none

-- `NewJWTService`, with none for its errors
unfoldable pub new_jwt_service : Text → ℤ → Option JwtService
new_jwt_service secret minutes =
    if ltb (length secret) 32 then none else service_with secret minutes

-- `NewSecretHashService` of backend/crypto/secret.go, with the pepper as the service
unfoldable pub new_secret_hash_service : Text → Option Text
new_secret_hash_service pepper = if ltb (length pepper) 32 then none else some pepper

-- `now.Add(d)`; a time before the first one is 0.
abbrev pub add_duration : Time → ℤ → Time
add_duration now (pos n) = now + n
add_duration now (negsuc n) = now - suc n

-- `now.Add(time.Duration(s.expiryMinutes) * time.Minute)`, in the 64 bits of a duration
unfoldable pub token_end : JwtService → Time → Time
unfolding duration
token_end s now = add_duration now (duration (pos s.expiry_minutes) (60 * second))

-- The zero time where a claim is missing.
abbrev pub time_or_zero : Option Time → Time
time_or_zero none = 0
time_or_zero (some t) = t

module _ (lib : Libraries) where
  module _ (s : JwtService) where
    abbrev pub issued_claims : ℕ → Uuid → Role → Time → AccessClaims
    issued_claims n user role now = record {
      role = role;
      subject = lib.uuid_text user;
      id = lib.uuid_text (lib.new_uuid n);
      issued_at = some (lib.numeric_date now);
      expires_at = some (lib.numeric_date (token_end s now));
    }

    -- `Issue`
    unfoldable pub issue : ℕ → Uuid → Role → Time → Result Text
    issue n user role now = lib.sign s.secret (issued_claims n user role now)

    -- The function that `Parse` gives to the library.
    abbrev pub key_for : SigningMethod → Option Text
    key_for hs256 = some s.secret
    key_for other_method = none

    abbrev pub claims_for : AccessClaims → Option Uuid → Result AccessTokenClaims
    claims_for c none = err unauthorized
    claims_for c (some user) =
        if is_empty c.id
        then err unauthorized
        else ok (record {
          user_id = user;
          role = c.role;
          jti = c.id;
          issued_at = time_or_zero c.issued_at;
          expires_at = time_or_zero c.expires_at;
        })

    abbrev pub read_parsed : Parsed → Result AccessTokenClaims
    read_parsed (claims_of c valid) =
        if valid then claims_for c (lib.parse_uuid c.subject) else err unauthorized
    read_parsed expired = err token_expired
    read_parsed invalid = err unauthorized

    -- `Parse`
    unfoldable pub parse : ℕ → Text → Result AccessTokenClaims
    parse n token = read_parsed (lib.parse_with_claims n token key_for)

  -- `RefreshTokenService.Hash`
  unfoldable pub refresh_hash : Text → Text
  unfolding hex
  refresh_hash plaintext = hex (lib.sha256 plaintext)

  abbrev pub pair_of : Result (List ℕ) → Result TokenPair
  pair_of (err e) = err e
  pair_of (ok bytes) = ok (record { plaintext = hex bytes; hash = refresh_hash (hex bytes) })

  -- `RefreshTokenService.Generate`, from 64 random bytes
  unfoldable pub generate : ℕ → Result TokenPair
  unfolding refresh_hash
  generate n = pair_of (lib.rand_read n 64)

  -- `PasswordService.Hash`, at the cost 12, and `Verify`
  unfoldable pub hash_password : ℕ → Text → Result Text
  hash_password n password = lib.bcrypt n password 12

  unfoldable pub verify_password : Text → Text → Bool
  verify_password hash password = lib.bcrypt_compare hash password
