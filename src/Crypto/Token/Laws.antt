-- ===== src/Crypto/Token/Laws.antt =====
-- backend/crypto/token.go: tokens that are issued are parsed again.
use num_duel.Prelude.{
  ℕ, ◌+◌, ◌*◌, ◌<◌, ◌≤◌, ◌≡◌, refl, ap, true, false, Option, some, List, length, arith,
}
use num_duel.Model.{Uuid, Time, Text, Role, Result, ok, err, is_empty}
use num_duel.Prelude.Int.{duration}
use num_duel.RedisStore.{second}
use num_duel.Crypto.Secret.Laws.{length-hex}
use num_duel.Session.{TokenPair}
use num_duel.Crypto.Token.{
  AccessClaims, SigningMethod, hs256, claims_of, Libraries, JwtService, issued_claims, issue,
  token_end, key_for, parse, pair_of, refresh_hash, generate,
}

-- What the documentation of the libraries says: a token that was signed with HS256 is parsed with
-- the same key, valid until its time is over; UUIDs are read as they are written, and no text of
-- one is empty; `rand.Read` fills the slice.
pub record Documented (lib : Libraries) (clock : ℕ → Time) : Type 0 where
  pub parse-sign :
      (n : ℕ) (secret token : Text) (c : AccessClaims) (key : SigningMethod → Option Text)
      (end : Time)
      → lib.sign secret c ≡ ok token
      → key hs256 ≡ some secret
      → c.expires_at ≡ some end
      → clock n < end
      → lib.parse_with_claims n token key ≡ claims_of c true
  pub parse_uuid-text : (u : Uuid) → lib.parse_uuid (lib.uuid_text u) ≡ some u
  pub uuid_text-some : (u : Uuid) → is_empty (lib.uuid_text u) ≡ false
  pub read-length :
      (n size : ℕ) (bytes : List ℕ) → lib.rand_read n size ≡ ok bytes → length bytes ≡ size

-- The end of a token, where the 64 bits of a duration hold its minutes.
token_end-minutes :
    (s : JwtService) (now : Time)
    → s.expiry_minutes ≤ 153722867
    → token_end s now ≡ now + s.expiry_minutes * (60 * second)
unfolding token_end duration
token_end-minutes s now h = ground arith

-- Up to 153722867 minutes, an access token that Issue has made is accepted by Parse of the same service until it is over,
-- and gives back the user, the role and the two times, as the library rounds them, with the
-- identity that the token got; given what the documentation of the libraries says.
pub parse-issue :
    (lib : Libraries) (clock : ℕ → Time) (s : JwtService) (m n : ℕ) (user : Uuid) (role : Role)
    (now : Time) (token : Text)
    → Documented lib clock
    → s.expiry_minutes ≤ 153722867
    → issue lib s m user role now ≡ ok token
    → clock n < lib.numeric_date (now + s.expiry_minutes * (60 * second))
    → parse lib s n token
      ≡ ok (record {
        user_id = user;
        role = role;
        jti = lib.uuid_text (lib.new_uuid m);
        issued_at = lib.numeric_date now;
        expires_at = lib.numeric_date (now + s.expiry_minutes * (60 * second));
      })
unfolding issue parse
parse-issue lib clock s m n user role now token law few issued early =
    let end = ap lib.numeric_date (token_end-minutes s now few) in
    let read =
      law.parse-sign n s.secret token (issued_claims lib s m user role now) (key_for lib s)
        (lib.numeric_date (token_end s now)) issued refl refl (rw (← end) at early) in
    rw (← end, read, law.parse_uuid-text user, law.uuid_text-some (lib.new_uuid m)) refl

pair_of-ok :
    (lib : Libraries) (r : Result (List ℕ)) (pair : TokenPair)
    → ((bytes : List ℕ) → r ≡ ok bytes → length bytes ≡ 64)
    → pair_of lib r ≡ ok pair
    → (pair.hash ≡ refresh_hash lib pair.plaintext) × (length pair.plaintext ≡ 128)
pair_of-ok lib (ok bytes) pair size h = ground (arith, size bytes refl, length-hex bytes)
pair_of-ok lib (err e) pair size h = cc

pub generate-hash :
    (lib : Libraries) (clock : ℕ → Time) (n : ℕ) (pair : TokenPair)
    → Documented lib clock
    → generate lib n ≡ ok pair
    → (pair.hash ≡ refresh_hash lib pair.plaintext) × (length pair.plaintext ≡ 128)
unfolding generate
generate-hash lib clock n pair law made =
    pair_of-ok lib (lib.rand_read n 64) pair (law.read-length n 64) made
