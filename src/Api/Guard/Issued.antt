-- ===== src/Api/Guard/Issued.antt =====
-- A token of backend/crypto/token.go in front of backend/middleware/auth.go and usecase/ws_auth.go.
use num_duel.Prelude.{
  ℕ, suc, ◌+◌, ◌*◌, ◌≤◌, ◌<◌, ◌≡◌, ◌≢◌, ◌⊎◌, refl, inl, inr, sym, ◌∙◌, false, true, not, ◌&&◌, ◌==◌,
  ltb, none, some, arith,
}
use num_duel.Model.{Uuid, Time, Text, Role, User, ok, is_deleted, is_empty, unauthorized}
use num_duel.World.{
  M, Env, World, Key, Answers, tick, jwt_revoked, force_logout, unix_seconds, fail_if, pure, ◌>>=◌,
  bind-ok, redis_call-ok,
}
use num_duel.Repository.Users.{user_has_id, find_user_by_id}
use num_duel.RedisStore.{
  redis_get, read_force_logout, is_jwt_revoked, get_force_logout_before, second,
}
use num_duel.Session.{missing_or_deleted}
use num_duel.Session.Access.{AccessTokenClaims, authenticate}
use num_duel.Crypto.Token.{Libraries, JwtService, issue, parse}
use num_duel.Crypto.Token.Laws.{Documented, parse-issue}
use num_duel.Api.Guard.{
  AuthConfig, AuthInfo, info_of, refuse_revoked, refuse_forced, refuse_unknown, auth_claims, auth,
}
use num_duel.Api.Guard.Laws.{socket_of, auth-authenticate}

-- Auth as the server wires it, over a service of tokens.
abbrev pub wired : Libraries → JwtService → AuthConfig
wired lib s = record {
  jwt = λ n token. parse lib s n token;
  revoker = true;
  force_logout = true;
  users = true;
}

-- No forced logout of the user is known to the server, or one that is no later than the token.
abbrev pub Unforced : Env → ℕ → Uuid → Time → World → Type 0
Unforced env n user issued w =
    (env.server.get n (force_logout user) w.redis ≡ none)
    ⊎ ((s : Time) × (env.server.get n (force_logout user) w.redis ≡ some (unix_seconds s))
        × (s * second ≤ issued))

-- The user is there and not deleted.
abbrev pub Known : Env → Uuid → World → Type 0
Known env user w =
    (u : User) × (env.users.first (user_has_id user) w.db.users ≡ some u) × (is_deleted u ≡ false)

module _ (env : Env) (up : Answers env) (lib : Libraries) (s : JwtService) where
  redis_get-ok :
      (k : Key) (w : World) → redis_get env k w ≡ (ok (env.server.get w.calls k w.redis), tick w)
  redis_get-ok k w = redis_call-ok env up (λ n r. (env.server.get n k r, r)) w

  not_revoked :
      (c : AccessTokenClaims) (w : World)
      → env.server.get w.calls (jwt_revoked c.jti) w.redis ≡ none
      → refuse_revoked env (wired lib s) c w ≡ (ok tt, tick w)
  not_revoked c w h =
      let asked : is_jwt_revoked env c.jti w ≡ (ok false, tick w) =
        bind-ok (redis_get env (jwt_revoked c.jti))
          (λ v. pure (elim v [ none ↦ false | some _ ↦ true ])) w
          (redis_get-ok (jwt_revoked c.jti) w)
        ∙ rw h refl in
      bind-ok (is_jwt_revoked env c.jti) (λ b. fail_if b unauthorized) w asked

  -- The time that the server answers, which is 0 where there is none.
  forced_before :
      (user : Uuid) (issued : Time) (w : World)
      → Unforced env w.calls user issued w
      → (before : Time) × (get_force_logout_before env user w ≡ (ok before, tick w))
        × (before ≤ issued)
  forced_before user issued w (inl h) = (
    0,
    bind-ok (redis_get env (force_logout user)) read_force_logout w
          (redis_get-ok (force_logout user) w)
        ∙ rw h refl,
    omega arith,
  )
  forced_before user issued w (inr (t, h, le)) = (
    t * second,
    bind-ok (redis_get env (force_logout user)) read_force_logout w
          (redis_get-ok (force_logout user) w)
        ∙ rw h refl,
    le,
  )

  not_forced :
      (c : AccessTokenClaims) (w : World)
      → c.issued_at ≢ 0
      → Unforced env w.calls c.user_id c.issued_at w
      → refuse_forced env (wired lib s) c w ≡ (ok tt, tick w)
  not_forced c w set h =
      let (before, asked, le) = forced_before c.user_id c.issued_at w h in
      let given : (c.issued_at == 0) ≡ false = ground arith in
      let early : ltb c.issued_at before ≡ false = ground arith in
      rw given (
        bind-ok (get_force_logout_before env c.user_id)
          (λ b. fail_if (not (b == 0) && ltb c.issued_at b) unauthorized) w asked
        ∙ ground arith)

  not_unknown :
      (c : AccessTokenClaims) (w : World)
      → Known env c.user_id w
      → refuse_unknown env (wired lib s) c w ≡ (ok tt, tick w)
  not_unknown c w (u, found, there) =
      let asked : find_user_by_id env c.user_id w ≡ (ok (some u), tick w) =
        ground (arith, up.answers w.calls) in
      bind-ok (find_user_by_id env c.user_id) (λ o. fail_if (missing_or_deleted o) unauthorized) w
        asked
      ∙ rw there refl

  claims-pass :
      (c : AccessTokenClaims) (w : World)
      → env.server.get w.calls (jwt_revoked c.jti) w.redis ≡ none
      → c.issued_at ≢ 0
      → Unforced env (suc w.calls) c.user_id c.issued_at w
      → Known env c.user_id w
      → auth_claims env (wired lib s) c w ≡ (ok (info_of c), tick (tick (tick w)))
  unfolding auth_claims
  claims-pass c w fresh set unforced known =
      let a = wired lib s in
      let last : M AuthInfo = refuse_unknown env a c >>= λ _. pure (info_of c) in
      bind-ok (refuse_revoked env a c) (λ _. refuse_forced env a c >>= λ _. last) w
        (not_revoked c w fresh)
      ∙ bind-ok (refuse_forced env a c) (λ _. last) (tick w) (not_forced c (tick w) set unforced)
      ∙ bind-ok (refuse_unknown env a c) (λ _. pure (info_of c)) (tick (tick w))
          (not_unknown c (tick (tick w)) known)

  parsed-pass :
      (token : Text) (c : AccessTokenClaims) (w : World)
      → is_empty token ≡ false
      → parse lib s w.calls token ≡ ok c
      → auth env (wired lib s) (some token) w ≡ auth_claims env (wired lib s) c w
  unfolding auth
  parsed-pass token c w given parsed = ground arith

  -- Up to an expiry of 153722867 minutes, a token that Issue has made for a user and a role,
  -- whose time is not zero, lets its bearer in until it is over: Auth hands on that user and
  -- role, with the identity and the end of the token, and the socket's Authenticate gives the
  -- user; the tables and the Redis server stay as they are. The conditions: the calls are
  -- answered, the token is not empty, Redis holds no revocation of it and no forced logout of the
  -- user after it, the user is found and not deleted, and the libraries do what their
  -- documentation says.
  pub auth-issue :
      (clock : ℕ → Time) (m : ℕ) (user : Uuid) (role : Role) (now : Time) (token : Text) (w : World)
      → Documented lib clock
      → s.expiry_minutes ≤ 153722867
      → issue lib s m user role now ≡ ok token
      → is_empty token ≡ false
      → lib.numeric_date now ≢ 0
      → clock w.calls < lib.numeric_date (now + s.expiry_minutes * (60 * second))
      → env.server.get w.calls (jwt_revoked (lib.uuid_text (lib.new_uuid m))) w.redis ≡ none
      → Unforced env (suc w.calls) user (lib.numeric_date now) w
      → Known env user w
      → (auth env (wired lib s) (some token) w ≡ (
        ok (record {
          user_id = user;
          role = role;
          jti = lib.uuid_text (lib.new_uuid m);
          expires_at = lib.numeric_date (now + s.expiry_minutes * (60 * second));
        }),
        tick (tick (tick w)),
      ))
        × (authenticate env (socket_of (wired lib s)) token w ≡ (ok user, tick (tick (tick w))))
  auth-issue clock m user role now token w law few issued given set early fresh unforced known =
      let c : AccessTokenClaims = record {
        user_id = user;
        role = role;
        jti = lib.uuid_text (lib.new_uuid m);
        issued_at = lib.numeric_date now;
        expires_at = lib.numeric_date (now + s.expiry_minutes * (60 * second));
      } in
      let parsed = parse-issue lib clock s m w.calls user role now token law few issued early in
      let enters : auth env (wired lib s) (some token) w ≡ (ok (info_of c), tick (tick (tick w))) =
        parsed-pass token c w given parsed ∙ claims-pass c w fresh set unforced known in
      (
        enters,
        sym (auth-authenticate env (wired lib s) refl token w)
            ∙ bind-ok (auth env (wired lib s) (some token)) (λ i. pure i.user_id) w enters,
      )
