-- ===== src/Session/Access/Laws.antt =====
-- Whom the socket lets in.
use num_duel.Prelude.{
  ◌≡◌, ◌≢◌, refl, sym, ◌∙◌, ◌⊎◌, inl, inr, Bool, true, false, not, ◌&&◌, ◌*◌, ◌≤◌, Option, none,
  some, arith, Option-cases, Bool-cases, ◌==◌, ltb,
}
use num_duel.Model.{Uuid, Time, Text, User, Result-cases, ok, is_deleted, is_empty, unauthorized}
use num_duel.World.{
  M, Env, World, Key, Value, jwt_revoked, force_logout, unix_seconds, backup_value, turn_value,
  mark, connection, >>=-eq-ok, when, fail_if, pure, ◌>>=◌,
}
use num_duel.Repository.Users.{user_has_id}
use num_duel.RedisStore.{
  redis_get, read_force_logout, is_jwt_revoked, get_force_logout_before, second,
}
use num_duel.Session.Access.{
  WsAuthUseCase, AccessTokenClaims, check_revoked, check_force_logout, known_user,
  authenticate_claims, authenticate,
}

-- What a server may answer for the key of a token that is let in: nothing.
abbrev pub NotRevoked : Env → WsAuthUseCase → AccessTokenClaims → World → Type 0
NotRevoked env a c w = a.revoker ≡ true → env.server.get w.calls (jwt_revoked c.jti) w.redis ≡ none

-- No forced logout of the user, or one that is no later than the token.
abbrev pub NotForced : Env → WsAuthUseCase → AccessTokenClaims → World → Type 0
NotForced env a c w =
    a.force_logout ≡ true
    → c.issued_at ≢ 0
    → (env.server.get w.calls (force_logout c.user_id) w.redis ≡ none)
      ⊎ ((s : Time) × (env.server.get w.calls (force_logout c.user_id) w.redis
            ≡ some (unix_seconds s))
          × (s * second ≤ c.issued_at))

when-ok :
    (test : Bool) (m : M (Unit {0})) (w v : World)
    → when test m w ≡ (ok tt, v)
    → ((test ≡ true) × (m w ≡ (ok tt, v))) ⊎ ((test ≡ false) × (v ≡ w))
when-ok true m w v h = inl (refl, h)
when-ok false m w v h = inr (refl, ground arith)

redis_get-ok :
    (env : Env) (k : Key) (w v : World) (o : Option Value)
    → redis_get env k w ≡ (ok o, v)
    → (o ≡ env.server.get w.calls k w.redis) × (v.db ≡ w.db) × (v.redis ≡ w.redis)
redis_get-ok env k w v o h = elim (Bool-cases (env.fails w.calls)) [
  | inl down ↦ absurd (ground arith)
  | inr up ↦ (ground arith, ground arith, ground arith)
]

read_force_logout-ok :
    (o : Option Value) (before : Time) (w v : World)
    → read_force_logout o w ≡ (ok before, v)
    → (v ≡ w)
      × (((o ≡ none) × (before ≡ 0))
          ⊎ ((s : Time) × (o ≡ some (unix_seconds s)) × (before ≡ s * second)))
read_force_logout-ok none before w v h = (ground arith, inl (refl, ground arith))
read_force_logout-ok (some (unix_seconds s)) before w v h =
    (ground arith, inr (s, refl, ground arith))
read_force_logout-ok (some mark) before w v h = cc
read_force_logout-ok (some (connection t)) before w v h = cc
read_force_logout-ok (some (turn_value t)) before w v h = cc
read_force_logout-ok (some (backup_value t at)) before w v h = cc

module _ (env : Env) (a : WsAuthUseCase) where
  check_revoked-ok :
      (c : AccessTokenClaims) (w v : World)
      → check_revoked env a c w ≡ (ok tt, v)
      → NotRevoked env a c w × (v.db ≡ w.db) × (v.redis ≡ w.redis)
  check_revoked-ok c w v h =
      elim (when-ok a.revoker (is_jwt_revoked env c.jti >>= λ b. fail_if b unauthorized) w v h) [
        | inr (off, same) ↦ (λ on. absurd (ground arith), ground arith, ground arith)
        | inl (on, call) ↦
            let (r, v1, asked, tested) =
              >>=-eq-ok (is_jwt_revoked env c.jti) (λ b. fail_if b unauthorized) w call in
            let (o, v2, got, read) =
              >>=-eq-ok (redis_get env (jwt_revoked c.jti))
                (λ x. pure (elim x [ none ↦ false | some _ ↦ true ])) w asked in
            let (there, db, redis) = redis_get-ok env (jwt_revoked c.jti) w v2 o got in
            elim (Option-cases o) [
              | inl none_there ↦ (λ _. sym there ∙ none_there, (ground arith), (ground arith))
              | inr (x, marked) ↦ absurd (ground arith)
            ]
      ]

  check_force_logout-ok :
      (c : AccessTokenClaims) (w v : World)
      → check_force_logout env a c w ≡ (ok tt, v)
      → NotForced env a c w × (v.db ≡ w.db)
  check_force_logout-ok c w v h =
      let test : Time → M (Unit {0}) =
        λ before. fail_if (not (before == 0) && ltb c.issued_at before) unauthorized in
      elim (when-ok (a.force_logout && not (c.issued_at == 0))
        (get_force_logout_before env c.user_id >>= test) w v h) [
          | inr (off, same) ↦ (λ on set. absurd (ground arith), ground arith)
          | inl (on, call) ↦
              let (before, v1, asked, tested) =
                >>=-eq-ok (get_force_logout_before env c.user_id) test w call in
              let (o, v2, got, read) =
                >>=-eq-ok (redis_get env (force_logout c.user_id)) read_force_logout w asked in
              let (there, db, redis) = redis_get-ok env (force_logout c.user_id) w v2 o got in
              let (same, value) = read_force_logout-ok o before v2 v1 read in
              elim value [
                | inl (none_there, zero_time) ↦
                    (λ _ _. inl (sym there ∙ none_there), (ground arith))
                | inr (s, noted, time) ↦
                    (λ _ _. inr (s, sym there ∙ noted, (ground arith)), (ground arith))
              ]
        ]

  known_user-ok :
      (c : AccessTokenClaims) (w w' : World) (id : Uuid)
      → known_user env a c w ≡ (ok id, w')
      → (id ≡ c.user_id)
        × ((u : User) × (env.users.first (user_has_id id) w.db.users ≡ some u)
            × (is_deleted u ≡ false))
  unfolding known_user is_deleted
  known_user-ok c w w' id h =
      elim (Option-cases (env.users.first (user_has_id c.user_id) w.db.users)) [
        | inl missing ↦ absurd (ground arith)
        | inr (u, there) ↦
            let user : id ≡ c.user_id = ground arith in (user, (u, rw user there, ground arith))
      ]

  authenticate_claims-known :
      (c : AccessTokenClaims) (w w' : World) (id : Uuid)
      → authenticate_claims env a c w ≡ (ok id, w')
      → (id ≡ c.user_id)
        × NotRevoked env a c w
        × ((v : World) × (v.db ≡ w.db) × (v.redis ≡ w.redis) × NotForced env a c v)
        × ((u : User) × (env.users.first (user_has_id id) w.db.users ≡ some u)
            × (is_deleted u ≡ false))
  unfolding authenticate_claims
  authenticate_claims-known c w w' id h =
      let rest = known_user env a c in
      let (_, w1, e1, h1) =
        >>=-eq-ok (check_revoked env a c) (λ _. check_force_logout env a c >>= λ _. rest) w h in
      let (_, w2, e2, h2) = >>=-eq-ok (check_force_logout env a c) (λ _. rest) w1 h1 in
      let (fresh, same1, redis1) = check_revoked-ok c w w1 e1 in
      let (late, same2) = check_force_logout-ok c w1 w2 e2 in
      let (user, (u, there, kept)) = known_user-ok c w2 w' id h2 in
      (user, fresh, (w1, same1, redis1, late), (u, rw (same2, same1) at there, kept))

  -- An access token that is let in parses, its user is there and not deleted, the server has no
  -- mark of the token's revocation, and no forced logout of the user that is later than the
  -- token, as far as the stores are in use.
  pub authenticate-known :
      (token : Text) (w w' : World) (id : Uuid)
      → authenticate env a token w ≡ (ok id, w')
      → (c : AccessTokenClaims) × (a.parse w.calls token ≡ ok c)
        × (id ≡ c.user_id)
        × NotRevoked env a c w
        × ((v : World) × (v.db ≡ w.db) × (v.redis ≡ w.redis) × NotForced env a c v)
        × ((u : User) × (env.users.first (user_has_id id) w.db.users ≡ some u)
            × (is_deleted u ≡ false))
  unfolding authenticate
  authenticate-known token w w' id h = elim (Bool-cases (is_empty token)) [
    | inl empty ↦ absurd (ground arith)
    | inr given ↦ elim (Result-cases (a.parse w.calls token)) [
      | inr (e, bad) ↦ absurd (ground arith)
      | inl (c, parsed) ↦
          let start : authenticate_claims env a c w ≡ (ok id, w') = ground arith in
          let (user, fresh, late, known) = authenticate_claims-known c w w' id start in
          (c, parsed, user, fresh, late, known)
    ]
  ]
