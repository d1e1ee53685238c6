-- ===== src/Session/Laws.antt =====
-- Refresh tokens and logins against the tables.
use num_duel.Prelude.{
  suc, ◌+◌, ◌*◌, ◌≡◌, ◌≢◌, ap, none, Bool, not, true, false, some, List, arith, Option-cases,
  Bool-cases, inl, inr, ◌==◌, ◌&&◌,
}
use num_duel.Model.{
  Uuid, Time, Text, User, RefreshToken, active, revoked, is_some, Result, Result-cases, ok, err,
  is_active, is_deleted, new_refresh_token,
}
use num_duel.World.{Env, RollsBack, World, tick, with_tx, with_tx-ok, with_tx-err}
use num_duel.Repository.Users.{token_has_hash, user_has_id, user_has_email}
use num_duel.RedisStore.{second}
use num_duel.Session.Validate.{validate_login_email, validate_password}
use num_duel.Session.{
  AuthUseCase, SessionTokens, login, token_expiry, replace_token, rotate_for, rotate_refresh_token,
  refresh_stored, missing_or_deleted, is_revoked_status,
}

-- A row that has not been revoked.
abbrev pub in_use : RefreshToken → Bool
in_use t = elim t.status [ active ↦ not (is_some t.revoked_at) | revoked ↦ false ]

-- A row that is in use from a time to another one.
abbrev pub issued_token : Uuid → Uuid → Text → Uuid → Time → Time → RefreshToken
issued_token id user hash family end now = record {
  id = id;
  user_id = user;
  token_hash = hash;
  family_id = family;
  status = active;
  expires_at = end;
  revoked_at = none;
  replaced_by_token_id = none;
  created_at = now;
  updated_at = now;
}

-- A row that has been replaced by another one.
abbrev pub replaced : Time → Uuid → RefreshToken → RefreshToken
replaced now next t = record t {
  status = revoked;
  revoked_at = some now;
  updated_at = now;
  replaced_by_token_id = some next;
}

module _ (env : Env) (a : AuthUseCase) where
  replace_token-ok :
      (locked : RefreshToken) (now : Time) (u : User) (w w' : World) (r : SessionTokens)
      → replace_token env a locked now u w ≡ (ok r, w')
      → (hash : Text) × (id : Uuid) × (rows : List RefreshToken) × (env.tokens.create
            (new_refresh_token id u.id hash locked.family_id (token_expiry a now) now)
            w.db.tokens
          ≡ some rows)
        × ((env.tokens.updates (λ t. t.id == locked.id && in_use t) (replaced now id) rows).0 ≢ 0)
        × (w'.db ≡ record w.db {
          tokens =
              (env.tokens.updates (λ t. t.id == locked.id && in_use t) (replaced now id) rows).1;
          users = env.users.save (record u { last_activity_at = now; updated_at = now }) w.db.users;
        })
  unfolding replace_token
  replace_token-ok locked now u w w' r h = elim (Result-cases (a.generate (suc w.calls))) [
    | inr (e, none_made) ↦ absurd (ground arith)
    | inl (pair, made) ↦
        let id = env.fresh (suc (suc w.calls)) in
        let token : RefreshToken =
          new_refresh_token id u.id pair.hash locked.family_id (token_expiry a now) now in
        elim (Option-cases (env.tokens.create token w.db.tokens)) [
          | inl refused ↦ absurd (ground arith)
          | inr (rows, created) ↦ (pair.hash, id, rows, created, (ground arith), (ground arith))
        ]
  ]

  -- A rotation that succeeds has found a live token, and a user who is there.
  rotate-found :
      (hash : Text) (now : Time) (w w' : World) (r : SessionTokens)
      → rotate_refresh_token env a hash now w ≡ (ok r, w')
      → (locked : RefreshToken) × (u : User) × (env.tokens.first (token_has_hash hash) w.db.tokens
          ≡ some locked)
        × (is_active locked now ≡ true)
        × (env.users.first (user_has_id locked.user_id) w.db.users ≡ some u)
        × (is_deleted u ≡ false)
        × (replace_token env a locked now u (tick (tick w)) ≡ (ok r, w'))
  unfolding rotate_refresh_token rotate_for
  rotate-found hash now w w' r h =
      elim (Option-cases (env.tokens.first (token_has_hash hash) w.db.tokens)) [
        | inl missing ↦ absurd (ground arith)
        | inr (locked, found) ↦
            elim (Option-cases (env.users.first (user_has_id locked.user_id) w.db.users)) [
              | inl gone ↦ absurd (ground arith)
              | inr (u, there) ↦
                  (locked, u, found, (ground arith), there, (ground arith), (ground arith))
            ]
      ]

  refresh_stored-live :
      (hash : Text) (now : Time) (stored : RefreshToken) (w w' : World) (r : SessionTokens)
      → refresh_stored env a hash now stored w ≡ (ok r, w')
      → with_tx env (rotate_refresh_token env a hash now) w ≡ (ok r, w')
  unfolding refresh_stored
  refresh_stored-live hash now stored w w' r h =
      elim (Bool-cases (is_revoked_status stored.status)) [
        | inl reused ↦ absurd (ground arith)
        | inr fresh ↦ elim (Bool-cases (is_active stored now)) [
          | inl live ↦ ground arith
          | inr over ↦ absurd (ground arith)
        ]
      ]

  -- When a refresh with a token that was found succeeds, the hash belongs to a token that is
  -- neither revoked nor over and to a user who is there and not deleted; a new active token of
  -- the same family is stored, the live rows with the old token's identity, at least one, are
  -- revoked and marked as replaced by it, the user's activity is noted, and no other table
  -- changes.
  pub refresh_stored-rotates :
      (hash : Text) (now : Time) (stored : RefreshToken) (w w' : World) (r : SessionTokens)
      → refresh_stored env a hash now stored w ≡ (ok r, w')
      → (locked : RefreshToken) × (u : User) × (new_hash : Text) × (id : Uuid) × (rows : List
          RefreshToken)
        × (env.tokens.first (token_has_hash hash) w.db.tokens ≡ some locked)
        × (is_active locked now ≡ true)
        × (env.users.first (user_has_id locked.user_id) w.db.users ≡ some u)
        × (is_deleted u ≡ false)
        × (env.tokens.create
              (issued_token id u.id new_hash locked.family_id
                (now + a.refresh_days * (86400 * second))
                now)
              w.db.tokens
            ≡ some rows)
        × ((env.tokens.updates (λ t. t.id == locked.id && in_use t) (replaced now id) rows).0 ≢ 0)
        × (w'.db ≡ record w.db {
          tokens =
              (env.tokens.updates (λ t. t.id == locked.id && in_use t) (replaced now id) rows).1;
          users = env.users.save (record u { last_activity_at = now; updated_at = now }) w.db.users;
        })
  unfolding new_refresh_token
  refresh_stored-rotates hash now stored w w' r h =
      let (v, body, end) =
        with_tx-ok env (rotate_refresh_token env a hash now) w
          (refresh_stored-live hash now stored w w' r h) in
      let (locked, u, found, live, there, kept, rest) = rotate-found hash now w v r body in
      let (new_hash, id, rows, created, one, db) =
        replace_token-ok locked now u (tick (tick w)) v r rest in
      (
        locked,
        u,
        new_hash,
        id,
        rows,
        found,
        live,
        there,
        kept,
        created,
        one,
        cc (ap (λ (x : World). x.db) end, db),
      )

  rotate-gone :
      (hash : Text) (now : Time) (w w' : World) (r : SessionTokens) (locked : RefreshToken)
      → env.tokens.first (token_has_hash hash) w.db.tokens ≡ some locked
      → missing_or_deleted (env.users.first (user_has_id locked.user_id) w.db.users) ≡ true
      → rotate_refresh_token env a hash now w ≢ (ok r, w')
  rotate-gone hash now w w' r locked found gone h =
      let (other_locked, u, found', _, there, kept, _) = rotate-found hash now w w' r h in
      let same : other_locked ≡ locked = ground arith in
      let there' = rw same at there in ground arith

  -- When the user of a refresh token is missing or deleted, the transaction of the rotation
  -- leaves every table as it was, whatever it answers, the token itself included, given that a
  -- transaction which fails is rolled back.
  pub with_tx-rotate_gone :
      (hash : Text) (now : Time) (w w' : World) (r : Result SessionTokens) (locked : RefreshToken)
      → RollsBack env
      → env.tokens.first (token_has_hash hash) w.db.tokens ≡ some locked
      → missing_or_deleted (env.users.first (user_has_id locked.user_id) w.db.users) ≡ true
      → with_tx env (rotate_refresh_token env a hash now) w ≡ (r, w')
      → w'.db ≡ w.db
  with_tx-rotate_gone hash now w w' (err e) locked law found gone h =
      with_tx-err env (rotate_refresh_token env a hash now) w law h
  with_tx-rotate_gone hash now w w' (ok r) locked law found gone h =
      let (v, body, _) = with_tx-ok env (rotate_refresh_token env a hash now) w h in
      absurd (rotate-gone hash now w v r locked found gone body)

  -- A login that succeeds had an address and a password that pass their checks, and is for the
  -- user found under the address, who is not deleted and whose stored hash verifies the password.
  pub login-verified :
      (email password : Text) (w w' : World) (u : User) (r : SessionTokens)
      → login env a email password w ≡ (ok (u, r), w')
      → (validate_login_email email ≡ ok tt)
        × (validate_password password ≡ ok tt)
        × (env.users.first (user_has_email email) w.db.users ≡ some u)
        × (is_deleted u ≡ false)
        × (a.verify_password u.password_hash password ≡ true)
  unfolding login
  login-verified email password w w' u r h = elim (Result-cases (validate_login_email email)) [
    | inr (e, bad) ↦ absurd (ground arith)
    | inl (x, valid) ↦ elim (Result-cases (validate_password password)) [
      | inr (e, weak) ↦ absurd (ground arith)
      | inl (y, strong) ↦ elim (Option-cases (env.users.first (user_has_email email) w.db.users)) [
        | inl missing ↦ absurd (ground arith)
        | inr (v, found) ↦
            let same : v ≡ u = ground arith in
            (valid, strong, rw same at found, ground arith, ground arith)
      ]
    ]
  ]
