-- ===== src/Session/Accounts/Laws.antt =====
-- New accounts, and the logins with them.
use num_duel.Prelude.{
  ℕ, suc, ◌≡◌, inl, inr, Bool, true, false, none, some, List, arith, Option-cases,
}
use num_duel.Model.{Uuid, Time, Text, User, user, Result-cases, ok, duplicate_user}
use num_duel.World.{M, Env, World, Tables, fail_if, with_tx, >>=-eq-ok, ◌>>=◌}
use num_duel.Repository.Users.{user_has_email, user_has_username}
use num_duel.Session.{AuthUseCase}
use num_duel.Session.Validate.{validate_username, validate_email, validate_password}
use num_duel.Session.Accounts.{
  new_user, email_or_username_exists, create_account, register_checked, register,
}

-- The row that Register stores, and the tables it leaves.
abbrev pub Registers : Env → Text → Text → Text → User → Tables → Tables → Type 0
Registers env name email hash u db db' =
    (id : Uuid) × (now : Time) × (rows : List User) × (u ≡ new_user id name email hash user now)
    × (env.users.create u db.users ≡ some rows)
    × (db' ≡ record db { users = rows })

module _ (env : Env) (a : AuthUseCase) where
  create_account-ok :
      (name email password : Text) (w w' : World) (u : User)
      → create_account env a name email password user w ≡ (ok u, w')
      → (hash : Text) × (a.hash_password w.calls password ≡ ok hash)
        × Registers env name email hash u w.db w'.db
  unfolding create_account with_tx
  create_account-ok name email password w w' u h =
      elim (Result-cases (a.hash_password w.calls password)) [
        | inr (e, broken) ↦ absurd (ground arith)
        | inl (hash, hashed) ↦
            let now = env.now (suc w.calls) in
            let id = env.fresh (suc (suc w.calls)) in
            let row = new_user id name email hash user now in
            elim (Option-cases (env.users.create row w.db.users)) [
              | inl refused ↦ absurd (ground arith)
              | inr (rows, made) ↦
                  let same : u ≡ row = (ground arith) in
                  (hash, hashed, (id, now, rows, same, rw same made, (ground arith)))
            ]
      ]

  exists-none :
      (name email : Text) (w v : World)
      → email_or_username_exists env email name w ≡ (ok false, v)
      → (env.users.first (user_has_email email) w.db.users ≡ none)
        × (env.users.first (user_has_username name) w.db.users ≡ none)
        × (v.db ≡ w.db)
  unfolding email_or_username_exists
  exists-none name email w v h =
      elim (Option-cases (env.users.first (user_has_email email) w.db.users)) [
        | inr (u, there) ↦ absurd (ground arith)
        | inl no_email ↦ elim (Option-cases (env.users.first (user_has_username name) w.db.users)) [
          | inr (u, there) ↦ absurd (ground arith)
          | inl no_name ↦ (no_email, no_name, (ground arith))
        ]
      ]

  exists-unused :
      (name email : Text) (rest : M User) (exists : Bool) (w v w' : World) (u : User)
      → email_or_username_exists env email name w ≡ (ok exists, v)
      → (fail_if exists duplicate_user >>= λ _. rest) v ≡ (ok u, w')
      → (env.users.first (user_has_email email) w.db.users ≡ none)
        × (env.users.first (user_has_username name) w.db.users ≡ none)
        × (v.db ≡ w.db)
        × (rest v ≡ (ok u, w'))
  exists-unused name email rest true w v w' u looked h = cc
  exists-unused name email rest false w v w' u looked h =
      let (no_email, no_name, same) = exists-none name email w v looked in
      (no_email, no_name, same, h)

  register_checked-ok :
      (name email password : Text) (w w' : World) (u : User)
      → register_checked env a name email password w ≡ (ok u, w')
      → (env.users.first (user_has_email email) w.db.users ≡ none)
        × (env.users.first (user_has_username name) w.db.users ≡ none)
        × ((n : ℕ) × (hash : Text) × (a.hash_password n password ≡ ok hash)
            × Registers env name email hash u w.db w'.db)
  unfolding register_checked
  register_checked-ok name email password w w' u h =
      let make = create_account env a name email password user in
      let (exists, v, looked, rest) =
        >>=-eq-ok (email_or_username_exists env email name)
          (λ exists. fail_if exists duplicate_user >>= λ _. make) w h in
      let (no_email, no_name, same, start) =
        exists-unused name email make exists w v w' u looked rest in
      let (hash, hashed, made) = create_account-ok name email password v w' u start in
      (no_email, no_name, (v.calls, hash, hashed, rw same at made))

  -- A registration that succeeds had a name, an address and a password that pass their checks; no
  -- user had that address or that name; the new row has them, with a hash of the password, the
  -- role of a player and no wins, and no other table changes.
  pub register-Registers :
      (name email password : Text) (w w' : World) (u : User)
      → register env a name email password w ≡ (ok u, w')
      → (validate_username name ≡ ok tt)
        × (validate_email email ≡ ok tt)
        × (validate_password password ≡ ok tt)
        × (env.users.first (user_has_email email) w.db.users ≡ none)
        × (env.users.first (user_has_username name) w.db.users ≡ none)
        × ((n : ℕ) × (hash : Text) × (a.hash_password n password ≡ ok hash)
            × Registers env name email hash u w.db w'.db)
  unfolding register
  register-Registers name email password w w' u h = elim (Result-cases (validate_username name)) [
    | inr (e, bad) ↦ absurd (ground arith)
    | inl (_, named) ↦ elim (Result-cases (validate_email email)) [
      | inr (e, bad) ↦ absurd (ground arith)
      | inl (_, mailed) ↦ elim (Result-cases (validate_password password)) [
        | inr (e, bad) ↦ absurd (ground arith)
        | inl (_, strong) ↦
            let (no_email, no_name, made) =
              register_checked-ok name email password w w' u (ground arith) in
            (named, mailed, strong, no_email, no_name, made)
      ]
    ]
  ]
