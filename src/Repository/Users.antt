-- ===== src/Repository/Users.antt =====
-- backend/repository/{user,refresh_token,ranking}.go.
use mathlib.Core.Option
use num_duel.Prelude.{
  ℕ, Bool, true, false, not, ◌&&◌, Option, some, List, length, ltb, ◌==◌, text_eq, if◌then◌else◌,
}
use num_duel.Model.{
  Uuid, Time, Text, User, RefreshToken, Ranking, active, revoked, is_some, repo_not_found, ok, err,
  external, is_master, is_deleted,
}
use num_duel.World.{M, Env, tick, query, exec, fail_if, done, ◌>>=◌, ◌>>◌}

abbrev pub user_has_id : Uuid → User → Bool
user_has_id id u = u.id == id

abbrev pub user_has_email : Text → User → Bool
user_has_email email u = text_eq u.email email

abbrev pub user_has_username : Text → User → Bool
user_has_username name u = text_eq u.username name

abbrev pub user_inactive_since : Time → User → Bool
user_inactive_since before u = not (is_some u.deleted_at) && ltb u.last_activity_at before

abbrev pub any_user : User → Bool
any_user u = true

abbrev pub any_ranking : Ranking → Bool
any_ranking r = true

abbrev pub token_has_hash : Text → RefreshToken → Bool
token_has_hash hash t = text_eq t.token_hash hash

-- `status = 'active' AND revoked_at IS NULL`
abbrev pub token_live : RefreshToken → Bool
token_live t = elim t.status [ active ↦ not (is_some t.revoked_at) | revoked ↦ false ]

abbrev pub revoke_at : Time → RefreshToken → RefreshToken
revoke_at at t = record t { status = revoked; revoked_at = some at; updated_at = at }

abbrev pub use_at : Time → Uuid → RefreshToken → RefreshToken
use_at at next t = record (revoke_at at t) { replaced_by_token_id = some next }

module _ (env : Env) where
  abbrev pub create_user : User → M (Unit {0})
  create_user u =
      exec env (λ db. Option.map (λ t. record db { users = t }) (env.users.create u db.users))

  abbrev pub update_user : User → M (Unit {0})
  update_user u = exec env (λ db. some (record db { users = env.users.save u db.users }))

  abbrev pub find_user_by_id : Uuid → M (Option User)
  find_user_by_id id = query env (λ db. env.users.first (user_has_id id) db.users)

  abbrev pub find_user_by_email : Text → M (Option User)
  find_user_by_email email = query env (λ db. env.users.first (user_has_email email) db.users)

  abbrev pub find_user_by_username : Text → M (Option User)
  find_user_by_username name = query env (λ db. env.users.first (user_has_username name) db.users)

  abbrev pub list_all_users : M (List User)
  list_all_users = query env (λ db. env.users.find any_user db.users)

  abbrev pub list_inactive_since : Time → M (List User)
  list_inactive_since before =
      query env (λ db. env.users.find (user_inactive_since before) db.users)

  abbrev pub exists_active_master : M Bool
  exists_active_master =
      query env
        (λ db. ltb 0 (length (env.users.find (λ u. is_master u && not (is_deleted u)) db.users)))

  abbrev pub find_token_by_hash : Text → M (Option RefreshToken)
  find_token_by_hash hash = query env (λ db. env.tokens.first (token_has_hash hash) db.tokens)

  abbrev pub find_token_by_hash_for_update : Text → M (Option RefreshToken)
  find_token_by_hash_for_update hash =
      query env (λ db. env.tokens.first (token_has_hash hash) db.tokens)

  abbrev pub create_token : RefreshToken → M (Unit {0})
  create_token t =
      exec env (λ db. Option.map (λ r. record db { tokens = r }) (env.tokens.create t db.tokens))

  -- One statement: an update of the tokens that meet a condition, and the number of them.
  abbrev pub update_tokens : (RefreshToken → Bool) → (RefreshToken → RefreshToken) → M ℕ
  update_tokens p f w =
      let (n, rows) = env.tokens.updates p f w.db.tokens in
      (
        if env.fails w.calls then err (external w.calls) else ok n,
        tick (record w {
          db = record w.db { tokens = if env.fails w.calls then w.db.tokens else rows };
        }),
      )

  -- `rowsAffected`
  abbrev pub rows_affected : ℕ → M (Unit {0})
  rows_affected n = fail_if (n == 0) repo_not_found

  abbrev pub mark_token_used : Uuid → Time → Uuid → M (Unit {0})
  mark_token_used id at next =
      update_tokens (λ t. t.id == id && token_live t) (use_at at next) >>= rows_affected

  abbrev pub revoke_token : Uuid → Time → M (Unit {0})
  revoke_token id at =
      update_tokens (λ t. t.id == id && token_live t) (revoke_at at) >>= rows_affected

  abbrev pub revoke_tokens_by_family_id : Uuid → Time → M (Unit {0})
  revoke_tokens_by_family_id family at =
      update_tokens (λ t. t.family_id == family && token_live t) (revoke_at at) >> done

  abbrev pub revoke_tokens_by_user_id : Uuid → Time → M (Unit {0})
  revoke_tokens_by_user_id u at =
      update_tokens (λ t. t.user_id == u && token_live t) (revoke_at at) >> done
