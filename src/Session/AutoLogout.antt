-- ===== src/Session/AutoLogout.antt =====
-- backend/usecase/auto_logout.go: users without activity are logged out.
use num_duel.Prelude.{ℕ, ◌-◌, Bool, Option, none, some, List, [], ◌∷◌, ◌==◌, if◌then◌else◌}
use num_duel.Model.{Uuid, Time, User, is_deleted}
use num_duel.Model
use num_duel.World.{M, Env, get_now, new_uuid, pure, done, when, ignore, with_tx, ◌>>=◌, ◌>>◌}
use num_duel.Repository.Users.{
  update_user, find_user_by_id, list_inactive_since, revoke_tokens_by_user_id,
}
use num_duel.Repository.Logs.{create_login_log_row}
use num_duel.RedisStore.{set_force_logout_before}

-- `Now` is nil or a function that always returns one time.
pub record AutoLogoutUseCase : Type 0 where
  pub force_logout : Bool
  pub disconnects : Bool
  pub force_disconnect : Uuid → M (Unit {0})
  pub session_timeout : ℕ
  pub fixed_now : Option Time

module _ (env : Env) (a : AutoLogoutUseCase) where
  abbrev pub note_activity : Time → Option User → M (Unit {0})
  note_activity now none = done
  note_activity now (some u) =
      if is_deleted u
      then done
      else update_user env (record u { last_activity_at = now; updated_at = now })

  -- The transaction of logoutUser.
  unfoldable pub auto_logout_tx : Uuid → Time → M (Unit {0})
  auto_logout_tx user now = do
    revoke_tokens_by_user_id env user now
    id ← new_uuid env
    create_login_log_row env (record {
      id = id;
      user_id = user;
      action = Model.auto_logout;
      created_at = now;
      updated_at = now;
    })
    found ← find_user_by_id env user
    note_activity now found

  unfoldable pub logout_user : Uuid → Time → M (Unit {0})
  unfolding auto_logout_tx with_tx
  logout_user user now = do
    when a.force_logout (set_force_logout_before env user now)
    when a.disconnects (ignore (a.force_disconnect user))
    with_tx env (auto_logout_tx user now)

  -- The loop over the users; the first error ends it.
  unfoldable pub logout_users : List User → Time → M (Unit {0})
  unfolding logout_user
  logout_users [] now = done
  logout_users (u ∷ us) now = logout_user u.id now >> logout_users us now

  -- `now()`
  abbrev pub now_of : Option Time → M Time
  now_of none = get_now env
  now_of (some now) = pure now

  unfoldable pub run_auto_logout : M (Unit {0})
  unfolding logout_users
  run_auto_logout =
      if a.session_timeout == 0
      then done
      else (now_of a.fixed_now >>= λ now.
          list_inactive_since env (now - a.session_timeout) >>= λ users. logout_users users now)
