-- ===== src/Repository/Logs.antt =====
-- backend/repository/log.go, with the records of backend/usecase/activity_log.go.
use mathlib.Core.Option
use num_duel.Prelude.{ℕ, Bool, Option, none, some}
use num_duel.Model.{Uuid, Time, other}
use num_duel.World.{
  M, Env, exec, new_uuid, ActivityLog, LoginLog, Activity, guess_made, game_ended, timed_out,
  recovered, user_deleted, ranking_rebuilt, Reason, ◌>>=◌, replace_err,
}

module _ (env : Env) where
  abbrev pub create_activity_log : ActivityLog → M (Unit {0})
  create_activity_log l = exec env (λ db.
      Option.map (λ t. record db { activity_logs = t })
        (env.activity_logs.create l db.activity_logs))

  abbrev pub create_login_log_row : LoginLog → M (Unit {0})
  create_login_log_row l =
      exec env (λ db.
        Option.map (λ t. record db { login_logs = t }) (env.login_logs.create l db.login_logs))

  -- The detail always marshals. An error is replaced by "failed to save activity log".
  abbrev pub record_activity_log : Option Uuid → Activity → Time → M (Unit {0})
  record_activity_log user a now = do
    id ← new_uuid env
    replace_err
        (create_activity_log
          (record { id = id; user_id = user; activity = a; created_at = now; updated_at = now }))
        (other 1)

  abbrev pub record_guess_activity_log : Uuid → Uuid → ℕ → ℕ → Bool → Bool → Time → M (Unit {0})
  record_guess_activity_log game player turn hits win auto now =
      record_activity_log (some player) (guess_made game player turn hits win auto) now

  abbrev pub record_game_over_activity_log : Uuid → Reason → Option Uuid → Time → M (Unit {0})
  record_game_over_activity_log game reason winner now =
      record_activity_log none (game_ended game reason winner) now

  abbrev pub record_timeout_activity_log : Uuid → Uuid → Time → M (Unit {0})
  record_timeout_activity_log game player now =
      record_activity_log (some player) (timed_out game player) now

  abbrev pub record_recover_activity_log : Uuid → Time → M (Unit {0})
  record_recover_activity_log game now = record_activity_log none (recovered game) now

  abbrev pub record_admin_delete_user_log : Uuid → Uuid → Time → M (Unit {0})
  record_admin_delete_user_log admin target now =
      record_activity_log (some admin) (user_deleted admin target) now

  abbrev pub record_admin_rebuild_ranking_log : Uuid → Time → M (Unit {0})
  record_admin_rebuild_ranking_log admin now =
      record_activity_log (some admin) (ranking_rebuilt admin) now
