-- ===== src/Repository/Retention.antt =====
-- DeleteOlderThan of backend/repository/log.go.
use num_duel.Prelude.{ℕ, Bool, ltb, if◌then◌else◌}
use num_duel.Model.{Time, WsConnectionLog, err, ok, external}
use num_duel.World.{M, Env, Tables, ActivityLog, LoginLog, tick}

abbrev pub activity_before : Time → ActivityLog → Bool
activity_before before l = ltb l.created_at before

abbrev pub login_before : Time → LoginLog → Bool
login_before before l = ltb l.created_at before

abbrev pub connection_before : Time → WsConnectionLog → Bool
connection_before before l = ltb l.connected_at before

module _ (env : Env) where
  -- One statement that changes the tables and tells how many rows it changed.
  abbrev pub exec_counted : (Tables → ℕ × Tables) → M ℕ
  exec_counted q w =
      let (n, db) = q w.db in
      (
        if env.fails w.calls then err (external w.calls) else ok n,
        tick (record w { db = if env.fails w.calls then w.db else db }),
      )

  abbrev pub delete_activity_logs : Time → ℕ → M ℕ
  delete_activity_logs before limit = exec_counted λ db.
      let (n, rows) =
        env.activity_logs.delete_some limit (activity_before before) db.activity_logs in
      (n, record db { activity_logs = rows })

  abbrev pub delete_login_logs : Time → ℕ → M ℕ
  delete_login_logs before limit = exec_counted λ db.
      let (n, rows) = env.login_logs.delete_some limit (login_before before) db.login_logs in
      (n, record db { login_logs = rows })

  abbrev pub delete_ws_logs : Time → ℕ → M ℕ
  delete_ws_logs before limit = exec_counted λ db.
      let (n, rows) = env.ws_logs.delete_some limit (connection_before before) db.ws_logs in
      (n, record db { ws_logs = rows })
