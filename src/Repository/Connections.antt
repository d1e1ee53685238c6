-- ===== src/Repository/Connections.antt =====
-- The connection logs of backend/repository/log.go.
use mathlib.Core.Option
use num_duel.Prelude.{some, ◌==◌}
use num_duel.Model.{Uuid, Time, WsConnectionLog}
use num_duel.World.{M, Env, exec}

abbrev pub disconnected_at_time : Time → WsConnectionLog → WsConnectionLog
disconnected_at_time at l = record l { disconnected_at = some at }

module _ (env : Env) where
  abbrev pub create_ws_log : WsConnectionLog → M (Unit {0})
  create_ws_log l =
      exec env (λ db. Option.map (λ t. record db { ws_logs = t }) (env.ws_logs.create l db.ws_logs))

  -- No row is no error.
  abbrev pub update_disconnected : Uuid → Time → M (Unit {0})
  update_disconnected id at = exec env (λ db.
      let (n, rows) = env.ws_logs.updates (λ l. l.id == id) (disconnected_at_time at) db.ws_logs in
      some (record db { ws_logs = rows }))
