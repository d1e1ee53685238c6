-- ===== src/Retention.antt =====
-- backend/usecase/log_retention.go: old rows of the logs are deleted in batches. The context of the
-- run is an argument: for a call's number it tells whether the context is over.
pub mod Laws
use num_duel.Prelude.{
  ℕ, zero, suc, ◌+◌, ◌-◌, ◌*◌, ◌<◌, Bool, true, false, List, [], ◌∷◌, ◌++◌, ◌==◌, ltb,
  if◌then◌else◌,
}
use num_duel.Model.{Time, Result, ok, err, Err, canceled, other}
use num_duel.World.{M, Env, World, tick, get_now, pure, throw, done, fail_if, ◌>>=◌, ◌>>◌}
use num_duel.RedisStore.{second}
use num_duel.Repository.Retention.{delete_activity_logs, delete_login_logs, delete_ws_logs}

-- A number of days, a size and a pause that are 0 are not set.
pub record LogRetention : Type 0 where
  pub activity_days : ℕ
  pub login_days : ℕ
  pub ws_days : ℕ
  pub batch_size : ℕ
  pub batch_sleep : ℕ

abbrev pub Context : Type 0
Context = ℕ → Bool

-- `ctx.Err()` and the wait for the timer or the context.
abbrev pub check_context : Context → M (Unit {0})
check_context over w = (if over w.calls then err canceled else ok tt, tick w)

abbrev pub sleep_or_stop : Context → ℕ → M (Unit {0})
sleep_or_stop over zero = done
sleep_or_stop over (suc sleep) = check_context over

-- `purgeLogBatches`, with fuel for the rounds.
unfoldable pub purge_log_batches : ℕ → Context → Time → ℕ → ℕ → (Time → ℕ → M ℕ) → M (Unit {0})
purge_log_batches zero over before size sleep delete = throw (other 6)
purge_log_batches (suc fuel) over before size sleep delete =
    let again = purge_log_batches fuel over before size sleep delete in
    check_context over
    >> (delete before size >>= λ n. if n == 0 then done else (sleep_or_stop over sleep >> again))

abbrev pub or_default : ℕ → ℕ → ℕ
or_default n default = if n == 0 then default else n

abbrev pub batch_size_of : LogRetention → ℕ
batch_size_of l = or_default l.batch_size 1000

abbrev pub batch_sleep_of : LogRetention → ℕ
batch_sleep_of l = or_default l.batch_sleep (100 * 1000000)

-- `AddDate(0, 0, -days)`
abbrev pub days_before : Time → ℕ → Time
days_before now days = now - days * (86400 * second)

pub data Logs : Type 0 where
  activity_logs login_logs ws_connection_logs : Logs

pub record Task : Type 0 where
  pub logs : Logs
  pub before : Time

abbrev pub task_if : ℕ → Logs → Time → List Task
task_if days logs now =
    if days == 0 then [] else record { logs = logs; before = days_before now days } ∷ []

abbrev pub tasks_of : LogRetention → Time → List Task
tasks_of l now =
    task_if l.activity_days activity_logs now
    ++ (task_if l.login_days login_logs now ++ task_if l.ws_days ws_connection_logs now)

module _ (env : Env) where
  abbrev pub delete_of : Logs → Time → ℕ → M ℕ
  delete_of activity_logs = delete_activity_logs env
  delete_of login_logs = delete_login_logs env
  delete_of ws_connection_logs = delete_ws_logs env

  -- The loop over the tasks: an error of the context ends it, another is only printed.
  abbrev pub after_task : Result (Unit {0}) × World → M (Unit {0}) → Result (Unit {0}) × World
  after_task (ok u, w) rest = rest w
  after_task (err canceled, w) rest = (ok tt, w)
  after_task (err e, w) rest = rest w

  unfoldable pub run_tasks : ℕ → Context → ℕ → ℕ → List Task → M (Unit {0})
  unfolding purge_log_batches
  run_tasks fuel over size sleep [] w = (ok tt, w)
  run_tasks fuel over size sleep (t ∷ ts) w =
      after_task (purge_log_batches fuel over t.before size sleep (delete_of t.logs) w)
        (run_tasks fuel over size sleep ts)

  unfoldable pub run : ℕ → LogRetention → Context → M (Unit {0})
  unfolding run_tasks
  run fuel l over = get_now env >>= λ now.
      run_tasks fuel over (batch_size_of l) (batch_sleep_of l) (tasks_of l now)
