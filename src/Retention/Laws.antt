-- ===== src/Retention/Laws.antt =====
-- The end of the batches, and what is left then.
use num_duel.Prelude.{
  ℕ, zero, suc, ◌+◌, ◌≤◌, ◌<◌, ◌≡◌, ◌≢◌, refl, ◌∙◌, Bool, false, List, length, arith, Bool-cases,
  inl, inr, ◌==◌, ==_iff, if◌then◌else◌,
}
use num_duel.Model.{Time, ok}
use num_duel.World.{M, Env, Answers, World, Tables, Gorm, tick, bind-ok, done, ◌>>=◌, ◌>>◌}
use num_duel.Repository.Retention.{
  activity_before, login_before, connection_before, delete_activity_logs, delete_login_logs,
  delete_ws_logs, exec_counted,
}
use num_duel.Retention.{
  Context, LogRetention, check_context, sleep_or_stop, purge_log_batches, run, run_tasks,
  days_before, batch_size_of, batch_sleep_of,
}

-- RowsAffected of a Delete under a positive Limit: it is the number of rows that are gone, and it
-- is 0 only if there was none to delete.
pub record DeletesSome {Row : Type 0} (g : Gorm Row) : Type 0 where
  pub counted :
      (n : ℕ) (p : Row → Bool) (t : List Row)
      → (g.delete_some n p t).0 + length (g.find p (g.delete_some n p t).1) ≡ length (g.find p t)
  pub empty :
      (n : ℕ) (p : Row → Bool) (t : List Row)
      → 1 ≤ n
      → (g.delete_some n p t).0 ≡ 0
      → length (g.find p t) ≡ 0

-- One batch takes rows away from those that are left, and is empty only when none is.
abbrev Shrinks : (Time → ℕ → M ℕ) → Time → ℕ → (World → ℕ) → (World → Type 0) → Type 0
Shrinks delete before size left P =
    (w : World)
    → (n : ℕ) × (w' : World) × (delete before size w ≡ (ok n, w'))
      × (n + left w' ≡ left w)
      × (n ≡ 0 → left w ≡ 0)
      × (P w → P w')

module _ (over : Context) (before : Time) (size sleep : ℕ) (delete : Time → ℕ → M ℕ)
    (left : World → ℕ) (P : World → Type 0) (running : (n : ℕ) → over n ≡ false)
    (ticks : (w : World) → left (tick w) ≡ left w) (keeps : (w : World) → P w → P (tick w))
    (shrinks : Shrinks delete before size left P) where
  check-ok : (w : World) → check_context over w ≡ (ok tt, tick w)
  check-ok w = ground (arith, running w.calls)

  sleep-ok :
      (n : ℕ) (w : World)
      → (v : World) × (sleep_or_stop over n w ≡ (ok tt, v)) × (left v ≡ left w) × (P w → P v)
  sleep-ok zero w = (w, refl, refl, λ h. h)
  sleep-ok (suc n) w = (tick w, check-ok w, ticks w, keeps w)

  -- With more fuel than rows that are left the batches end, and none is left.
  purge-empties :
      (fuel : ℕ) (w : World)
      → left w < fuel
      → (w' : World) × (purge_log_batches fuel over before size sleep delete w ≡ (ok tt, w'))
        × (left w' ≡ 0)
        × (P w → P w')
  unfolding purge_log_batches
  purge-empties zero w h = absurd (omega arith)
  purge-empties (suc fuel) w h =
      let again = purge_log_batches fuel over before size sleep delete in
      let rest : ℕ → M (Unit {0}) =
        λ n. if n == 0 then done else (sleep_or_stop over sleep >> again) in
      let (n, v, deleted, sum, last, kept) = shrinks (tick w) in
      let start =
        bind-ok (check_context over) (λ _. delete before size >>= rest) w (check-ok w)
        ∙ bind-ok (delete before size) rest (tick w) deleted in
      elim (Bool-cases (n == 0)) [
        | inl none_left ↦ (
          v,
          start ∙ rw none_left refl,
          omega (arith, sum, last ((==_iff n 0).0 none_left), ticks w),
          λ h. kept (keeps w h),
        )
        | inr more ↦
            let (u, slept, same, still) = sleep-ok sleep v in
            let ne : n ≢ 0 = λ e. absurd (ground arith) in
            let (w', ends, empty, after) =
              purge-empties fuel u (omega (arith, sum, same, ticks w, h, ne)) in
            (
              w',
              start ∙ (rw more (bind-ok (sleep_or_stop over sleep) (λ _. again) v slept ∙ ends)),
              empty,
              λ h. after (still (kept (keeps w h))),
            )
      ]

abbrev pub old_activity : Env → Time → World → ℕ
old_activity env before w =
    length (env.activity_logs.find (activity_before before) w.db.activity_logs)

abbrev pub old_logins : Env → Time → World → ℕ
old_logins env before w = length (env.login_logs.find (login_before before) w.db.login_logs)

abbrev pub old_connections : Env → Time → World → ℕ
old_connections env before w = length (env.ws_logs.find (connection_before before) w.db.ws_logs)

module _ (env : Env) (up : Answers env) where
  exec_counted-ok :
      (q : Tables → ℕ × Tables) (w : World)
      → exec_counted env q w ≡ (ok (q w.db).0, tick (record w { db = (q w.db).1 }))
  exec_counted-ok q w = ground (arith, up.answers w.calls)

module _ (env : Env) (up : Answers env) (size : ℕ) (positive : 1 ≤ size) (a l c : ℕ) where
  activity-Shrinks :
      (before other other' : Time)
      → DeletesSome env.activity_logs
      → Shrinks
          (delete_activity_logs env)
          before
          size
          (old_activity env before)
          (λ w. (old_logins env other w ≡ l) × (old_connections env other' w ≡ c))
  activity-Shrinks before other other' law w =
      let q = env.activity_logs.delete_some size (activity_before before) w.db.activity_logs in
      (
        q.0,
        tick (record w { db = record w.db { activity_logs = q.1 } }),
        exec_counted-ok env up
            (λ db.
              let (n, rows) =
                env.activity_logs.delete_some size (activity_before before) db.activity_logs in
              (n, record db { activity_logs = rows }))
            w,
        law.counted size (activity_before before) w.db.activity_logs,
        law.empty size (activity_before before) w.db.activity_logs positive,
        λ h. h,
      )

  logins-Shrinks :
      (before other other' : Time)
      → DeletesSome env.login_logs
      → Shrinks
          (delete_login_logs env)
          before
          size
          (old_logins env before)
          (λ w. (old_activity env other w ≡ a) × (old_connections env other' w ≡ c))
  logins-Shrinks before other other' law w =
      let q = env.login_logs.delete_some size (login_before before) w.db.login_logs in
      (
        q.0,
        tick (record w { db = record w.db { login_logs = q.1 } }),
        exec_counted-ok env up
            (λ db.
              let (n, rows) = env.login_logs.delete_some size (login_before before) db.login_logs in
              (n, record db { login_logs = rows }))
            w,
        law.counted size (login_before before) w.db.login_logs,
        law.empty size (login_before before) w.db.login_logs positive,
        λ h. h,
      )

  connections-Shrinks :
      (before other other' : Time)
      → DeletesSome env.ws_logs
      → Shrinks
          (delete_ws_logs env)
          before
          size
          (old_connections env before)
          (λ w. (old_activity env other w ≡ a) × (old_logins env other' w ≡ l))
  connections-Shrinks before other other' law w =
      let q = env.ws_logs.delete_some size (connection_before before) w.db.ws_logs in
      (
        q.0,
        tick (record w { db = record w.db { ws_logs = q.1 } }),
        exec_counted-ok env up
            (λ db.
              let (n, rows) = env.ws_logs.delete_some size (connection_before before) db.ws_logs in
              (n, record db { ws_logs = rows }))
            w,
        law.counted size (connection_before before) w.db.ws_logs,
        law.empty size (connection_before before) w.db.ws_logs positive,
        λ h. h,
      )

module _ (env : Env) (over : Context) (r : LogRetention) (fuel : ℕ) (up : Answers env)
    (running : (n : ℕ) → over n ≡ false) (activity_law : DeletesSome env.activity_logs)
    (login_law : DeletesSome env.login_logs) (ws_law : DeletesSome env.ws_logs) where
  -- When the database answers and the context lasts, when a Delete under a Limit deletes what it
  -- says, and when all three periods are set, a run with more fuel than each log has old rows
  -- ends, and leaves no row that is older than its period.
  pub run-empties :
      (w : World)
      → 1 ≤ r.activity_days
      → 1 ≤ r.login_days
      → 1 ≤ r.ws_days
      → old_activity env (days_before (env.now w.calls) r.activity_days) w < fuel
      → old_logins env (days_before (env.now w.calls) r.login_days) w < fuel
      → old_connections env (days_before (env.now w.calls) r.ws_days) w < fuel
      → (w' : World) × (run env fuel r over w ≡ (ok tt, w'))
        × (old_activity env (days_before (env.now w.calls) r.activity_days) w' ≡ 0)
        × (old_logins env (days_before (env.now w.calls) r.login_days) w' ≡ 0)
        × (old_connections env (days_before (env.now w.calls) r.ws_days) w' ≡ 0)
  unfolding run run_tasks
  run-empties w ha hl hc fa fl fc =
      let ta = days_before (env.now w.calls) r.activity_days in
      let tl = days_before (env.now w.calls) r.login_days in
      let tc = days_before (env.now w.calls) r.ws_days in
      let size = batch_size_of r in
      let sleep = batch_sleep_of r in
      let positive : 1 ≤ size = ground arith in
      let (w1, e1, z1, k1) =
        purge-empties over ta size sleep (delete_activity_logs env) (old_activity env ta)
          (λ v.
            (old_logins env tl v ≡ old_logins env tl w)
            × (old_connections env tc v ≡ old_connections env tc w))
          running (λ v. refl) (λ v h. h)
          (activity-Shrinks env up size positive 0 (old_logins env tl w) (old_connections env tc w)
            ta tl tc activity_law)
          fuel (tick w) fa in
      let (l1, c1) = k1 (refl, refl) in
      let (w2, e2, z2, k2) =
        purge-empties over tl size sleep (delete_login_logs env) (old_logins env tl)
          (λ v. (old_activity env ta v ≡ 0) × (old_connections env tc v ≡ old_connections env tc w))
          running (λ v. refl) (λ v h. h)
          (logins-Shrinks env up size positive 0 0 (old_connections env tc w) tl ta tc login_law)
          fuel w1 (rw (← l1) at fl) in
      let (a2, c2) = k2 (z1, c1) in
      let (w3, e3, z3, k3) =
        purge-empties over tc size sleep (delete_ws_logs env) (old_connections env tc)
          (λ v. (old_activity env ta v ≡ 0) × (old_logins env tl v ≡ 0)) running (λ v. refl)
          (λ v h. h) (connections-Shrinks env up size positive 0 0 0 tc ta tl ws_law) fuel w2
          (rw (← c2) at fc) in
      let (a3, l3) = k3 (a2, z2) in (w3, ground (arith, e1, e2, e3), a3, l3, z3)
