-- ===== src/Admin/Laws.antt =====
-- What the deletion of a user needs and leaves, and what an access token of that user is worth then.
use num_duel.Prelude.{
  suc, not, ◌*◌, ◌/◌, ◌≡◌, ◌≢◌, refl, sym, ap, ◌∙◌, inl, inr, false, none, some, List, arith,
  Option-cases, ◌==◌, ◌&&◌,
}
use num_duel.Model.{Uuid, Time, User, revoked, ok, is_deleted, is_master, rate_limit_exceeded}
use num_duel.Ranking.{admin_ttl}
use num_duel.World.{
  Env, World, Tables, ActivityLog, user_deleted, force_logout, unix_seconds, user_delete_lock, tick,
  Reads, Reads-ok, when-Reads, bind-Reads, redis_call-Reads, with_tx, with_tx-ok, >>=-eq-ok, when,
  ignore, fail_if, ◌>>=◌,
}
use num_duel.Repository.Users.{user_has_id}
use num_duel.Session.Laws.{in_use}
use num_duel.Repository.Games.{game_has_player, entry_has_user}
use num_duel.Repository.Logs.{record_admin_delete_user_log}
use num_duel.RedisStore.{set_force_logout_before, acquire_lock, at_least, second}
use num_duel.Matching.{first_active, find_active_game_for_user}
use num_duel.Admin.{
  AdminUseCase, check_target, delete_user_tx, delete_target, delete_locked, delete_user, admin_lock,
}

-- The tables after the transaction: the user marked, without tokens and out of the queue.
abbrev pub without_user : Env → Uuid → Uuid → User → Time → Tables → Tables
without_user env admin target u now db = record db {
  users =
      env.users.save (record u { deleted_at = some now; deleted_by = some admin; updated_at = now })
        db.users;
  queue = env.queue.delete (entry_has_user target) db.queue;
  tokens =
      (env.tokens.updates (λ t. t.user_id == target && in_use t)
        (λ t. record t { status = revoked; revoked_at = some now; updated_at = now }) db.tokens).1;
}

-- The tables after a user's deletion.
abbrev pub Deletes : Env → Uuid → Uuid → User → Time → Tables → Tables → Type 0
Deletes env admin target u now db db' =
    (log : Uuid) × (logs : List ActivityLog) × (env.activity_logs.create
        (record {
          id = log;
          user_id = some admin;
          activity = user_deleted admin target;
          created_at = now;
          updated_at = now;
        })
        db.activity_logs
      ≡ some logs)
    × (db' ≡ record (without_user env admin target u now db) { activity_logs = logs })

module _ (env : Env) (a : AdminUseCase) where
  lock-Reads : (admin : Uuid) → Reads (admin_lock env a (user_delete_lock admin))
  lock-Reads admin =
      when-Reads a.locks
        (acquire_lock env (user_delete_lock admin) (admin_ttl a.admin_lock_ttl) >>= λ got.
          fail_if (not got) rate_limit_exceeded)
        (bind-Reads (acquire_lock env (user_delete_lock admin) (admin_ttl a.admin_lock_ttl))
          (λ got. fail_if (not got) rate_limit_exceeded)
          (redis_call-Reads env (λ n r.
            env.server.set_nx n (user_delete_lock admin)
              (at_least 1 (admin_ttl a.admin_lock_ttl / second)) r))
          (λ got w. refl))

  check_target-ok :
      (u : User) (w v : World)
      → check_target u w ≡ (ok tt, v)
      → (is_deleted u ≡ false) × (is_master u ≡ false) × (v ≡ w)
  unfolding check_target
  check_target-ok u w v h = ground arith

  delete_user_tx-ok :
      (admin target : Uuid) (u : User) (now : Time) (w v : World)
      → delete_user_tx env a admin u target now w ≡ (ok tt, v)
      → v.db ≡ without_user env admin target u now w.db
  unfolding delete_user_tx
  delete_user_tx-ok admin target u now w v h = ground arith

  delete_log-ok :
      (admin target : Uuid) (now : Time) (w w' : World)
      → record_admin_delete_user_log env admin target now w ≡ (ok tt, w')
      → (log : Uuid) × (logs : List ActivityLog) × (env.activity_logs.create
            (record {
              id = log;
              user_id = some admin;
              activity = user_deleted admin target;
              created_at = now;
              updated_at = now;
            })
            w.db.activity_logs
          ≡ some logs)
        × (w'.db ≡ record w.db { activity_logs = logs })
  delete_log-ok admin target now w w' h =
      let row : ActivityLog = record {
        id = env.fresh w.calls;
        user_id = some admin;
        activity = user_deleted admin target;
        created_at = now;
        updated_at = now;
      } in
      elim (Option-cases (env.activity_logs.create row w.db.activity_logs)) [
        | inl refused ↦ absurd (ground arith)
        | inr (logs, made) ↦ (env.fresh w.calls, logs, made, ground arith)
      ]

  delete_target-ok :
      (admin target : Uuid) (u : User) (w w' : World)
      → Reads (a.delete_session target)
      → delete_target env a admin target u w ≡ (ok tt, w')
      → Deletes env admin target u (env.now w.calls) w.db w'.db
  unfolding delete_target
  delete_target-ok admin target u w w' reads h =
      let now = env.now w.calls in
      let log = record_admin_delete_user_log env admin target now in
      let tx = with_tx env (delete_user_tx env a admin u target now) in
      let told = when a.ws_sessions (ignore (a.delete_session target)) in
      let forced = when a.force_logout (set_force_logout_before env target now) in
      let (_, w1, e1, h1) = >>=-eq-ok forced (λ _. told >>= λ _. tx >>= λ _. log) (tick w) h in
      let (_, w2, e2, h2) = >>=-eq-ok told (λ _. tx >>= λ _. log) w1 h1 in
      let (_, w3, e3, h3) = >>=-eq-ok tx (λ _. log) w2 h2 in
      let forced-Reads = when-Reads a.force_logout (set_force_logout_before env target now) (
        redis_call-Reads env (λ n r. (
          tt,
          env.server.set n (force_logout target) (unix_seconds (now / second)) (2592000 * second) r,
        ))) in
      let kept1 = Reads-ok forced (tick w) forced-Reads e1 in
      let kept2 =
        Reads-ok told w1 (when-Reads a.ws_sessions (ignore (a.delete_session target)) reads) e2 in
      let (v, body, end) = with_tx-ok env (delete_user_tx env a admin u target now) w2 e3 in
      let done_tx = delete_user_tx-ok admin target u now w2 v body in
      let (id, logs, made, logged) = delete_log-ok admin target now w3 w' h3 in
      let same : w2.db ≡ w.db = kept2 ∙ kept1 in
      let after : w3.db ≡ without_user env admin target u now w.db =
        ap (λ (x : World). x.db) end ∙ done_tx ∙ ap (without_user env admin target u now) same in
      (
        id,
        logs,
        ap
              (λ (d : Tables).
                env.activity_logs.create
                  (record {
                    id = id;
                    user_id = some admin;
                    activity = user_deleted admin target;
                    created_at = now;
                    updated_at = now;
                  })
                  d.activity_logs)
              (sym after)
            ∙ made,
        logged ∙ ap (λ (d : Tables). record d { activity_logs = logs }) after,
      )

  delete_locked-ok :
      (admin target : Uuid) (w w' : World)
      → delete_locked env a admin target w ≡ (ok tt, w')
      → (admin ≢ target)
        × ((u : User) × (env.users.first (user_has_id target) w.db.users ≡ some u)
            × (is_deleted u ≡ false)
            × (is_master u ≡ false)
            × (first_active (env.games.find (game_has_player target) w.db.games) ≡ none)
            × (delete_target env a admin target u (tick (tick w)) ≡ (ok tt, w')))
  unfolding delete_locked find_active_game_for_user check_target
  delete_locked-ok admin target w w' h =
      elim (Option-cases (env.users.first (user_has_id target) w.db.users)) [
        | inl missing ↦ absurd (ground arith)
        | inr (u, found) ↦
            elim (Option-cases
              (first_active (env.games.find (game_has_player target) w.db.games))) [
                | inr (g, busy) ↦ absurd (ground arith)
                | inl free ↦ (
                  λ e. absurd (ground arith),
                  (u, found, ground arith, ground arith, free, ground arith),
                )
              ]
      ]

  -- When an admin's deletion of a user succeeds, the two are different, the user was there,
  -- neither deleted nor a master, and in no game that runs; afterwards the user is marked as
  -- deleted by the admin, the user's live refresh tokens are revoked and the queue's entries
  -- deleted, the deletion is in the activity log, and nothing else changes in the tables, given
  -- that the deletion of a session leaves them alone.
  pub delete_user-Deletes :
      (admin target : Uuid) (w w' : World)
      → Reads (a.delete_session target)
      → delete_user env a admin target w ≡ (ok tt, w')
      → (admin ≢ target)
        × ((u : User) × (now : Time) × (env.users.first (user_has_id target) w.db.users ≡ some u)
            × (is_deleted u ≡ false)
            × (is_master u ≡ false)
            × (first_active (env.games.find (game_has_player target) w.db.games) ≡ none)
            × Deletes env admin target u now w.db w'.db)
  unfolding delete_user
  delete_user-Deletes admin target w w' reads h =
      let lock = admin_lock env a (user_delete_lock admin) in
      let (_, v, got, rest) = >>=-eq-ok lock (λ _. delete_locked env a admin target) w h in
      let same = Reads-ok lock w (lock-Reads admin) got in
      let (other, (u, found, there, plain, free, start)) =
        delete_locked-ok admin target v w' rest in
      let gone = delete_target-ok admin target u (tick (tick v)) w' reads start in
      (
        other,
        (
          u,
          env.now (suc (suc v.calls)),
          rw same at found,
          there,
          plain,
          rw same at free,
          rw same at gone,
        ),
      )
