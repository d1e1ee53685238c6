-- ===== src/Backup/Laws.antt =====
-- backend/usecase/backup.go and backend/repository/backup.go: which rows a copy takes, and which it
-- leaves.
use num_duel.Prelude.{
  ℕ, zero, suc, ◌*◌, ◌/◌, ◌==◌, if◌then◌else◌, ◌≤◌, ◌≡◌, refl, ap, ◌∙◌, inl, inr, Bool, true, false,
  Option, none, some, List, [], ◌∷◌, All, arith, Bool-cases,
}
use num_duel.Model.{
  Time, Text, User, Game, Guess, MatchHistory, Ranking, Result, ok, err, Err, external,
}
use num_duel.World.{
  Env, Gorm, World, Tables, ActivityLog, LoginLog, tick, Value, mark, connection, turn_value,
  unix_seconds, backup_value, backup_status, Reads, bind-Reads, redis_call-Reads, bind-ok,
}
use num_duel.RedisStore.{second, redis_get}
use num_duel.Backup.Status.{
  BackupStatus, error_text, read_status, get_backup_status, set_backup_status,
}
use num_duel.Backup.{
  Copying, S, ◌>>=◌, pure, on_main, Upserts, updated_since, sync_rows, SyncTask, add_result,
  run_tasks, put_users, put_games, put_guesses, put_histories, put_rankings, put_activity_logs,
  put_login_logs, sync_tasks, sync, note_ok, note_error, attempts, last_synced, retries_of,
  run_sync_with, run_sync,
}

-- GORM's Find gives no row where none meets the condition.
abbrev pub FindsNone : {Row : Type 0} → Gorm Row → Type 0
FindsNone {Row} g = (p : Row → Bool) (t : List Row) → All (λ r. p r ≡ false) t → g.find p t ≡ []

pub record FindsOnly (env : Env) : Type 0 where
  pub users : FindsNone env.users
  pub games : FindsNone env.games
  pub guesses : FindsNone env.guesses
  pub histories : FindsNone env.histories
  pub rankings : FindsNone env.rankings
  pub activity_logs : FindsNone env.activity_logs
  pub login_logs : FindsNone env.login_logs

-- No row of the seven tables was updated after the time.
pub record IsOld (at : Time) (db : Tables) : Type 0 where
  pub users : All (λ (u : User). u.updated_at ≤ at) db.users
  pub games : All (λ (g : Game). g.updated_at ≤ at) db.games
  pub guesses : All (λ (g : Guess). g.updated_at ≤ at) db.guesses
  pub histories : All (λ (h : MatchHistory). h.updated_at ≤ at) db.histories
  pub rankings : All (λ (r : Ranking). r.updated_at ≤ at) db.rankings
  pub activity_logs : All (λ (l : ActivityLog). l.updated_at ≤ at) db.activity_logs
  pub login_logs : All (λ (l : LoginLog). l.updated_at ≤ at) db.login_logs

old-not_since :
    {Row : Type 0} (f : Row → Time) (at : Time) (t : List Row)
    → All (λ r. f r ≤ at) t
    → All (λ r. updated_since (some at) (f r) ≡ false) t
old-not_since f at [] h = tt
old-not_since f at (r ∷ rs) (h, hs) = (ground arith, old-not_since f at rs hs)

-- Going on after a part that ended well.
pub then_do :
    {A B : Type 0} (m : S A) (f : A → S B) (s : Copying) {a : A} {v : Copying}
    → m s ≡ (ok a, v)
    → (m >>= f) s ≡ f a v
then_do {B} m f s h =
    ap (λ p. elim p.0 as (λ r. Result B × Copying) [ ok a ↦ f a p.1 | err e ↦ (err e, p.1) ]) h

-- Stopping after a part that failed.
pub then_stop :
    {A B : Type 0} (m : S A) (f : A → S B) (s : Copying) {e : Err} {v : Copying}
    → m s ≡ (err e, v)
    → (m >>= f) s ≡ (err e, v)
then_stop {B} m f s h =
    ap (λ p. elim p.0 as (λ r. Result B × Copying) [ ok a ↦ f a p.1 | err e ↦ (err e, p.1) ]) h

read_status-Reads : (v : Option Value) → Reads (read_status v)
read_status-Reads none w = refl
read_status-Reads (some (backup_value status at)) w = refl
read_status-Reads (some mark) w = refl
read_status-Reads (some (connection c)) w = refl
read_status-Reads (some (turn_value t)) w = refl
read_status-Reads (some (unix_seconds n)) w = refl

module _ (env : Env) where
  get_backup_status-Reads : Reads (get_backup_status env)
  get_backup_status-Reads =
      bind-Reads (redis_get env backup_status) read_status
        (redis_call-Reads env (λ n r. (env.server.get n backup_status r, r))) read_status-Reads

  set_backup_status-Reads : (status : Text) (at : Time) → Reads (set_backup_status env status at)
  set_backup_status-Reads status at = redis_call-Reads env (λ n r. (
    tt,
    env.server.set n backup_status
        (backup_value status (if at == 0 then none else some (at / second))) 0 r,
  ))

  last_synced-at :
      (db : Upserts) (status : Text) (at : ℕ) (s : Copying)
      → env.fails s.main.calls ≡ false
      → env.server.get s.main.calls backup_status s.main.redis
        ≡ some (backup_value status (some at))
      → last_synced env db true s ≡ (ok (some (at * second)), record s { main = tick s.main })
  last_synced-at db status at s up kept =
      let got : redis_get env backup_status s.main
          ≡ (ok (some (backup_value status (some at))), tick s.main) =
        rw (up, kept) refl in
      let asked = bind-ok (redis_get env backup_status) read_status s.main got in
      then_do (on_main (get_backup_status env)) (λ st. pure st.last_synced_at) s
        (ap (λ p. (p.0, record s { main = p.1 })) asked)

  down-skips :
      (db : Upserts) (retries : ℕ) (s : Copying)
      → env.fails s.main.calls ≡ true
      → (run_sync env (some db) true retries s).1.copy ≡ s.copy
  unfolding run_sync run_sync_with
  down-skips db retries s down =
      let got : redis_get env backup_status s.main ≡ (err (external s.main.calls), tick s.main) =
        rw down refl in
      let asked : get_backup_status env s.main ≡ (err (external s.main.calls), tick s.main) =
        ap
          (λ p. elim p.0 as (λ r. Result BackupStatus × World) [
            | ok a ↦ read_status a p.1
            | err e ↦ (err e, p.1)
          ])
          got in
      let synced : last_synced env db true s
          ≡ (err (external s.main.calls), record s { main = tick s.main }) =
        then_stop (on_main (get_backup_status env)) (λ st. pure st.last_synced_at) s
          (ap (λ p. (p.0, record s { main = p.1 })) asked) in
      ap (λ p. p.1.copy)
        (then_stop (last_synced env db true)
          (λ since. attempts env db true since (retries_of env db retries) (external 0)) s synced)

  -- A part of a copy that leaves the second database and the tables alone.
  abbrev Leaves : {A : Type 0} → Tables → S A → Type 0
  Leaves db m = (s : Copying) → s.main.db ≡ db → ((m s).1.copy ≡ s.copy) × ((m s).1.main.db ≡ db)

  sync_rows-Leaves :
      {Row : Type 0} (f : Row → Time) (find : (Row → Bool) → Tables → List Row)
      (write : List Row → Tables → Option Tables) (since : Option Time) (db : Tables)
      → find (λ r. updated_since since (f r)) db ≡ []
      → Leaves db (sync_rows env f find write since)
  unfolding sync_rows
  sync_rows-Leaves f find write since db none_found s same =
      let here : find (λ r. updated_since since (f r)) s.main.db ≡ [] = rw same none_found in
      ground (arith, here)

  from-Leaves :
      {A B : Type 0} (db t : Tables) (p : Result A × Copying) (f : A → S B)
      → (p.1.copy ≡ t) × (p.1.main.db ≡ db)
      → ((a : A) → Leaves db (f a))
      → ((elim p.0 as (λ r. Result B × Copying) [ ok a ↦ f a p.1 | err e ↦ (err e, p.1) ]).1.copy
          ≡ t)
        × ((elim p.0 as (λ r. Result B × Copying) [
          | ok a ↦ f a p.1
          | err e ↦ (err e, p.1)
        ]).1.main.db
            ≡ db)
  from-Leaves db t (ok a, v) f (c, d) h = let (c', d') = h a v d in (c' ∙ c, d')
  from-Leaves db t (err e, v) f (c, d) h = (c, d)

  bind-Leaves :
      {A B : Type 0} (db : Tables) (m : S A) (f : A → S B)
      → Leaves db m
      → ((a : A) → Leaves db (f a))
      → Leaves db (m >>= f)
  bind-Leaves db m f hm hf s same = from-Leaves db s.copy (m s) f (hm s same) hf

  run_tasks-Leaves :
      (db : Tables) (since : Option Time) (tasks : List (SyncTask env)) (result : ℕ × Time)
      → All (λ task. Leaves db (task since)) tasks
      → Leaves db (run_tasks env tasks since result)
  unfolding run_tasks
  run_tasks-Leaves db since [] result h = λ s same. (refl, same)
  run_tasks-Leaves db since (task ∷ tasks) result (h, hs) =
      bind-Leaves db (task since) (λ done. run_tasks env tasks since (add_result env result done)) h
        (λ done. run_tasks-Leaves db since tasks (add_result env result done) hs)

  table-Leaves :
      {Row : Type 0} (g : Gorm Row) (f : Row → Time) (table : Tables → List Row)
      (write : List Row → Tables → Option Tables) (at : Time) (rows : Tables)
      → FindsNone g
      → All (λ r. f r ≤ at) (table rows)
      → Leaves rows (sync_rows env f (λ p t. g.find p (table t)) write (some at))
  table-Leaves g f table write at rows only old =
      sync_rows-Leaves f (λ p t. g.find p (table t)) write (some at) rows
        (only (λ r. updated_since (some at) (f r)) (table rows)
          (old-not_since f at (table rows) old))

  module _ (db : Upserts) (only : FindsOnly env) (at : Time) (rows : Tables)
      (old : IsOld at rows) where
    sync-Leaves : Leaves rows (sync env db (some at))
    unfolding sync sync_tasks
    sync-Leaves =
        run_tasks-Leaves rows (some at) (sync_tasks env db) (0, 0)
          (
            table-Leaves env.users _ (λ t. t.users) (put_users db) at rows only.users old.users,
            (
              table-Leaves env.games _ (λ t. t.games) (put_games db) at rows only.games old.games,
              (
                table-Leaves env.guesses _ (λ t. t.guesses) (put_guesses db) at rows only.guesses
                    old.guesses,
                (
                  table-Leaves env.histories _ (λ t. t.histories) (put_histories db) at rows
                      only.histories old.histories,
                  (
                    table-Leaves env.rankings _ (λ t. t.rankings) (put_rankings db) at rows
                        only.rankings old.rankings,
                    (
                      table-Leaves env.activity_logs _ (λ t. t.activity_logs) (put_activity_logs db)
                          at rows only.activity_logs old.activity_logs,
                      (
                        table-Leaves env.login_logs _ (λ t. t.login_logs) (put_login_logs db) at
                            rows only.login_logs old.login_logs,
                        tt,
                      ),
                    ),
                  ),
                ),
              ),
            ),
          )

    note_ok-Leaves : (store : Bool) → Leaves rows (note_ok env db store)
    note_ok-Leaves store s same = ground arith

    note_error-Leaves : (store : Bool) (e : Err) → Leaves rows (note_error env db store e)
    note_error-Leaves false e s same = (refl, same)
    note_error-Leaves true e s same =
        (refl, set_backup_status-Reads error_text _ _ ∙ get_backup_status-Reads s.main ∙ same)

    from-attempts :
        (store : Bool) (n : ℕ) (t : Tables) (p : Result (ℕ × Time) × Copying)
        → (p.1.copy ≡ t) × (p.1.main.db ≡ rows)
        → ((e : Err) (v : Copying)
            → v.main.db ≡ rows
            → (attempts env db store (some at) n e v).1.copy ≡ v.copy)
        → (elim p.0 as (λ r. Result (Unit {0}) × Copying) [
          | ok done ↦ note_ok env db store p.1
          | err last ↦ attempts env db store (some at) n last p.1
        ]).1.copy
          ≡ t
    from-attempts store n t (ok done, v) (c, d) h = (note_ok-Leaves store v d).0 ∙ c
    from-attempts store n t (err last, v) (c, d) h = h last v d ∙ c

    attempts-Leaves :
        (store : Bool) (n : ℕ) (e : Err) (s : Copying)
        → s.main.db ≡ rows
        → (attempts env db store (some at) n e s).1.copy ≡ s.copy
    unfolding attempts
    attempts-Leaves store zero e s same = (note_error-Leaves store e s same).0
    attempts-Leaves store (suc n) e s same =
        from-attempts store n s.copy (sync env db (some at) s) (sync-Leaves s same)
          (λ last v. attempts-Leaves store n last v)

  module _ (db : Upserts) (only : FindsOnly env) where
    -- Where the status keeps a time, and no row of the seven tables was updated after that time,
    -- to the second, RunSync leaves the second database as it is, whatever rows it lacks; given
    -- that Find gives no row where none meets the condition.
    pub run_sync-skips :
        (retries : ℕ) (status : Text) (at : ℕ) (s : Copying)
        → env.server.get s.main.calls backup_status s.main.redis
          ≡ some (backup_value status (some at))
        → IsOld (at * second) s.main.db
        → (run_sync env (some db) true retries s).1.copy ≡ s.copy
    unfolding run_sync run_sync_with
    run_sync-skips retries status at s kept old = elim (Bool-cases (env.fails s.main.calls)) [
      | inl down ↦ down-skips db retries s down
      | inr up ↦
          let tried =
            then_do (last_synced env db true)
              (λ since. attempts env db true since (retries_of env db retries) (external 0)) s
              (last_synced-at db status at s up kept) in
          ap (λ p. p.1.copy) tried
          ∙ attempts-Leaves db only (at * second) s.main.db old true (retries_of env db retries)
              (external 0) (record s { main = tick s.main }) refl
    ]
