-- ===== src/Backup.antt =====
-- backend/usecase/backup.go and backend/repository/backup.go: the copy of the rows that were updated
-- into a second database, which is a second set of tables beside the world.
pub mod Status
pub mod Laws
pub mod Copies
use mathlib.Core.Option
use num_duel.Prelude.{
  ℕ, zero, suc, ◌+◌, Bool, true, Option, none, some, List, [], ◌∷◌, length, ltb, ◌==◌,
  if◌then◌else◌,
}
use num_duel.Model.{Time, User, Game, Guess, MatchHistory, Ranking, Result, ok, err, Err, external}
use num_duel.World.{M, Env, World, Tables, ActivityLog, LoginLog, tick, get_now, query}
use num_duel.Backup.Status.{BackupStatus, ok_text, error_text, get_backup_status, set_backup_status}

-- The primary database and all the rest, and the tables of the second database.
pub record Copying : Type 0 where
  pub main : World
  pub copy : Tables

abbrev pub S : Type 0 → Type 0
S A = Copying → Result A × Copying

infixl 5 ◌>>=◌
abbrev pub ◌>>=◌ : {A B : Type 0} → S A → (A → S B) → S B
◌>>=◌ m f s = let (r, s') = m s in elim r [ ok a ↦ f a s' | err e ↦ (err e, s') ]

abbrev pub pure : {A : Type 0} → A → S A
pure a s = (ok a, s)

-- A call that leaves the second database alone.
abbrev pub on_main : {A : Type 0} → M A → S A
on_main m s = let (r, w) = m s.main in (r, record s { main = w })

-- `_ = call`
abbrev pub ignored : {A : Type 0} → S A → S (Unit {0})
ignored m s = (ok tt, (m s).1)

-- One statement on the second database.
abbrev pub exec_copy : Env → (Tables → Option Tables) → S (Unit {0})
exec_copy env q s =
    if env.fails s.main.calls
    then (err (external s.main.calls), record s { main = tick s.main })
    else elim (q s.copy) [
      | none ↦ (err (external s.main.calls), record s { main = tick s.main })
      | some t ↦ (ok tt, record { main = tick s.main; copy = t })
    ]

-- Create under OnConflict with UpdateAll, on each table of the second database; none where a
-- constraint refuses.
pub record Upserts : Type 0 where
  pub users : List User → List User → Option (List User)
  pub games : List Game → List Game → Option (List Game)
  pub guesses : List Guess → List Guess → Option (List Guess)
  pub histories : List MatchHistory → List MatchHistory → Option (List MatchHistory)
  pub rankings : List Ranking → List Ranking → Option (List Ranking)
  pub activity_logs : List ActivityLog → List ActivityLog → Option (List ActivityLog)
  pub login_logs : List LoginLog → List LoginLog → Option (List LoginLog)

-- A table of the second database after the rows have been written to it.
module _ (db : Upserts) where
  abbrev pub put_users : List User → Tables → Option Tables
  put_users rows t = Option.map (λ r. record t { users = r }) (db.users rows t.users)

  abbrev pub put_games : List Game → Tables → Option Tables
  put_games rows t = Option.map (λ r. record t { games = r }) (db.games rows t.games)

  abbrev pub put_guesses : List Guess → Tables → Option Tables
  put_guesses rows t = Option.map (λ r. record t { guesses = r }) (db.guesses rows t.guesses)

  abbrev pub put_histories : List MatchHistory → Tables → Option Tables
  put_histories rows t =
      Option.map (λ r. record t { histories = r }) (db.histories rows t.histories)

  abbrev pub put_rankings : List Ranking → Tables → Option Tables
  put_rankings rows t = Option.map (λ r. record t { rankings = r }) (db.rankings rows t.rankings)

  abbrev pub put_activity_logs : List ActivityLog → Tables → Option Tables
  put_activity_logs rows t =
      Option.map (λ r. record t { activity_logs = r }) (db.activity_logs rows t.activity_logs)

  abbrev pub put_login_logs : List LoginLog → Tables → Option Tables
  put_login_logs rows t =
      Option.map (λ r. record t { login_logs = r }) (db.login_logs rows t.login_logs)

-- `updated_at > ?`, where a time is given
abbrev pub updated_since : Option Time → Time → Bool
updated_since none at = true
updated_since (some since) at = ltb since at

-- The latest update.
abbrev pub max_updated : {Row : Type 0} → (Row → Time) → Time → List Row → Time
max_updated f latest [] = latest
max_updated f latest (r ∷ rs) = max_updated f (if ltb latest (f r) then f r else latest) rs

module _ (env : Env) where
  -- What is found, written unless it is nothing, and counted.
  abbrev pub write_rows :
      {Row : Type 0} → (Row → Time) → (List Row → Tables → Option Tables) → List Row → S (ℕ × Time)
  write_rows f write [] = pure (0, 0)
  write_rows f write (r ∷ rs) =
      exec_copy env (write (r ∷ rs)) >>= λ _. pure (length (r ∷ rs), max_updated f 0 (r ∷ rs))

  -- `syncRows`
  unfoldable pub sync_rows :
      {Row : Type 0}
      → (Row → Time)
      → ((Row → Bool) → Tables → List Row)
      → (List Row → Tables → Option Tables)
      → Option Time
      → S (ℕ × Time)
  sync_rows f find write since =
      on_main (query env (find (λ r. updated_since since (f r)))) >>= write_rows f write

  abbrev pub SyncTask : Type 0
  SyncTask = Option Time → S (ℕ × Time)

  -- `SyncResult`: the number of rows and the latest update.
  abbrev pub SyncResult : Type 0
  SyncResult = ℕ × Time

  -- The rows counted, and the later of the two times.
  abbrev pub add_result : SyncResult → SyncResult → SyncResult
  add_result result done = (result.0 + done.0, if ltb result.1 done.1 then done.1 else result.1)

  unfoldable pub run_tasks : List SyncTask → Option Time → SyncResult → S SyncResult
  run_tasks [] since result = pure result
  run_tasks (task ∷ tasks) since result =
      task since >>= λ done. run_tasks tasks since (add_result result done)

  module _ (db : Upserts) where
    unfoldable pub sync_tasks : List SyncTask
    unfolding sync_rows
    sync_tasks =
        sync_rows (λ (u : User). u.updated_at) (λ p t. env.users.find p t.users) (put_users db)
        ∷ sync_rows (λ (g : Game). g.updated_at) (λ p t. env.games.find p t.games) (put_games db)
        ∷ sync_rows (λ (g : Guess). g.updated_at) (λ p t. env.guesses.find p t.guesses)
            (put_guesses db)
        ∷ sync_rows (λ (h : MatchHistory). h.updated_at) (λ p t. env.histories.find p t.histories)
            (put_histories db)
        ∷ sync_rows (λ (r : Ranking). r.updated_at) (λ p t. env.rankings.find p t.rankings)
            (put_rankings db)
        ∷ sync_rows (λ (l : ActivityLog). l.updated_at)
            (λ p t. env.activity_logs.find p t.activity_logs) (put_activity_logs db)
        ∷ sync_rows (λ (l : LoginLog). l.updated_at) (λ p t. env.login_logs.find p t.login_logs)
            (put_login_logs db)
        ∷ []

    -- `Sync`
    unfoldable pub sync : Option Time → S SyncResult
    unfolding sync_tasks
    sync since = run_tasks sync_tasks since (0, 0)

    -- The end of a copy that succeeded, with the status where there is a store for it.
    abbrev pub note_ok : Bool → S (Unit {0})
    note_ok store =
        if store
        then (on_main (get_now env) >>= λ now. on_main (set_backup_status env ok_text now))
        else pure tt

    -- The time that the status keeps after a failure.
    abbrev pub preserved : Result BackupStatus → Time
    preserved (err e) = 0
    preserved (ok st) = elim st.last_synced_at [ none ↦ 0 | some t ↦ t ]

    abbrev pub note_error : Bool → Err → S (Unit {0})
    note_error store e s =
        if store
        then (let (r, w) = get_backup_status env s.main in
            let (_, s') =
              ignored (on_main (set_backup_status env error_text (preserved r)))
                (record s { main = w }) in
            (err e, s'))
        else (err e, s)

    -- The attempts that are left, after the error of the last one.
    unfoldable pub attempts : Bool → Option Time → ℕ → Err → S (Unit {0})
    unfolding sync
    attempts store since zero e = note_error store e
    attempts store since (suc n) e = λ s.
        let (r, s') = sync since s in
        elim r [ ok done ↦ note_ok store s' | err last ↦ attempts store since n last s' ]

    abbrev pub last_synced : Bool → S (Option Time)
    last_synced store =
        if store
        then (on_main (get_backup_status env) >>= λ st. pure st.last_synced_at)
        else pure none

    abbrev pub retries_of : ℕ → ℕ
    retries_of n = if n == 0 then 3 else n

    -- `RunSync` with its store of the status, if there is one, and the number of its retries.
    unfoldable pub run_sync_with : Bool → ℕ → S (Unit {0})
    unfolding attempts run_tasks
    run_sync_with store retries =
        last_synced store >>= λ since. attempts store since (retries_of retries) (external 0)

  -- `RunSync`; without a second database it does nothing.
  unfoldable pub run_sync : Option Upserts → Bool → ℕ → S (Unit {0})
  unfolding run_sync_with
  run_sync none store retries = pure tt
  run_sync (some db) store retries = run_sync_with db store retries
