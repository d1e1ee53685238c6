-- ===== src/Backup/Copies.antt =====
-- backend/repository/backup.go: what a copy that succeeds has written.
use mathlib.Core.Option
use mathlib.Core.Path.{subst}
use num_duel.Prelude.{
  ℕ, ◌≡◌, refl, sym, ap, ◌∙◌, inl, inr, Bool, Option, some, List, [], ◌∷◌, arith, Bool-cases,
  Option-cases,
}
use num_duel.Model.{Time, User, Game, Guess, MatchHistory, Ranking, Result, ok, err, external}
use num_duel.World.{Env, Tables, ActivityLog, LoginLog, tick, query}
use num_duel.Backup.{
  Copying, S, ◌>>=◌, on_main, Upserts, updated_since, write_rows, sync_rows, SyncTask, add_result,
  run_tasks, sync_tasks, sync,
}
use num_duel.Backup.Laws.{then_do, then_stop}

-- The rows that were found are written over those that were there; nothing is, where none is found.
abbrev pub Copied :
    {Row : Type 0}
    → (List Row → List Row → Option (List Row))
    → List Row
    → List Row
    → List Row
    → Type 0
Copied upsert [] before after = after ≡ before
Copied upsert (r ∷ rs) before after = upsert (r ∷ rs) before ≡ some after

-- The second database after a copy of what was updated after `since`.
pub record Copies (env : Env) (db : Upserts) (since : Option Time) (rows copy copy' : Tables)
    : Type 0 where
  pub users :
      Copied db.users
        (env.users.find (λ u. updated_since since u.updated_at) rows.users)
        copy.users
        copy'.users
  pub games :
      Copied db.games
        (env.games.find (λ g. updated_since since g.updated_at) rows.games)
        copy.games
        copy'.games
  pub guesses :
      Copied db.guesses
        (env.guesses.find (λ g. updated_since since g.updated_at) rows.guesses)
        copy.guesses
        copy'.guesses
  pub histories :
      Copied db.histories
        (env.histories.find (λ h. updated_since since h.updated_at) rows.histories)
        copy.histories
        copy'.histories
  pub rankings :
      Copied db.rankings
        (env.rankings.find (λ r. updated_since since r.updated_at) rows.rankings)
        copy.rankings
        copy'.rankings
  pub activity_logs :
      Copied db.activity_logs
        (env.activity_logs.find (λ l. updated_since since l.updated_at) rows.activity_logs)
        copy.activity_logs
        copy'.activity_logs
  pub login_logs :
      Copied db.login_logs
        (env.login_logs.find (λ l. updated_since since l.updated_at) rows.login_logs)
        copy.login_logs
        copy'.login_logs
  pub queue : copy'.queue ≡ copy.queue
  pub tokens : copy'.tokens ≡ copy.tokens
  pub ws_logs : copy'.ws_logs ≡ copy.ws_logs

bind-cases :
    {A B : Type 0} (p : Result A × Copying) (f : A → S B) {b : B} {s' : Copying}
    → elim p.0 as (λ r. Result B × Copying) [ ok a ↦ f a p.1 | err e ↦ (err e, p.1) ] ≡ (ok b, s')
    → (a : A) × (v : Copying) × (p ≡ (ok a, v)) × (f a v ≡ (ok b, s'))
bind-cases (ok a, v) f h = (a, v, refl, h)
bind-cases (err e, v) f h = cc

bind-eq-ok :
    {A B : Type 0} (m : S A) (f : A → S B) (s : Copying) {b : B} {s' : Copying}
    → (m >>= f) s ≡ (ok b, s')
    → (a : A) × (v : Copying) × (m s ≡ (ok a, v)) × (f a v ≡ (ok b, s'))
bind-eq-ok m f s h = bind-cases (m s) f h

module _ (env : Env) {Row : Type 0} (f : Row → Time) (get : Tables → List Row)
    (put : List Row → Tables → Tables) (upsert : List Row → List Row → Option (List Row))
    (eta : (t : Tables) → put (get t) t ≡ t) where
  abbrev Written : List Row → Copying → Copying → Type 0
  Written rows s s' =
      (x : List Row) × Copied upsert rows (get s.copy) x
      × (s'.copy ≡ put x s.copy)
      × (s'.main.db ≡ s.main.db)

  abbrev put_rows : List Row → Tables → Option Tables
  put_rows rows t = Option.map (λ r. put r t) (upsert rows (get t))

  write_rows-Written :
      (rows : List Row) (s s' : Copying) (d : ℕ × Time)
      → write_rows env f put_rows rows s ≡ (ok d, s')
      → Written rows s s'
  write_rows-Written [] s s' d h =
      let same : s' ≡ s = ground arith in
      (get s.copy, refl, ap (λ t. t.copy) same ∙ sym (eta s.copy), ap (λ t. t.main.db) same)
  write_rows-Written (r ∷ rs) s s' d h = elim (Option-cases (upsert (r ∷ rs) (get s.copy))) [
    | inl refused ↦ absurd (ground arith)
    | inr (x, made) ↦ (x, made, ground arith, ground arith)
  ]

  sync_rows-Written :
      (find : (Row → Bool) → Tables → List Row) (since : Option Time) (s s' : Copying)
      (d : ℕ × Time)
      → sync_rows env f find put_rows since s ≡ (ok d, s')
      → Written (find (λ r. updated_since since (f r)) s.main.db) s s'
  unfolding sync_rows
  sync_rows-Written find since s s' d h =
      let ask : S (List Row) = on_main (query env (find (λ r. updated_since since (f r)))) in
      elim (Bool-cases (env.fails s.main.calls)) [
        | inl down ↦
            let asked : ask s ≡ (err (external s.main.calls), record s { main = tick s.main }) =
              rw down refl in
            absurd (cc (then_stop ask (write_rows env f put_rows) s asked))
        | inr up ↦
            let asked : ask s ≡ (
              ok (find (λ r. updated_since since (f r)) s.main.db),
              record s { main = tick s.main },
            ) =
              rw up refl in
            write_rows-Written (find (λ r. updated_since since (f r)) s.main.db)
              (record s { main = tick s.main }) s' d
              (sym (then_do ask (write_rows env f put_rows) s asked) ∙ h)
      ]

  -- The first of the tasks that are left.
  run_tasks-Written :
      (find : (Row → Bool) → Tables → List Row) (tasks : List (SyncTask env)) (since : Option Time)
      (result out : ℕ × Time) (s s' : Copying) (rows : Tables) (old : List Row)
      → s.main.db ≡ rows
      → get s.copy ≡ old
      → run_tasks env (sync_rows env f find put_rows ∷ tasks) since result s ≡ (ok out, s')
      → (v : Copying) × (next : ℕ × Time) × ((x : List Row) × Copied upsert
            (find (λ r. updated_since since (f r)) rows)
            old
            x
          × (v.copy ≡ put x s.copy)
          × (v.main.db ≡ rows))
        × (run_tasks env tasks since next v ≡ (ok out, s'))
  unfolding run_tasks
  run_tasks-Written find tasks since result out s s' rows old same before h =
      let (d, v, first, rest) =
        bind-eq-ok (sync_rows env f find put_rows since)
          (λ done. run_tasks env tasks since (add_result env result done)) s h in
      let (x, wrote, put_x, kept) = sync_rows-Written find since s v d first in
      let found =
        subst (λ t. Copied upsert (find (λ r. updated_since since (f r)) t) (get s.copy) x) same
          wrote in
      (
        v,
        add_result env result d,
        (
          x,
          subst (λ t. Copied upsert (find (λ r. updated_since since (f r)) rows) t x) before found,
          put_x,
          kept ∙ same,
        ),
        rest,
      )

run_tasks-nil :
    (env : Env) (since : Option Time) (result out : ℕ × Time) (s s' : Copying)
    → run_tasks env [] since result s ≡ (ok out, s')
    → s' ≡ s
unfolding run_tasks
run_tasks-nil env since result out s s' h = ground arith

-- One of the tables that are copied.
record Table : Type 1 where
  Row : Type 0
  updated_at : Row → Time
  get : Tables → List Row
  put : List Row → Tables → Tables
  upsert : List Row → List Row → Option (List Row)
  find : (Row → Bool) → Tables → List Row
  eta : (t : Tables) → put (get t) t ≡ t

task_of : (env : Env) → Table → SyncTask env
task_of env d =
    sync_rows env d.updated_at d.find (put_rows env d.updated_at d.get d.put d.upsert d.eta)

abbrev sync_tasks_of : (env : Env) → List Table → List (SyncTask env)
sync_tasks_of env [] = []
sync_tasks_of env (d ∷ ds) = task_of env d ∷ sync_tasks_of env ds

-- The tables are written one after the other.
abbrev Chain : List Table → Option Time → Tables → Tables → Tables → Type 0
Chain [] since rows t t' = t' ≡ t
Chain (d ∷ ds) since rows t t' =
    (x : List d.Row) × Copied d.upsert (d.find (λ r. updated_since since (d.updated_at r)) rows)
      (d.get t) x
    × Chain ds since rows (d.put x t) t'

run_tasks-Chain :
    (env : Env) (ds : List Table) (since : Option Time) (result out : ℕ × Time) (s s' : Copying)
    (rows : Tables)
    → s.main.db ≡ rows
    → run_tasks env (sync_tasks_of env ds) since result s ≡ (ok out, s')
    → (s'.main.db ≡ rows) × Chain ds since rows s.copy s'.copy
unfolding task_of
run_tasks-Chain env [] since result out s s' rows same h =
    let last = run_tasks-nil env since result out s s' h in
    (ap (λ v. v.main.db) last ∙ same, ap (λ v. v.copy) last)
run_tasks-Chain env (d ∷ ds) since result out s s' rows same h =
    let (v, next, (x, w, c, kept), rest) =
      run_tasks-Written env d.updated_at d.get d.put d.upsert d.eta d.find (sync_tasks_of env ds)
        since result out s s' rows (d.get s.copy) same refl h in
    let (db, chain) = run_tasks-Chain env ds since next out v s' rows kept rest in
    (db, (x, w, subst (λ t. Chain ds since rows t s'.copy) c chain))

module _ (env : Env) (db : Upserts) where
  abbrev copied_tables : List Table
  copied_tables =
      record {
        Row = User;
        updated_at = λ x. x.updated_at;
        get = λ t. t.users;
        put = λ r t. record t { users = r };
        upsert = db.users;
        find = λ p t. env.users.find p t.users;
        eta = λ t. refl;
      }
      ∷ record {
        Row = Game;
        updated_at = λ x. x.updated_at;
        get = λ t. t.games;
        put = λ r t. record t { games = r };
        upsert = db.games;
        find = λ p t. env.games.find p t.games;
        eta = λ t. refl;
      }
      ∷ record {
        Row = Guess;
        updated_at = λ x. x.updated_at;
        get = λ t. t.guesses;
        put = λ r t. record t { guesses = r };
        upsert = db.guesses;
        find = λ p t. env.guesses.find p t.guesses;
        eta = λ t. refl;
      }
      ∷ record {
        Row = MatchHistory;
        updated_at = λ x. x.updated_at;
        get = λ t. t.histories;
        put = λ r t. record t { histories = r };
        upsert = db.histories;
        find = λ p t. env.histories.find p t.histories;
        eta = λ t. refl;
      }
      ∷ record {
        Row = Ranking;
        updated_at = λ x. x.updated_at;
        get = λ t. t.rankings;
        put = λ r t. record t { rankings = r };
        upsert = db.rankings;
        find = λ p t. env.rankings.find p t.rankings;
        eta = λ t. refl;
      }
      ∷ record {
        Row = ActivityLog;
        updated_at = λ x. x.updated_at;
        get = λ t. t.activity_logs;
        put = λ r t. record t { activity_logs = r };
        upsert = db.activity_logs;
        find = λ p t. env.activity_logs.find p t.activity_logs;
        eta = λ t. refl;
      }
      ∷ record {
        Row = LoginLog;
        updated_at = λ x. x.updated_at;
        get = λ t. t.login_logs;
        put = λ r t. record t { login_logs = r };
        upsert = db.login_logs;
        find = λ p t. env.login_logs.find p t.login_logs;
        eta = λ t. refl;
      }
      ∷ []

  Copies-at :
      (since : Option Time) (rows copy t : Tables) (x1 : List User) (x2 : List Game)
      (x3 : List Guess) (x4 : List MatchHistory) (x5 : List Ranking) (x6 : List ActivityLog)
      (x7 : List LoginLog)
      → t ≡ record copy {
        users = x1;
        games = x2;
        guesses = x3;
        histories = x4;
        rankings = x5;
        activity_logs = x6;
        login_logs = x7;
      }
      → Copied db.users
          (env.users.find (λ u. updated_since since u.updated_at) rows.users)
          copy.users
          x1
      → Copied db.games
          (env.games.find (λ g. updated_since since g.updated_at) rows.games)
          copy.games
          x2
      → Copied db.guesses
          (env.guesses.find (λ g. updated_since since g.updated_at) rows.guesses)
          copy.guesses
          x3
      → Copied db.histories
          (env.histories.find (λ h. updated_since since h.updated_at) rows.histories)
          copy.histories
          x4
      → Copied db.rankings
          (env.rankings.find (λ r. updated_since since r.updated_at) rows.rankings)
          copy.rankings
          x5
      → Copied db.activity_logs
          (env.activity_logs.find (λ l. updated_since since l.updated_at) rows.activity_logs)
          copy.activity_logs
          x6
      → Copied db.login_logs
          (env.login_logs.find (λ l. updated_since since l.updated_at) rows.login_logs)
          copy.login_logs
          x7
      → Copies env db since rows copy t
  Copies-at since rows copy t x1 x2 x3 x4 x5 x6 x7 e w1 w2 w3 w4 w5 w6 w7 = rw e (record {
    users = w1;
    games = w2;
    guesses = w3;
    histories = w4;
    rankings = w5;
    activity_logs = w6;
    login_logs = w7;
    queue = refl;
    tokens = refl;
    ws_logs = refl;
  })

  Chain-Copies :
      (since : Option Time) (rows copy t : Tables)
      → Chain copied_tables since rows copy t
      → Copies env db since rows copy t
  Chain-Copies since rows copy t
        (x1, w1, (x2, w2, (x3, w3, (x4, w4, (x5, w5, (x6, w6, (x7, w7, e))))))) =
      Copies-at since rows copy t x1 x2 x3 x4 x5 x6 x7 e w1 w2 w3 w4 w5 w6 w7

  -- When a copy succeeds, the primary database is as it was, each of seven tables of the second
  -- one has been written with the rows that were found in the primary one, updated after the
  -- time, and is as it was where none was found; the other tables of the second one are as they
  -- were.
  pub sync-Copies :
      (since : Option Time) (s s' : Copying) (result : ℕ × Time)
      → sync env db since s ≡ (ok result, s')
      → (s'.main.db ≡ s.main.db) × Copies env db since s.main.db s.copy s'.copy
  unfolding sync sync_tasks task_of
  sync-Copies since s s' result h =
      let (same, chain) =
        run_tasks-Chain env copied_tables since (0, 0) result s s' s.main.db refl h in
      (same, Chain-Copies since s.main.db s.copy s'.copy chain)
