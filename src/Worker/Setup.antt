-- ===== src/Worker/Setup.antt =====
-- The tick of backend/worker/secret_setup_timeout.go and the rows of the games table.
use num_duel.Prelude.{
  ◌-◌, ◌≡◌, refl, ap, inl, inr, Bool, true, false, Option, none, some, List, [], ◌∷◌, arith,
  Bool-cases, Option-cases, ◌==◌,
}
use mathlib.Core.Option
use num_duel.RedisStore.{delete_turn}
use num_duel.Model.{Uuid, Time, Game, Result, Err, ok, err, other, Result-cases, waiting_secret}
use num_duel.World.{
  M, Env, World, RollsBack, Activity, ActivityLog, Tables, Reads, Payload, exec, send, turn,
  game_over, game_ended, secret_setup_timeout, redis_call-Reads, with_tx, with_tx-ok, with_tx-err,
  ignore, when, tick, ◌>>=◌, ◌>>◌,
}
use num_duel.Repository.Games.{list_games_by_status_created_before}
use num_duel.Repository.Logs.{
  create_activity_log, record_activity_log, record_game_over_activity_log,
}
use num_duel.Game.Rules.{cancel_game_by_secret_timeout}
use num_duel.Game.Rules.Lifecycle.{Step-IsValid, cancel}
use num_duel.Game.UseCase.{GameUseCase, send_to, send_both}
use num_duel.Game.Timeout.{cancel_tx, cancel_by_secret_timeout, announce_cancelled}
use num_duel.Game.Timeout.Laws.{cancel_tx-cancels, cancel_tx-keeps}
use num_duel.Game.Invariant.{KeyedGames, AllValid, save-AllValid}
use num_duel.Worker.{cancel_games, secret_setup_tick}

module _ (env : Env) where
  -- Valid rows are followed by valid rows, whatever the call answers.
  abbrev Keeps : {A : Type 0} → M A → Type 0
  Keeps m = (w : World) → AllValid env w.db → AllValid env (m w).1.db

  from-Keeps :
      {A B : Type 0} (p : Result A × World) (f : A → M B)
      → ((a : A) → Keeps (f a))
      → AllValid env p.1.db
      → AllValid env
          (elim p.0 as (λ r. Result B × World) [ ok a ↦ f a p.1 | err e ↦ (err e, p.1) ]).1.db
  from-Keeps (ok a, v) f h all = h a v all
  from-Keeps (err e, v) f h all = all

  bind-Keeps :
      {A B : Type 0} (m : M A) (f : A → M B) → Keeps m → ((a : A) → Keeps (f a)) → Keeps (m >>= f)
  bind-Keeps m f hm hf w all = from-Keeps (m w) f hf (hm w all)

  games-Keeps : {A : Type 0} (m : M A) → ((w : World) → (m w).1.db.games ≡ w.db.games) → Keeps m
  games-Keeps m same w all id g h = all id g (rw (same w) at h)

  when-Keeps : (test : Bool) (m : M (Unit {0})) → Keeps m → Keeps (when test m)
  when-Keeps true m h w all = h w all
  when-Keeps false m h w all = all

  Reads-Keeps : {A : Type 0} (m : M A) → Reads m → Keeps m
  Reads-Keeps m same = games-Keeps m (λ w. ap (λ (db : Tables). db.games) (same w))

  -- A statement on other tables.
  exec-games :
      (q : Tables → Option Tables)
      → ((db db' : Tables) → q db ≡ some db' → db'.games ≡ db.games)
      → (w : World) → (exec env q w).1.db.games ≡ w.db.games
  exec-games q h w = elim (Bool-cases (env.fails w.calls)) [
    | inl down ↦ rw down refl
    | inr up ↦ elim (Option-cases (q w.db)) [
      | inl refused ↦ rw (up, refused) refl
      | inr (db, made) ↦ rw (up, made) (h w.db db made)
    ]
  ]

  replaced-Keeps :
      {A : Type 0} (p : Result A × World) (e : Err)
      → AllValid env p.1.db
      → AllValid env
          (elim p.0 as (λ r. Result A × World) [ ok a ↦ (ok a, p.1) | err x ↦ (err e, p.1) ]).1.db
  replaced-Keeps (ok a, v) e all = all
  replaced-Keeps (err x, v) e all = all

  create_activity_log-games :
      (l : ActivityLog) (db db' : Tables)
      → Option.map
          (λ t. record db { activity_logs = t })
          (env.activity_logs.create l db.activity_logs)
        ≡ some db'
      → db'.games ≡ db.games
  create_activity_log-games l db db' h =
      elim (Option-cases (env.activity_logs.create l db.activity_logs)) [
        | inl refused ↦ absurd (ground arith)
        | inr (t, made) ↦ ground arith
      ]

  create_activity_log-Keeps : (l : ActivityLog) → Keeps (create_activity_log env l)
  create_activity_log-Keeps l = games-Keeps (create_activity_log env l) (
      exec-games
        (λ db.
          Option.map (λ t. record db { activity_logs = t })
            (env.activity_logs.create l db.activity_logs))
        (create_activity_log-games l))

  record_activity_log-Keeps :
      (user : Option Uuid) (a : Activity) (now : Time) → Keeps (record_activity_log env user a now)
  record_activity_log-Keeps user a now w all =
      let row : ActivityLog = record {
        id = env.fresh w.calls;
        user_id = user;
        activity = a;
        created_at = now;
        updated_at = now;
      } in
      replaced-Keeps (create_activity_log env row (tick w)) (other 1)
        (create_activity_log-Keeps row (tick w) all)

  send_to-Keeps :
      (g : GameUseCase) (user : Uuid) (payload : Payload) → Keeps (send_to env g user payload)
  send_to-Keeps g user payload =
      when-Keeps g.notifier (send (record { to = user; payload = payload })) (λ w all. all)

  announce_cancelled-Keeps :
      (g : GameUseCase) (game_id : Uuid) (now : Time) (o : Option Game)
      → Keeps (announce_cancelled env g game_id now o)
  announce_cancelled-Keeps g game_id now none w all = all
  announce_cancelled-Keeps g game_id now (some game) w all =
      let over : Payload = game_over game_id secret_setup_timeout none in
      let note : M (Unit {0}) =
        record_game_over_activity_log env game_id secret_setup_timeout none now in
      bind-Keeps (when g.turns (ignore (delete_turn env game_id)))
        (λ _. send_both env g game over >> note)
        (when-Keeps g.turns (ignore (delete_turn env game_id)) (
          Reads-Keeps (delete_turn env game_id)
            (redis_call-Reads env (λ n r. (tt, env.server.del n (turn game_id) r)))))
        (λ _.
          bind-Keeps (send_both env g game over) (λ _. note)
            (bind-Keeps (send_to env g game.player1_id over)
              (λ _. send_to env g game.player2_id over) (send_to-Keeps g game.player1_id over)
              (λ _. send_to-Keeps g game.player2_id over))
            (λ _.
              record_activity_log-Keeps none (game_ended game_id secret_setup_timeout none) now))
        w all

  module _ (g : GameUseCase) (laws : KeyedGames env) (law : RollsBack env) where
    cancel_tx-Keeps :
        (game_id : Uuid) (now : Time) (w w' : World) (o : Option Game)
        → cancel_tx env g game_id now w ≡ (ok o, w')
        → AllValid env w.db
        → AllValid env w'.db
    unfolding cancel_game_by_secret_timeout
    cancel_tx-Keeps game_id now w w' none h all =
        λ id row e. all id row (rw (cancel_tx-keeps env g game_id now w w' h) at e)
    cancel_tx-Keeps game_id now w w' (some after) h all =
        let (game, found, waits, late, is_after, saved) =
          cancel_tx-cancels env g game_id now w w' after h in
        save-AllValid env after w.db w'.db laws (ap (λ (db : Tables). db.games) saved)
          (Step-IsValid (cancel game after now (ground arith)) (all game_id game found)) all

    cancelled-Keeps :
        (game_id : Uuid) (now : Time) → Keeps (with_tx env (cancel_tx env g game_id now))
    cancelled-Keeps game_id now w all =
        let body = cancel_tx env g game_id now in
        let v : World = (with_tx env body w).1 in
        elim (Result-cases (with_tx env body w).0) [
          | inl (o, e) ↦
              let (u, did, end) = with_tx-ok env body w (ap (λ r. (r, v)) e) in
              λ id row f.
                cancel_tx-Keeps game_id now w u o did all id row
                  (rw (ap (λ (x : World). x.db) end) at f)
          | inr (x, e) ↦
              let back = with_tx-err env body w law (ap (λ r. (r, v)) e) in
              λ id row f. all id row (rw back at f)
        ]

    cancel_by_secret_timeout-Keeps :
        (game_id : Uuid) → Keeps (cancel_by_secret_timeout env g game_id)
    unfolding cancel_by_secret_timeout
    cancel_by_secret_timeout-Keeps game_id w all =
        let now = env.now w.calls in
        bind-Keeps (with_tx env (cancel_tx env g game_id now))
          (announce_cancelled env g game_id now) (cancelled-Keeps game_id now)
          (announce_cancelled-Keeps g game_id now) (tick w) all

    cancel_games-Keeps : (games : List Game) → Keeps (cancel_games env g games)
    unfolding cancel_games
    cancel_games-Keeps [] w all = all
    cancel_games-Keeps (game ∷ games) w all =
        bind-Keeps (ignore (cancel_by_secret_timeout env g game.id)) (λ _. cancel_games env g games)
          (cancel_by_secret_timeout-Keeps game.id) (λ _. cancel_games-Keeps games) w all

    -- Whatever fails in a tick of the setup's timeout, and whenever it comes, valid rows of the
    -- games table are followed by valid rows, given that Save and First agree on the primary key
    -- and that a transaction which fails is rolled back.
    pub secret_setup_tick-AllValid :
        (now : Time) (w : World)
        → AllValid env w.db
        → AllValid env (secret_setup_tick env g now w).1.db
    unfolding secret_setup_tick
    secret_setup_tick-AllValid now w all = elim (Bool-cases (g.secret_setup == 0)) [
      | inl off ↦ rw off all
      | inr on ↦ rw on (
          bind-Keeps (list_games_by_status_created_before env waiting_secret (now - g.secret_setup))
            (cancel_games env g) (λ v h. h) cancel_games-Keeps w all)
    ]
