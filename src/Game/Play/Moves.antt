-- ===== src/Game/Play/Moves.antt =====
-- The guarantees of a player's move, from the request to the commit.
use num_duel.Prelude.{ℕ, ◌≡◌, refl, ◌∙◌, Bool, true, not, ◌&&◌, ◌/◌, arith}
use num_duel.Model.{Uuid, Text, Four, ok, err, Err, rate_limit_exceeded}
use num_duel.World.{
  M, Env, RollsBack, World, tick, with_tx, with_tx-ok, >>=-eq-ok, Reads, Atomic, Reads-ok,
  bind-Reads, bind-Atomic, redis_call-Reads, when-Reads, with_tx-Atomic, lift, ◌>>=◌, ◌>>◌,
}
use num_duel.World
use num_duel.Game.Validate.{validate_four_digits}
use num_duel.Game.Validate.Laws.{IsSecret, spell, validate_sound}
use num_duel.RedisStore.{acquire_lock, at_least, second}
use num_duel.Game.UseCase.{GameUseCase, take_lock, lock_action, ensure_game_player}
use num_duel.Game.Play.{
  GuessOutcome, guess_tx, guess_checked, secret_checked, commit_guess, secret_tx, commit_secret,
}

module _ (env : Env) (g : GameUseCase) where
  pub lock_action-Reads : (wanted : Bool) (k : World.Key) → Reads (lock_action env g wanted k)
  lock_action-Reads wanted k = when-Reads (g.locks && wanted) (take_lock env g k) (
      bind-Reads (acquire_lock env k g.game_lock_ttl)
        (λ got. World.fail_if (not got) rate_limit_exceeded)
        (redis_call-Reads env
          (λ n r. env.server.set_nx n k (at_least 1 (g.game_lock_ttl / second)) r))
        (λ got w. refl))

  ensure_game_player-Reads : (u : Uuid) → Reads (ensure_game_player env u)
  unfolding ensure_game_player
  ensure_game_player-Reads u w = ground arith

  module _ (user game_id : Uuid) (text : Text) (auto : Bool) where
    abbrev guess_lock_step : M (Unit {0})
    guess_lock_step = lock_action env g (not auto) (World.guess_lock game_id user)

    abbrev guess_rest : M GuessOutcome
    guess_rest = lift (validate_four_digits text) >>= guess_checked env user game_id auto

    -- A guess that is refused or fails before its commit leaves every table as it was.
    pub commit_guess-Atomic : RollsBack env → Atomic (commit_guess env g user game_id text auto)
    unfolding commit_guess
    commit_guess-Atomic law =
        bind-Atomic guess_lock_step (λ _. guess_rest)
          (lock_action-Reads (not auto) (World.guess_lock game_id user))
          (λ _.
            bind-Atomic (lift (validate_four_digits text)) (guess_checked env user game_id auto)
              (λ w. refl)
              (λ digits.
                bind-Atomic (ensure_game_player env user)
                  (λ _. with_tx env (guess_tx env user game_id digits auto))
                  (ensure_game_player-Reads user)
                  (λ _. with_tx-Atomic env (guess_tx env user game_id digits auto) law)))

    abbrev secret_lock_step : M (Unit {0})
    secret_lock_step = lock_action env g true (World.secret_lock game_id user)

    abbrev secret_rest : M Bool
    secret_rest = lift (validate_four_digits text) >>= secret_checked env user game_id

    -- A secret that is refused or fails before its commit leaves every table as it was.
    pub commit_secret-Atomic : RollsBack env → Atomic (commit_secret env g user game_id text)
    unfolding commit_secret
    commit_secret-Atomic law =
        bind-Atomic secret_lock_step (λ _. secret_rest)
          (lock_action-Reads true (World.secret_lock game_id user))
          (λ _.
            bind-Atomic (lift (validate_four_digits text)) (secret_checked env user game_id)
              (λ w. refl)
              (λ digits.
                bind-Atomic (ensure_game_player env user)
                  (λ _. with_tx env (secret_tx env user game_id digits))
                  (ensure_game_player-Reads user)
                  (λ _. with_tx-Atomic env (secret_tx env user game_id digits) law)))

    -- What an accepted guess went through before its transaction.
    pub commit_guess-ok :
        (w w' : World) (out : GuessOutcome)
        → commit_guess env g user game_id text auto w ≡ (ok out, w')
        → (digits : Four ℕ) × (v v' : World) × (text ≡ spell digits)
          × IsSecret digits
          × (v.db ≡ w.db)
          × (guess_tx env user game_id digits auto v ≡ (ok out, v'))
          × (w'.db ≡ v'.db)
    unfolding commit_guess
    commit_guess-ok w w' out h =
        let (_, w1, locked, h1) = >>=-eq-ok guess_lock_step (λ _. guess_rest) w h in
        let (digits, w2, valid, h2) =
          >>=-eq-ok (lift (validate_four_digits text)) (guess_checked env user game_id auto) w1
            h1 in
        let (_, w3, ensured, h3) =
          >>=-eq-ok (ensure_game_player env user)
            (λ _. with_tx env (guess_tx env user game_id digits auto)) w2 h2 in
        let (v', body, end) = with_tx-ok env (guess_tx env user game_id digits auto) w3 h3 in
        let (spelled, secret) = validate_sound text digits (cc valid) in
        let kept : w3.db ≡ w.db =
          Reads-ok (ensure_game_player env user) w2 (ensure_game_player-Reads user) ensured
          ∙ (cc valid
              ∙ Reads-ok guess_lock_step w
                  (lock_action-Reads (not auto) (World.guess_lock game_id user)) locked) in
        (digits, w3, v', spelled, secret, kept, body, rw end refl)

    -- What an accepted secret went through.
    pub commit_secret-ok :
        (w w' : World) (started : Bool)
        → commit_secret env g user game_id text w ≡ (ok started, w')
        → (digits : Four ℕ) × (v v' : World) × (text ≡ spell digits)
          × IsSecret digits
          × (v.db ≡ w.db)
          × (secret_tx env user game_id digits v ≡ (ok started, v'))
          × (w'.db ≡ v'.db)
    unfolding commit_secret
    commit_secret-ok w w' out h =
        let (_, w1, locked, h1) = >>=-eq-ok secret_lock_step (λ _. secret_rest) w h in
        let (digits, w2, valid, h2) =
          >>=-eq-ok (lift (validate_four_digits text)) (secret_checked env user game_id) w1 h1 in
        let (_, w3, ensured, h3) =
          >>=-eq-ok (ensure_game_player env user)
            (λ _. with_tx env (secret_tx env user game_id digits)) w2 h2 in
        let (v', body, end) = with_tx-ok env (secret_tx env user game_id digits) w3 h3 in
        let (spelled, secret) = validate_sound text digits (cc valid) in
        let kept : w3.db ≡ w.db =
          Reads-ok (ensure_game_player env user) w2 (ensure_game_player-Reads user) ensured
          ∙ (cc valid
              ∙ Reads-ok secret_lock_step w
                  (lock_action-Reads true (World.secret_lock game_id user)) locked) in
        (digits, w3, v', spelled, secret, kept, body, rw end refl)

    -- A guess that is refused or fails before its commit, for whatever reason, leaves every table
    -- as it was, given that a transaction which fails is rolled back.
    pub commit_guess-err :
        (w w' : World) (e : Err)
        → RollsBack env
        → commit_guess env g user game_id text auto w ≡ (err e, w')
        → w'.db ≡ w.db
    commit_guess-err w w' e law h = commit_guess-Atomic law w w' e h

    -- A secret that is refused or fails before its commit, for whatever reason, leaves every
    -- table as it was, given that a transaction which fails is rolled back.
    pub commit_secret-err :
        (w w' : World) (e : Err)
        → RollsBack env
        → commit_secret env g user game_id text w ≡ (err e, w')
        → w'.db ≡ w.db
    commit_secret-err w w' e law h = commit_secret-Atomic law w w' e h
