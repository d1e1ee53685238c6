-- ===== src/Game/Invariant/Requests.antt =====
-- The requests of backend/usecase/game_play.go, and the timeout of the setup in game_recovery.go, up to
-- their commit.
use num_duel.Prelude.{◌≡◌, Bool, false}
use num_duel.Model.{Uuid, Text, Result, ok, err}
use num_duel.World.{Env, RollsBack, World, Tables}
use num_duel.Game.UseCase.{GameUseCase}
use num_duel.Game.Play.{GuessOutcome, commit_guess, commit_secret}
use num_duel.Game.Play.Moves.{
  commit_guess-ok, commit_secret-ok, commit_guess-Atomic, commit_secret-Atomic,
}
use num_duel.Game.Invariant.{KeyedGames, AllValid, guess_tx-AllValid}
use num_duel.Game.Invariant.Setup.{secret_tx-AllValid}

kept-AllValid : (env : Env) (db db' : Tables) → db' ≡ db → AllValid env db → AllValid env db'
kept-AllValid env db db' same all id g h = all id g (rw same at h)

-- Whatever SubmitGuess answers up to its commit, and for whatever request, valid rows of the
-- games table are followed by valid rows, given that Save and First agree on the primary key and
-- that a transaction which fails is rolled back.
pub commit_guess-AllValid :
    (env : Env) (g : GameUseCase) (user game_id : Uuid) (text : Text) (auto : Bool) (w w' : World)
    (r : Result GuessOutcome)
    → KeyedGames env
    → RollsBack env
    → commit_guess env g user game_id text auto w ≡ (r, w')
    → AllValid env w.db
    → AllValid env w'.db
commit_guess-AllValid env g user game_id text auto w w' (ok out) laws law h all =
    let (d, v, v', _, _, kept, body, end) =
      commit_guess-ok env g user game_id text auto w w' out h in
    kept-AllValid env v'.db w'.db end (
      guess_tx-AllValid env user game_id d auto v v' out laws body
        (kept-AllValid env w.db v.db kept all))
commit_guess-AllValid env g user game_id text auto w w' (err e) laws law h all =
    kept-AllValid env w.db w'.db (commit_guess-Atomic env g user game_id text auto law w w' e h) all

-- Whatever SetSecretNumber answers up to its commit, and for whatever request, valid rows of the
-- games table are followed by valid rows, given that Save and First agree on the primary key and
-- that a transaction which fails is rolled back.
pub commit_secret-AllValid :
    (env : Env) (g : GameUseCase) (user game_id : Uuid) (text : Text) (w w' : World)
    (r : Result Bool)
    → KeyedGames env
    → RollsBack env
    → commit_secret env g user game_id text w ≡ (r, w')
    → AllValid env w.db
    → AllValid env w'.db
commit_secret-AllValid env g user game_id text w w' (ok out) laws law h all =
    let (d, v, v', _, _, kept, body, end) =
      commit_secret-ok env g user game_id text false w w' out h in
    kept-AllValid env v'.db w'.db end (
      secret_tx-AllValid env user game_id d v v' out laws body
        (kept-AllValid env w.db v.db kept all))
commit_secret-AllValid env g user game_id text w w' (err e) laws law h all =
    kept-AllValid env w.db w'.db (commit_secret-Atomic env g user game_id text false law w w' e h)
      all
