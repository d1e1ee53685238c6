-- ===== src/Game/Timeout/Laws.antt =====
-- What the timeout workers may and may not do to a game.
use num_duel.Prelude.{◌+◌, ◌<◌, ◌≡◌, inl, inr, none, some, arith, Option-cases}
use num_duel.Model.{Uuid, Time, Game, ok, waiting_secret, finished}
use num_duel.World.{Env, World}
use num_duel.Repository.Games.{game_has_id}
use num_duel.Game.Rules.{cancel_game_by_secret_timeout}
use num_duel.Game.UseCase.{GameUseCase}
use num_duel.Game.Timeout.{cancel_tx}

module _ (env : Env) (g : GameUseCase) (game_id : Uuid) (now : Time) (w w' : World) where
  -- When the transaction of the setup's timeout cancels a game, the game was waiting for secrets
  -- past its deadline; then it is finished with no winner, and no other table changes.
  pub cancel_tx-cancels :
      (after : Game)
      → cancel_tx env g game_id now w ≡ (ok (some after), w')
      → (game : Game) × (env.games.first (game_has_id game_id) w.db.games ≡ some game)
        × (game.status ≡ waiting_secret)
        × (game.created_at + g.secret_setup < now)
        × (after ≡ record game { status = finished; finished_at = some now; updated_at = now })
        × (w'.db ≡ record w.db { games = env.games.save after w.db.games })
  unfolding cancel_tx cancel_game_by_secret_timeout
  cancel_tx-cancels after h =
      elim (Option-cases (env.games.first (game_has_id game_id) w.db.games)) [
        | inl gone ↦ absurd (ground arith)
        | inr (game, found) ↦ (game, found, ground arith, ground arith, ground arith, ground arith)
      ]

  -- When the transaction of the setup's timeout ends well without cancelling a game, it changes
  -- no table.
  pub cancel_tx-keeps : cancel_tx env g game_id now w ≡ (ok none, w') → w'.db ≡ w.db
  unfolding cancel_tx
  cancel_tx-keeps h = ground arith
