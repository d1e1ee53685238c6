-- ===== src/Tests/Duels.antt =====
-- Examples: rows and requests of the game as moves of the duel.
use num_duel.Prelude.{false}
use num_duel.Model.{Text, Four}
use num_duel.World.{World}
use num_duel.Game.Validate.Laws.{spell}
use num_duel.Game.Rules.Lifecycle.{here, next}
use num_duel.Game.Refinement.{Moves, view, Reach-Moves}
use num_duel.Game.Refinement.Requests.{Follows, commit_guess-Follows}
use num_duel.Crypto.Secret.{digest}
use num_duel.Tests.Memory.{same_text, no_text, env, playing, waiting, world, use_case}
use num_duel.Tests.Plays.{
  eights, guessed, guessed-ok, outcome, waiting-IsValid, playing-AllValid, cancelled_game,
  cancel_step,
}

Reach-Moves_example : Moves (view waiting) (view cancelled_game)
Reach-Moves_example = Reach-Moves waiting-IsValid (next here cancel_step)

commit_guess-Follows_example : Follows env 1 10 outcome (world playing).db guessed.1.db
commit_guess-Follows_example =
    commit_guess-Follows env use_case 1 10 (spell eights) false (world playing) guessed.1 outcome
      playing-AllValid guessed-ok

-- The four parts of the second player's secret, 5678.
abbrev parts : Four Text
parts = record {
  d0 = digest same_text no_text 10 2 0 5;
  d1 = digest same_text no_text 10 2 1 6;
  d2 = digest same_text no_text 10 2 2 7;
  d3 = digest same_text no_text 10 2 3 8;
}
