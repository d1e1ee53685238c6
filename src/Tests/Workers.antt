-- ===== src/Tests/Workers.antt =====
-- Examples: the automatic logout at three ticks, and a tick of the setup's timeout.
use num_duel.Prelude.{◌≡◌, refl, true, none, some, [], ◌∷◌}
use num_duel.World.{done}
use num_duel.Session.AutoLogout.{AutoLogoutUseCase}
use num_duel.Worker.{auto_logout_ticks}
use num_duel.Worker.Laws.{auto_logout_ticks-pinned}
use num_duel.Worker.{secret_setup_tick}
use num_duel.Worker.Setup.{secret_setup_tick-AllValid}
use num_duel.Game.Invariant.{AllValid}
use num_duel.Tests.Memory.{env, env-RollsBack, env-KeyedGames, playing, waiting, use_case, world}
use num_duel.Tests.Plays.{waiting-AllValid}

abbrev idle_logout : AutoLogoutUseCase
idle_logout = record {
  force_logout = true;
  disconnects = true;
  force_disconnect = λ u. done;
  session_timeout = 5;
  fixed_now = none;
}

auto_logout_ticks-pinned_example :
    ((auto_logout_ticks env (20 ∷ 3000 ∷ 6000 ∷ []) (idle_logout, world playing)).0.fixed_now
      ≡ some 20)
    × (auto_logout_ticks env (20 ∷ 3000 ∷ 6000 ∷ []) (idle_logout, world playing)
        ≡ auto_logout_ticks env (20 ∷ 30 ∷ 40 ∷ []) (idle_logout, world playing))
auto_logout_ticks-pinned_example =
    auto_logout_ticks-pinned env 20 (3000 ∷ 6000 ∷ []) (30 ∷ 40 ∷ []) idle_logout (world playing)
      refl refl

secret_setup_tick-AllValid_example :
    AllValid env (secret_setup_tick env use_case 900 (world waiting)).1.db
secret_setup_tick-AllValid_example =
    secret_setup_tick-AllValid env use_case env-KeyedGames env-RollsBack 900 (world waiting)
      waiting-AllValid
