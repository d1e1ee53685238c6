-- ===== src/Worker.antt =====
-- backend/worker: what the workers do at a tick. An error of a use case is only printed.
pub mod Laws
pub mod Setup
use num_duel.Prelude.{ℕ, ◌-◌, Option, none, some, List, [], ◌∷◌, ◌==◌, if◌then◌else◌}
use num_duel.Model.{Uuid, Time, Game, waiting_secret}
use num_duel.World.{M, Env, World, done, ignore, ◌>>=◌, ◌>>◌}
use num_duel.Repository.Games.{list_games_by_status_created_before}
use num_duel.Game.UseCase.{GameUseCase}
use num_duel.RedisStore.Expired.{ExpiredTurnEntry, list_expired_turns}
use num_duel.Game.Timeout.{cancel_by_secret_timeout, handle_timeout}
use num_duel.Session.AutoLogout.{AutoLogoutUseCase, run_auto_logout}

-- The use case is shared with the worker, which may set its clock.
abbrev pub AutoLogoutState : Type 0
AutoLogoutState = AutoLogoutUseCase × World

abbrev pub set_clock : Time → AutoLogoutUseCase → Option Time → AutoLogoutUseCase
set_clock now a none = record a { fixed_now = some now }
set_clock now a (some t) = a

module _ (env : Env) where
  unfoldable pub auto_logout_tick : Time → AutoLogoutState → AutoLogoutState
  auto_logout_tick now (a, w) =
      let a1 = set_clock now a a.fixed_now in (a1, (run_auto_logout env a1 w).1)

  -- The ticks of the loop, one after the other.
  abbrev pub auto_logout_ticks : List Time → AutoLogoutState → AutoLogoutState
  auto_logout_ticks [] s = s
  auto_logout_ticks (t ∷ ts) s = auto_logout_ticks ts (auto_logout_tick t s)

  -- The loop over the games whose setup has run out.
  unfoldable pub cancel_games : GameUseCase → List Game → M (Unit {0})
  cancel_games g [] = done
  cancel_games g (game ∷ games) =
      ignore (cancel_by_secret_timeout env g game.id) >> cancel_games g games

  unfoldable pub secret_setup_tick : GameUseCase → Time → M (Unit {0})
  unfolding cancel_games
  secret_setup_tick g now =
      if g.secret_setup == 0
      then done
      else ignore (
          list_games_by_status_created_before env waiting_secret (now - g.secret_setup)
          >>= cancel_games g)

  -- The loop over the turns that have run out.
  unfoldable pub time_out_turns : GameUseCase → List ExpiredTurnEntry → M (Unit {0})
  time_out_turns g [] = done
  time_out_turns g (e ∷ es) =
      ignore (handle_timeout env g e.game_id e.player_id) >> time_out_turns g es

  unfoldable pub turn_timeout_tick : GameUseCase → Time → M (Unit {0})
  unfolding time_out_turns
  turn_timeout_tick g now = ignore (list_expired_turns env now >>= time_out_turns g)
