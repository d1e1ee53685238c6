-- ===== src/Game/Invariant.antt =====
-- The rows of the games table stay valid under the transactions of backend/usecase/game_play.go and
-- game_recovery.go.
pub mod Setup
pub mod Requests
use num_duel.Prelude.{
  ℕ, suc, ◌+◌, ◌≡◌, ◌∙◌, sym, ap, refl, ◌⊎◌, inl, inr, Bool, true, false, Option, none, some, List,
  arith, Option-cases, Bool-cases, ◌==◌, if◌then◌else◌, not, ==_iff,
}
use mathlib.Core.Option.{some-injective as some_injective}
use num_duel.Model.{
  Uuid, Time, Text, Four, Game, User, Guess, MatchHistory, DigitResult, Result, ok, err, Err,
  Result-cases, both_secrets_set, is_empty, waiting_secret,
}
use num_duel.World.{M, Env, RollsBack, World, Tables, tick, with_tx, with_tx-ok}
use num_duel.Repository.Games.{game_has_id}
use num_duel.Repository.Users.{user_has_id}
use num_duel.Crypto.Secret.{verify, hash}
use num_duel.Game.Judge.{is_win}
use num_duel.Game.Rules.{
  add_game_guess, finish_game, game_opponent_id, set_game_secret_hash, start_game,
  cancel_game_by_secret_timeout,
}
use num_duel.Game.Rules.Lifecycle.{IsValid, Step, Step-IsValid}
use num_duel.Game.Rules.Lifecycle
use num_duel.Game.UseCase.{GameUseCase}
use num_duel.Game.Play.{
  GuessOutcome, guess_tx, commit_guess, secret_tx, commit_secret, finish_with, finish_game_service,
  increment_user_win_count, opponent_hash, opponent_slot, four_results, own_slot,
}
use num_duel.Game.Play.Facts.{
  history_row, guess_tx-played, guess_tx-miss, guess_tx-finishes, guess_stored,
}
use num_duel.Game.Play.Moves.{
  commit_guess-ok, commit_secret-ok, commit_guess-Atomic, commit_secret-Atomic,
}
use num_duel.Game.Timeout.{cancel_tx}
use num_duel.Game.Timeout.Laws.{cancel_tx-cancels, cancel_tx-keeps}

-- GORM's First and Save by the primary key of the games.
pub record KeyedGames (env : Env) : Type 0 where
  pub first-id :
      (id : Uuid) (g : Game) (t : List Game)
      → env.games.first (game_has_id id) t ≡ some g
      → g.id ≡ id
  pub first-save :
      (id : Uuid) (g : Game) (t : List Game)
      → env.games.first (game_has_id id) (env.games.save g t)
        ≡ (if g.id == id then some g else env.games.first (game_has_id id) t)

-- Every row that a query by identity finds is valid.
abbrev pub AllValid : Env → Tables → Type 0
AllValid env db =
    (id : Uuid) (g : Game) → env.games.first (game_has_id id) db.games ≡ some g → IsValid g

pub save-AllValid :
    (env : Env) (after : Game) (db db' : Tables)
    → KeyedGames env
    → db'.games ≡ env.games.save after db.games
    → IsValid after
    → AllValid env db
    → AllValid env db'
save-AllValid env after db db' laws e v all id g h =
    let saved = rw (e, laws.first-save id after db.games) at h in
    elim (Bool-cases (after.id == id)) [
      | inl hit ↦ rw (some_injective after g (rw hit at saved)) at v
      | inr other ↦ all id g (rw other at saved)
    ]

increment-games :
    (env : Env) (user : Uuid) (now : Time) (v v' : World)
    → increment_user_win_count env user now v ≡ (ok tt, v')
    → v'.db.games ≡ v.db.games
unfolding increment_user_win_count
increment-games env user now v v' h = ground arith

-- What finishing does to the games: nothing, or the row of the game that is over.
abbrev pub Finishes : Env → Game → Uuid → Time → World → World → Type 0
Finishes env after user now v v' =
    (v'.db.games ≡ v.db.games)
    ⊎ ((over : Game) × (finish_game after user now ≡ ok over)
        × (v'.db.games ≡ env.games.save over v.db.games))

finish_with-games :
    (env : Env) (after over : Game) (user loser : Uuid) (now : Time) (a b : User) (v v' : World)
    → finish_game after user now ≡ ok over
    → finish_with env after user loser now (some a) (some b) v ≡ (ok tt, v')
    → v'.db.games ≡ env.games.save over v.db.games
finish_with-games env after over user loser now a b v v' e h =
    let row : MatchHistory =
      history_row (env.fresh (suc v.calls)) over.id user loser a.username b.username now in
    elim (Option-cases (env.histories.create row v.db.histories)) [
      | inl refused ↦ absurd (ground arith)
      | inr (hs, recorded) ↦
          let stored : World = tick (
            tick (
              tick (record v {
                db = record v.db { games = env.games.save over v.db.games; histories = hs };
              }))) in
          ground (arith, increment-games env user now stored v')
    ]

finish_with-Finishes :
    (env : Env) (after : Game) (user loser : Uuid) (now : Time) (a b : Option User) (v v' : World)
    → finish_with env after user loser now a b v ≡ (ok tt, v')
    → Finishes env after user now v v'
finish_with-Finishes env after user loser now (some a) (some b) v v' h =
    elim (Result-cases (finish_game after user now)) [
      | inl (over, e) ↦ inr (over, e, finish_with-games env after over user loser now a b v v' e h)
      | inr (x, e) ↦ absurd (ground arith)
    ]
finish_with-Finishes env after user loser now a b v v' h = inl (ground arith)

pub finish_game_service-Finishes :
    (env : Env) (after : Game) (user : Uuid) (now : Time) (v v' : World)
    → finish_game_service env after user now v ≡ (ok tt, v')
    → Finishes env after user now v v'
unfolding finish_game_service
finish_game_service-Finishes env after user now v v' h =
    elim (Option-cases (env.users.first (user_has_id user) v.db.users)) [
      | inl gone ↦ inl (ground arith)
      | inr (a, found) ↦ elim (Result-cases (game_opponent_id after user)) [
        | inr (x, e) ↦ absurd (ground arith)
        | inl (loser, e) ↦
            finish_with-Finishes env after user loser now (some a)
              (env.users.first (user_has_id loser) v.db.users) (tick (tick v)) v' (ground arith)
      ]
    ]

-- What an accepted guess does to the games: it writes a row one step on, or, if a player is not
-- among the users, none.
abbrev Moves : Env → Game → Tables → Tables → Type 0
Moves env game db db' =
    (db'.games ≡ db.games)
    ⊎ ((after : Game) × Step game after × (db'.games ≡ env.games.save after db.games))

guess_tx-Moves :
    (env : Env) (user game_id : Uuid) (d : Four ℕ) (auto : Bool) (w w' : World) (out : GuessOutcome)
    (game : Game)
    → env.games.first (game_has_id game_id) w.db.games ≡ some game
    → guess_tx env user game_id d auto w ≡ (ok out, w')
    → Moves env game w.db w'.db
unfolding guess_tx
guess_tx-Moves env user game_id d auto w w' out game found h =
    let id = env.fresh (suc (suc w.calls)) in
    let now = env.now (suc w.calls) in
    elim (Result-cases (
      verify env.hmac env.uuid_text (opponent_hash game user) d game_id
        (opponent_slot game user))) [
          | inr (x, e) ↦ absurd (ground arith)
          | inl (rs, e) ↦
              let results = four_results rs in
              let (row, after, rows, played, stored) =
                guess_tx-played env user game_id d auto w w' out game found h rs e in
              elim (Bool-cases (is_win results)) [
                | inl won ↦
                    elim (finish_game_service-Finishes env after user now
                      (guess_stored env user game_id d auto w w' out game found h rs e row after
                        rows played stored)
                      w'
                      (guess_tx-finishes env user game_id d auto w w' out game found h rs e row
                        after rows played stored won)) [
                          | inl same ↦ inl same
                          | inr (over, ends, saved) ↦ inr (
                            over,
                            Lifecycle.win game after over id user d results auto now row played
                                ends,
                            saved,
                          )
                        ]
                | inr lost ↦ inr (
                  after,
                  Lifecycle.guess game after id user d results auto now row played,
                  ap (λ (db : Tables). db.games)
                      (guess_tx-miss env user game_id d auto w w' out game found h rs e row after
                        rows played stored lost),
                )
              ]
        ]

guess_tx-AllValid :
    (env : Env) (user game_id : Uuid) (d : Four ℕ) (auto : Bool) (w w' : World) (out : GuessOutcome)
    → KeyedGames env
    → guess_tx env user game_id d auto w ≡ (ok out, w')
    → AllValid env w.db
    → AllValid env w'.db
unfolding guess_tx
guess_tx-AllValid env user game_id d auto w w' out laws h all =
    elim (Option-cases (env.games.first (game_has_id game_id) w.db.games)) [
      | inl gone ↦ absurd (ground arith)
      | inr (game, found) ↦ elim (guess_tx-Moves env user game_id d auto w w' out game found h) [
        | inl same ↦ λ id g e. all id g (rw same at e)
        | inr (after, step, saved) ↦
            save-AllValid env after w.db w'.db laws saved
              (Step-IsValid step (all game_id game found)) all
      ]
    ]
