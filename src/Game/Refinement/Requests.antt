-- ===== src/Game/Refinement/Requests.antt =====
-- SubmitGuess of backend/usecase/game_play.go against the duel.
use num_duel.Prelude.{
  ℕ, suc, ◌+◌, ◌≡◌, ◌⊎◌, inl, inr, sym, ap, ◌∙◌, Bool, true, some, arith, Bool-cases, Option-cases,
  if◌then◌else◌,
}
use num_duel.Model.{Uuid, Text, Four, Game, Result-cases, ok}
use num_duel.World.{Env, World, Tables}
use num_duel.Repository.Games.{game_has_id}
use num_duel.Crypto.Secret.{verify}
use num_duel.Game.Judge.{is_win}
use num_duel.Game.UseCase.{GameUseCase}
use num_duel.Game.Rules.Lifecycle.{IsValid}
use num_duel.Game.Play.{
  GuessOutcome, guess_tx, commit_guess, opponent_hash, opponent_slot, four_results,
}
use num_duel.Game.Play.Facts.{
  guess_tx-turn, guess_tx-verdict, guess_tx-played, guess_stored, guess_tx-miss, guess_tx-finishes,
}
use num_duel.Game.Play.Moves.{commit_guess-ok}
use num_duel.Game.Invariant.{AllValid, finish_game_service-Finishes}
use num_duel.Game.Refinement.{Duel, playing, over, side_of, view, won-view, missed-view}

-- What becomes of a duel at a turn.
abbrev pub after_turn : GuessOutcome → Duel
after_turn out =
    if out.result.is_win
    then over (some (side_of out.result.turn))
    else playing (out.result.turn + 1)

-- The row of the game before the guess, and the row that is saved; a winning guess saves none
-- where a player is not among the users.
abbrev pub Follows : Env → Uuid → Uuid → GuessOutcome → Tables → Tables → Type 0
Follows env user game_id out db db' =
    (game : Game) × (env.games.first (game_has_id game_id) db.games ≡ some game)
    × (view game ≡ playing out.result.turn)
    × (game.current_turn_player_id ≡ some user)
    × (((out.result.is_win ≡ true) × (db'.games ≡ db.games))
        ⊎ ((after : Game) × (db'.games ≡ env.games.save after db.games)
            × (view after ≡ after_turn out)))

guess_tx-Follows :
    (env : Env) (user game_id : Uuid) (d : Four ℕ) (auto : Bool) (w w' : World) (out : GuessOutcome)
    (game : Game)
    → IsValid game
    → env.games.first (game_has_id game_id) w.db.games ≡ some game
    → guess_tx env user game_id d auto w ≡ (ok out, w')
    → Follows env user game_id out w.db w'.db
unfolding guess_tx
guess_tx-Follows env user game_id d auto w w' out game v found h =
    let id = env.fresh (suc (suc w.calls)) in
    let now = env.now (suc w.calls) in
    let (_, running, mine, _, turn, _, _) =
      guess_tx-turn env user game_id d auto w w' out game found h in
    let seen : view game ≡ playing out.result.turn = ground arith in
    elim (Result-cases (
      verify env.hmac env.uuid_text (opponent_hash game user) d game_id
        (opponent_slot game user))) [
          | inr (x, e) ↦ absurd (ground arith)
          | inl (rs, e) ↦
              let results = four_results rs in
              let (verdict, _, _, _) =
                guess_tx-verdict env user game_id d auto w w' out game found h rs e in
              let (row, after, rows, played, stored) =
                guess_tx-played env user game_id d auto w w' out game found h rs e in
              (
                game,
                found,
                seen,
                mine,
                elim (Bool-cases (is_win results)) [
                  | inl won ↦
                      elim (finish_game_service-Finishes env after user now
                        (guess_stored env user game_id d auto w w' out game found h rs e row after
                          rows played stored)
                        w'
                        (guess_tx-finishes env user game_id d auto w w' out game found h rs e row
                          after rows played stored won)) [
                            | inl same ↦ inl (verdict ∙ won, same)
                            | inr (end, ends, saved) ↦ inr (
                              end,
                              saved,
                              rw (verdict, won, turn)
                                  (won-view game after id user d results auto now row played end v
                                    ends),
                            )
                          ]
                  | inr lost ↦ inr (
                    after,
                    ap (λ (db : Tables). db.games)
                        (guess_tx-miss env user game_id d auto w w' out game found h rs e row after
                          rows played stored lost),
                    rw (verdict, lost, turn)
                        (missed-view game after id user d results auto now row played),
                  )
                ],
              )
        ]

-- While the rows of the games table are valid, a guess that SubmitGuess accepts is a turn of the
-- duel: the row stood for that turn and gave it to the player, and the row that is saved stands
-- for the next turn, or, where the guess wins, for the end with that turn's side as the winner; a
-- winning guess may leave the games as they were.
pub commit_guess-Follows :
    (env : Env) (g : GameUseCase) (user game_id : Uuid) (text : Text) (auto : Bool) (w w' : World)
    (out : GuessOutcome)
    → AllValid env w.db
    → commit_guess env g user game_id text auto w ≡ (ok out, w')
    → Follows env user game_id out w.db w'.db
unfolding guess_tx
commit_guess-Follows env g user game_id text auto w w' out all h =
    let (d, v, v', _, _, kept, body, end) =
      commit_guess-ok env g user game_id text auto w w' out h in
    elim (Option-cases (env.games.first (game_has_id game_id) v.db.games)) [
      | inl gone ↦ absurd (ground arith)
      | inr (game, found) ↦
          let there : env.games.first (game_has_id game_id) w.db.games ≡ some game =
            rw kept at found in
          let follows =
            guess_tx-Follows env user game_id d auto v v' out game (all game_id game there) found
              body in
          rw (kept, sym end) at follows
    ]
