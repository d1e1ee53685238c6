-- ===== src/Game/Play/Verdict.antt =====
-- The verdict on an accepted guess, against the opponent's secret itself.
use num_duel.Prelude.{ℕ, ◌+◌, ◌≡◌, ◌↔◌, sym, ap, ◌∙◌, Bool, true, some, arith}
use num_duel.Model.{Uuid, Text, Four, Game, ok}
use num_duel.World.{Env, World}
use num_duel.Repository.Games.{game_has_id}
use num_duel.Crypto.Secret.{hash}
use num_duel.Crypto.Secret.Laws.{NoCollision, verify-hash}
use num_duel.Game.Judge.{to_list, judge_digits}
use num_duel.Game.Judge.Laws.{is_win-judge_digits, judge_digits-agreement, agrees, agreement}
use num_duel.Game.Validate.Laws.{IsSecret, spell}
use num_duel.Game.UseCase.{GameUseCase}
use num_duel.Game.Play.{GuessOutcome, commit_guess, opponent_hash, opponent_slot}
use num_duel.Game.Play.Facts.{guess_tx-verdict}
use num_duel.Game.Play.Moves.{commit_guess-ok}

spell_injective : (s d : Four ℕ) → spell s ≡ spell d → s ≡ d
spell_injective s d h = ground arith

-- When the opponent's slot of the game's row holds the hash of a secret of four different digits,
-- and the keyed hash does not confuse the digits of one position of it, a guess that SubmitGuess
-- accepts is judged against that secret: its digit results are 1 at the positions that agree and
-- 0 elsewhere, its hit count is their number, and it wins exactly when its text spells the
-- secret.
pub commit_guess-judges :
    (env : Env) (g : GameUseCase) (user game_id : Uuid) (text : Text) (auto : Bool) (w w' : World)
    (out : GuessOutcome) (game : Game) (s : Four ℕ)
    → env.games.first (game_has_id game_id) w.db.games ≡ some game
    → opponent_hash game user ≡ hash env.hmac env.uuid_text s game_id (opponent_slot game user)
    → IsSecret s
    → NoCollision env.hmac env.uuid_text game_id (opponent_slot game user)
    → commit_guess env g user game_id text auto w ≡ (ok out, w')
    → (d : Four ℕ) × (text ≡ spell d)
      × (out.result.digit_results ≡ agreement s d)
      × (out.result.hit_count
          ≡ agrees s.d0 d.d0 + agrees s.d1 d.d1 + agrees s.d2 d.d2 + agrees s.d3 d.d3)
      × ((out.result.is_win ≡ true) ↔ (text ≡ spell s))
unfolding judge_digits to_list
commit_guess-judges env g user game_id text auto w w' out game s found hashed secret safe h =
    let (d, v, v', spelled, valid, kept, body, _) =
      commit_guess-ok env g user game_id text auto w w' out h in
    let checked = rw (← hashed) at (
      verify-hash env.hmac env.uuid_text game_id (opponent_slot game user) safe s d secret valid) in
    let (won, _, hits, marks) =
      guess_tx-verdict env user game_id d auto v v' out game (rw kept found) body
        (to_list (judge_digits s d)) checked in
    let agree = is_win-judge_digits s d in
    let judged = judge_digits-agreement s d in
    (
      d,
      spelled,
      marks ∙ judged.0,
      hits ∙ judged.1,
      (
        λ e. spelled ∙ ap spell (sym (agree.0 (sym won ∙ e))),
        λ e. won ∙ agree.1 (spell_injective s d (sym e ∙ spelled)),
      ),
    )
