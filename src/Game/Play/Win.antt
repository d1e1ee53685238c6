-- ===== src/Game/Play/Win.antt =====
-- What a winning guess of SubmitGuess in backend/usecase/game_play.go leaves in the tables.
use num_duel.Prelude.{ℕ, suc, ◌+◌, ◌≡◌, ◌≢◌, sym, ◌∙◌, ◌⊎◌, inl, inr, Bool, true, some, List, arith}
use num_duel.Model.{
  Uuid, Time, Text, Four, Game, Guess, User, MatchHistory, DigitResult, Result-cases, ok, finished,
}
use num_duel.World.{Env, World, Tables}
use num_duel.Repository.Games.{game_has_id}
use num_duel.Repository.Users.{user_has_id}
use num_duel.Crypto.Secret.{verify}
use num_duel.Game.Rules.{add_game_guess, game_opponent_id, finish_game}
use num_duel.Game.UseCase.{GameUseCase}
use num_duel.Game.Play.{
  GuessOutcome, guess_tx, commit_guess, opponent_hash, opponent_slot, four_results,
}
use num_duel.Game.Play.Facts.{guess_tx-verdict, guess_tx-played, guess_tx-win}
use num_duel.Game.Play.Moves.{commit_guess-ok}

-- The two sides of a game.
abbrev pub Opposes : Game → Uuid → Uuid → Type 0
Opposes game user other =
    ((user ≡ game.player1_id) × (other ≡ game.player2_id))
    ⊎ ((user ≢ game.player1_id) × (user ≡ game.player2_id) × (other ≡ game.player1_id))

-- The game, over and won.
abbrev pub won_game : Game → Uuid → Uuid → Time → Game
won_game game winner loser now = record game {
  status = finished;
  current_turn = game.current_turn + 1;
  current_turn_player_id = some loser;
  winner_id = some winner;
  finished_at = some now;
  updated_at = now;
}

-- The tables after the win, with the guess of the turn, the history of the match and one win more.
abbrev pub Wins : Env → Game → Uuid → Uuid → User → User → Tables → Tables → Type 0
Wins env game user other winner loser db db' =
    (now : Time) × (row : Guess) × (rows : List Guess) × (id : Uuid) × (hs : List MatchHistory)
    × (row.game_id ≡ game.id)
    × (row.player_id ≡ user)
    × (row.turn ≡ game.current_turn)
    × (env.guesses.create row db.guesses ≡ some rows)
    × (env.histories.create
          (record {
            id = id;
            game_id = game.id;
            winner_id = user;
            loser_id = other;
            winner_username = winner.username;
            loser_username = loser.username;
            finished_at = now;
            created_at = now;
            updated_at = now;
          })
          db.histories
        ≡ some hs)
    × (db' ≡ record db {
      games = env.games.save (won_game game user other now) db.games;
      guesses = rows;
      histories = hs;
      users =
          env.users.save (record winner { win_count = winner.win_count + 1; updated_at = now })
            db.users;
    })

won_row :
    (id : Uuid) (game : Game) (user other : Uuid) (d : Four ℕ) (r : Four DigitResult) (auto : Bool)
    (now : Time) (row : Guess) (after : Game)
    → Opposes game user other
    → add_game_guess id game user d r auto now ≡ ok (row, after)
    → (finish_game after user now ≡ ok (won_game game user other now))
      × (game_opponent_id after user ≡ ok other)
      × (row.game_id ≡ game.id)
      × (row.player_id ≡ user)
      × (row.turn ≡ game.current_turn)
unfolding add_game_guess finish_game game_opponent_id
won_row id game user other d r auto now row after (inl sides) h = ground arith
won_row id game user other d r auto now row after (inr sides) h = ground arith

guess_tx-Wins :
    (env : Env) (user game_id other : Uuid) (d : Four ℕ) (auto : Bool) (w w' : World)
    (out : GuessOutcome) (game : Game) (winner loser : User)
    → env.games.first (game_has_id game_id) w.db.games ≡ some game
    → guess_tx env user game_id d auto w ≡ (ok out, w')
    → out.result.is_win ≡ true
    → Opposes game user other
    → env.users.first (user_has_id user) w.db.users ≡ some winner
    → env.users.first (user_has_id other) w.db.users ≡ some loser
    → Wins env game user other winner loser w.db w'.db
unfolding guess_tx
guess_tx-Wins env user game_id other d auto w w' out game winner loser found h won sides mine
      theirs =
    let now = env.now (suc w.calls) in
    elim (Result-cases (
      verify env.hmac env.uuid_text (opponent_hash game user) d game_id
        (opponent_slot game user))) [
          | inr (e, refused) ↦ absurd (ground arith)
          | inl (rs, judged) ↦
              let (row, after, rows, played, stored) =
                guess_tx-played env user game_id d auto w w' out game found h rs judged in
              let (verdict, _, _, _) =
                guess_tx-verdict env user game_id d auto w w' out game found h rs judged in
              let (ends, opposed, of_game, of_user, of_turn) =
                won_row _ game user other d (four_results rs) auto now row after sides played in
              let (id, hs, recorded, db) =
                guess_tx-win env user game_id d auto w w' out game found h rs judged row after rows
                  played stored (won_game game user other now) winner loser other
                  (sym verdict ∙ won) ends opposed mine theirs in
              (now, row, rows, id, hs, of_game, of_user, of_turn, stored, recorded, db)
        ]

-- When SubmitGuess accepts a guess that wins, in a game that is found, where the player and the
-- opponent are among the users, then up to its commit the game is finished with the player as its
-- winner, the guess of its turn is stored, the history of the match has the two players, the
-- winner has one win more, and no other table changes.
pub commit_guess-Wins :
    (env : Env) (g : GameUseCase) (user game_id other : Uuid) (text : Text) (auto : Bool)
    (w w' : World) (out : GuessOutcome) (game : Game) (winner loser : User)
    → env.games.first (game_has_id game_id) w.db.games ≡ some game
    → commit_guess env g user game_id text auto w ≡ (ok out, w')
    → out.result.is_win ≡ true
    → Opposes game user other
    → env.users.first (user_has_id user) w.db.users ≡ some winner
    → env.users.first (user_has_id other) w.db.users ≡ some loser
    → Wins env game user other winner loser w.db w'.db
commit_guess-Wins env g user game_id other text auto w w' out game winner loser found h won sides
      mine theirs =
    let (d, v, v', _, _, kept, body, end) =
      commit_guess-ok env g user game_id text auto w w' out h in
    let wins =
      guess_tx-Wins env user game_id other d auto v v' out game winner loser (rw kept found) body
        won sides (rw kept mine) (rw kept theirs) in
    rw (end, ← kept) wins
