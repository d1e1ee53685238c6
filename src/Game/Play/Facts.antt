-- ===== src/Game/Play/Facts.antt =====
-- The transactions of a guess in backend/usecase/game_play.go, on each of their branches.
use num_duel.Prelude.{
  ℕ, suc, ◌+◌, ◌≡◌, inl, inr, Bool, true, false, none, some, arith, List, Option-cases,
}
use num_duel.Model.{
  Uuid, Text, Four, Game, Guess, User, MatchHistory, Result-cases, ok, in_progress, is_participant,
  is_empty, DigitResult, Time,
}
use num_duel.World.{Env, World, tick}
use num_duel.Repository.Games.{game_has_id}
use num_duel.Repository.Users.{user_has_id}
use num_duel.Game.Rules.{add_game_guess, game_opponent_id, finish_game}
use num_duel.Game.Judge.{is_win, hit_count, to_list, digit_results_to_ints}
use num_duel.Crypto.Secret.{verify}
use num_duel.Game.Play.{
  GuessOutcome, guess_tx, opponent_hash, opponent_slot, four_results, increment_user_win_count,
  finish_game_service,
}

-- The history of a game that was won.
abbrev pub history_row : Uuid → Uuid → Uuid → Uuid → Text → Text → Time → MatchHistory
history_row id game_id winner loser winner_name loser_name now = record {
  id = id;
  game_id = game_id;
  winner_id = winner;
  loser_id = loser;
  winner_username = winner_name;
  loser_username = loser_name;
  finished_at = now;
  created_at = now;
  updated_at = now;
}

increment_user_win_count-ok :
    (env : Env) (user : Uuid) (now : Time) (u : User) (v : World) {v' : World}
    → env.users.first (user_has_id user) v.db.users ≡ some u
    → increment_user_win_count env user now v ≡ (ok tt, v')
    → v'.db ≡ record v.db {
      users =
          env.users.save (record u { win_count = u.win_count + 1; updated_at = now }) v.db.users;
    }
unfolding increment_user_win_count
increment_user_win_count-ok env user now u v f h = ground arith

-- finishGameService, where both players are found.
module _ (env : Env) (after over : Game) (user loser_id : Uuid) (now : Time) (winner loser : User)
    (v v' : World) (finishes : finish_game after user now ≡ ok over)
    (opposed : game_opponent_id after user ≡ ok loser_id)
    (won : env.users.first (user_has_id user) v.db.users ≡ some winner)
    (lost : env.users.first (user_has_id loser_id) v.db.users ≡ some loser)
    (h : finish_game_service env after user now v ≡ (ok tt, v')) where
  finish_game_service-ok :
      (hs : List MatchHistory)
      → env.histories.create
          (history_row
            (env.fresh (suc (suc (suc v.calls))))
            over.id
            user
            loser_id
            winner.username
            loser.username
            now)
          v.db.histories
        ≡ some hs
      → v'.db ≡ record v.db {
        games = env.games.save over v.db.games;
        histories = hs;
        users =
            env.users.save
              (record winner { win_count = winner.win_count + 1; updated_at = now })
              v.db.users;
      }
  unfolding finish_game_service
  finish_game_service-ok hs e =
      let stored : World = tick (
        tick (
          tick (
            tick (
              tick (record v {
                db = record v.db { games = env.games.save over v.db.games; histories = hs };
              }))))) in
      ground (arith, increment_user_win_count-ok env user now winner stored {v' = v'})

  finish_game_service-history :
      (hs : List MatchHistory) × (env.histories.create
          (history_row
            (env.fresh (suc (suc (suc v.calls))))
            over.id
            user
            loser_id
            winner.username
            loser.username
            now)
          v.db.histories
        ≡ some hs)
  unfolding finish_game_service
  finish_game_service-history =
      elim (Option-cases (
        env.histories.create
          (history_row (env.fresh (suc (suc (suc v.calls)))) over.id user loser_id winner.username
            loser.username now)
          v.db.histories)) [ inl refused ↦ absurd (ground arith) | inr p ↦ p ]

module _ (env : Env) (user game_id : Uuid) (d : Four ℕ) (auto : Bool) (w w' : World)
    (out : GuessOutcome) (game : Game)
    (found : env.games.first (game_has_id game_id) w.db.games ≡ some game)
    (h : guess_tx env user game_id d auto w ≡ (ok out, w')) where
  -- When the transaction of a guess on a game that is found ends well, the player takes part in
  -- the game, the game is in progress, the turn is the player's, the opponent's secret is there,
  -- and the result carries the turn, the player and the mark of an automatic guess.
  pub guess_tx-turn :
      (is_participant game user ≡ true)
      × (game.status ≡ in_progress)
      × (game.current_turn_player_id ≡ some user)
      × (is_empty (opponent_hash game user) ≡ false)
      × (out.result.turn ≡ game.current_turn)
      × (out.result.player_id ≡ user)
      × (out.result.is_auto ≡ auto)
  unfolding guess_tx add_game_guess is_participant
  guess_tx-turn = ground arith

  -- Its result is that of the comparison with the opponent's stored hash.
  pub guess_tx-verdict :
      (rs : List DigitResult)
      → verify env.hmac env.uuid_text (opponent_hash game user) d game_id (opponent_slot game user)
        ≡ ok rs
      → (out.result.is_win ≡ is_win (four_results rs))
        × (out.finished ≡ is_win (four_results rs))
        × (out.result.hit_count ≡ hit_count (four_results rs))
        × (out.result.digit_results ≡ digit_results_to_ints (to_list (four_results rs)))
  unfolding guess_tx add_game_guess
  guess_tx-verdict rs e = ground arith

  -- The guess was accepted by the rules of the game, and its row by the table.
  pub guess_tx-played :
      (rs : List DigitResult)
      → verify env.hmac env.uuid_text (opponent_hash game user) d game_id (opponent_slot game user)
        ≡ ok rs
      → (row : Guess) × (after : Game) × (rows : List Guess) × (add_game_guess
            (env.fresh (suc (suc w.calls)))
            game
            user
            d
            (four_results rs)
            auto
            (env.now (suc w.calls))
          ≡ ok (row, after))
        × (env.guesses.create row w.db.guesses ≡ some rows)
  unfolding guess_tx
  guess_tx-played rs e =
      elim (Result-cases (
        add_game_guess (env.fresh (suc (suc w.calls))) game user d (four_results rs) auto
          (env.now (suc w.calls)))) [
            | inr (x, refused) ↦ absurd (ground arith)
            | inl ((row, after), played) ↦
                elim (Option-cases (env.guesses.create row w.db.guesses)) [
                  | inl refused ↦ absurd (ground arith)
                  | inr (rows, stored) ↦ (row, after, rows, played, stored)
                ]
          ]

  module _ (rs : List DigitResult)
      (judged : verify env.hmac env.uuid_text
          (opponent_hash game user)
          d
          game_id
          (opponent_slot game user)
        ≡ ok rs)
      (row : Guess) (after : Game) (rows : List Guess)
      (played : add_game_guess
          (env.fresh (suc (suc w.calls)))
          game
          user
          d
          (four_results rs)
          auto
          (env.now (suc w.calls))
        ≡ ok (row, after))
      (stored : env.guesses.create row w.db.guesses ≡ some rows) where
    -- The transaction of a guess that does not win, when it ends well, stores the guess and
    -- passes the turn, and changes no other table, where the hash was checked, and the rules and
    -- the guesses table took the guess.
    pub guess_tx-miss :
        is_win (four_results rs) ≡ false
        → w'.db ≡ record w.db { games = env.games.save after w.db.games; guesses = rows }
    unfolding guess_tx
    guess_tx-miss e = ground arith

    -- The world in which a winning guess ends the game.
    abbrev pub guess_stored : World
    guess_stored = tick (tick (tick (tick (record w { db = record w.db { guesses = rows } }))))

    pub guess_tx-finishes :
        is_win (four_results rs) ≡ true
        → finish_game_service env after user (env.now (suc w.calls)) guess_stored ≡ (ok tt, w')
    unfolding guess_tx
    guess_tx-finishes e = ground arith

    -- The transaction of a guess that wins, when it ends well, ends the game, with a history of
    -- the two players and a win more for the winner, where the hash was checked, the rules and
    -- the guesses table took the guess, and both players are found.
    pub guess_tx-win :
        (over : Game) (winner loser : User) (loser_id : Uuid)
        → is_win (four_results rs) ≡ true
        → finish_game after user (env.now (suc w.calls)) ≡ ok over
        → game_opponent_id after user ≡ ok loser_id
        → env.users.first (user_has_id user) w.db.users ≡ some winner
        → env.users.first (user_has_id loser_id) w.db.users ≡ some loser
        → (id : Uuid) × (hs : List MatchHistory) × (env.histories.create
              (history_row id over.id user loser_id winner.username loser.username
                (env.now (suc w.calls)))
              w.db.histories
            ≡ some hs)
          × (w'.db ≡ record w.db {
            games = env.games.save over w.db.games;
            guesses = rows;
            histories = hs;
            users =
                env.users.save
                  (record winner {
                    win_count = winner.win_count + 1;
                    updated_at = env.now (suc w.calls);
                  })
                  w.db.users;
          })
    guess_tx-win over winner loser loser_id e f o uw ul =
        let service = guess_tx-finishes e in
        let (hs, recorded) =
          finish_game_service-history env after over user loser_id (env.now (suc w.calls)) winner
            loser guess_stored w' f o uw ul service in
        (
          _,
          hs,
          recorded,
          finish_game_service-ok env after over user loser_id (env.now (suc w.calls)) winner loser
              guess_stored w' f o uw ul service hs recorded,
        )

    -- When the transaction of a winning guess ends well and the winner is among the users but the
    -- loser is not, the guess is stored and the game is not finished, though the outcome says
    -- that it is.
    pub guess_tx-missing_loser :
        (winner : User) (loser_id : Uuid)
        → is_win (four_results rs) ≡ true
        → game_opponent_id after user ≡ ok loser_id
        → env.users.first (user_has_id user) w.db.users ≡ some winner
        → env.users.first (user_has_id loser_id) w.db.users ≡ none
        → (w'.db ≡ record w.db { guesses = rows }) × (out.finished ≡ true)
    unfolding guess_tx finish_game_service
    guess_tx-missing_loser winner loser_id e o uw ul = ground arith
