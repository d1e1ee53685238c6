-- ===== src/Game/Play/Allowed.antt =====
-- The transaction of a guess that the game allows ends well.
use num_duel.Prelude.{
  ℕ, suc, ◌+◌, [], ◌∷◌, ◌≤◌, ◌⊎◌, ◌∙◌, All, length, ◌≡◌, ◌≢◌, inl, inr, Bool, true, false, some,
  List, arith, Bool-cases, if◌then◌else◌,
}
use num_duel.Model.{
  Uuid, Time, Four, Game, Guess, User, MatchHistory, DigitResult, Result-cases, ok, in_progress,
  is_participant, is_empty,
}
use num_duel.World.{Env, Answers, World, Tables, tick, Succeeds}
use num_duel.Repository.Games.{game_has_id}
use num_duel.Repository.Users.{user_has_id}
use num_duel.Crypto.Secret.{verify, decimal}
use num_duel.Game.Validate.Laws.{IsSecret}
use num_duel.Game.Judge.{is_win, digit_results_to_ints}
use num_duel.Game.Rules.{add_game_guess, game_opponent_id, finish_game, guess_text}
use num_duel.Game.Play.{
  GuessOutcome, guess_tx, opponent_hash, opponent_slot, four_results, increment_user_win_count,
  finish_game_service,
}
use num_duel.Game.Play.Facts.{history_row}

-- A guess of another turn.
abbrev pub OtherTurn : Uuid → Uuid → ℕ → Guess → Type 0
OtherTurn game user turn x = (x.game_id ≢ game) ⊎ (x.player_id ≢ user) ⊎ (x.turn ≢ turn)

-- Tables that take a row whose unique keys no other row has and whose texts fit their columns.
pub record Accepts (env : Env) : Type 0 where
  pub takes_guess :
      (r : Guess) (t : List Guess)
      → All (λ x. (x.id ≢ r.id) × OtherTurn r.game_id r.player_id r.turn x) t
      → length r.guess_number ≤ 4
      → (t' : List Guess) × (env.guesses.create r t ≡ some t')
  pub takes_game :
      (g : Game)
      → length g.player1_secret ≤ 255
      → length g.player2_secret ≤ 255
      → env.game_fits g ≡ true
  pub takes_history :
      (r : MatchHistory) (t : List MatchHistory)
      → All (λ x. (x.id ≢ r.id) × (x.game_id ≢ r.game_id)) t
      → length r.winner_username ≤ 50
      → length r.loser_username ≤ 50
      → (t' : List MatchHistory) × (env.histories.create r t ≡ some t')

-- No guess has the turn of the player and no history the game, and the identities that are drawn
-- from the call k on are new to both tables.
pub record Unplayed (env : Env) (k : ℕ) (game : Game) (user : Uuid) (db : Tables) : Type 0 where
  pub new_guess :
      (n : ℕ)
      → k ≤ n
      → All (λ x. (x.id ≢ env.fresh n) × OtherTurn game.id user game.current_turn x) db.guesses
  pub new_history :
      (n : ℕ) → k ≤ n → All (λ x. (x.id ≢ env.fresh n) × (x.game_id ≢ game.id)) db.histories

-- A player whose turn it is.
abbrev pub HasTurn : Game → Uuid → Type 0
HasTurn game user =
    (is_participant game user ≡ true)
    × (game.status ≡ in_progress)
    × (game.current_turn_player_id ≡ some user)

-- The guess, the game after it, the other player, and the game if it is won.
abbrev Turn : Uuid → Game → Uuid → Four ℕ → Four DigitResult → Bool → Time → Type 0
Turn id game user d r auto now =
    (row : Guess) × (after : Game) × (other : Uuid) × (over : Game) × (add_game_guess id game user d
        r auto now
      ≡ ok (row, after))
    × (game_opponent_id game user ≡ ok other)
    × (game_opponent_id after user ≡ ok other)
    × (finish_game after user now ≡ ok over)

add_game_guess-Turn :
    (id : Uuid) (game : Game) (user : Uuid) (d : Four ℕ) (r : Four DigitResult) (auto : Bool)
    (now : Time)
    → HasTurn game user
    → Turn id game user d r auto now
unfolding add_game_guess finish_game is_participant game_opponent_id
add_game_guess-Turn id game user d r auto now (part, running, mine) =
    elim (Result-cases (add_game_guess id game user d r auto now)) [
      | inr (e, refused) ↦ absurd (ground arith)
      | inl ((row, after), played) ↦ elim (Result-cases (finish_game after user now)) [
        | inr (e, refused) ↦ absurd (ground arith)
        | inl (over, ends) ↦ elim (Result-cases (game_opponent_id game user)) [
          | inr (e, refused) ↦ absurd (ground arith)
          | inl (other, opposed) ↦ (row, after, other, over, played, opposed, (ground arith), ends)
        ]
      ]
    ]

decimal_digit : (n : ℕ) → n ≤ 9 → decimal n ≡ (48 + n) ∷ []
unfolding decimal
decimal_digit n h = ground arith

length-guess_text : (d : Four ℕ) → IsSecret d → length (guess_text d) ≤ 4
unfolding guess_text
length-guess_text d v =
    rw
      (
        decimal_digit d.d0 v.le0,
        decimal_digit d.d1 v.le1,
        decimal_digit d.d2 v.le2,
        decimal_digit d.d3 v.le3,
      )
      (omega arith)

add_game_guess-row :
    (id : Uuid) (game : Game) (user : Uuid) (d : Four ℕ) (r : Four DigitResult) (auto : Bool)
    (now : Time) (row : Guess) (after : Game)
    → add_game_guess id game user d r auto now ≡ ok (row, after)
    → (row.id ≡ id)
      × (row.game_id ≡ game.id)
      × (row.player_id ≡ user)
      × (row.turn ≡ game.current_turn)
      × (row.guess_number ≡ guess_text d)
      × (after.id ≡ game.id)
      × (after.player1_secret ≡ game.player1_secret)
      × (after.player2_secret ≡ game.player2_secret)
unfolding add_game_guess
add_game_guess-row id game user d r auto now row after h = ground arith

finish_game-id :
    (after over : Game) (user : Uuid) (now : Time)
    → finish_game after user now ≡ ok over
    → (over.id ≡ after.id)
      × (over.player1_secret ≡ after.player1_secret)
      × (over.player2_secret ≡ after.player2_secret)
unfolding finish_game
finish_game-id after over user now h = ground arith

abbrev outcome_of : Uuid → Bool → Bool → Guess → Game → GuessOutcome
outcome_of user auto won row after = record {
  result = record {
    guess_id = row.id;
    player_id = user;
    turn = row.turn;
    digit_results = digit_results_to_ints row.digit_results;
    hit_count = row.hit_count;
    is_win = won;
    is_auto = auto;
    next_turn_player_id = after.current_turn_player_id;
  };
  finished = won;
  winner = if won then user else 0;
}

module _ (env : Env) (up : Answers env) (takes : Accepts env) where
  increment-Succeeds :
      (user : Uuid) (now : Time) (u : User) (v : World)
      → env.users.first (user_has_id user) v.db.users ≡ some u
      → Succeeds (increment_user_win_count env user now) v
  unfolding increment_user_win_count
  increment-Succeeds user now u v found =
      let u' : User = record u { win_count = suc u.win_count; updated_at = now } in
      (
        tt,
        tick (record (tick v) { db = record v.db { users = env.users.save u' v.db.users } }),
        (ground (arith, up.answers v.calls, up.answers (suc v.calls))),
      )

  finish-Succeeds :
      (after over : Game) (user other : Uuid) (now : Time) (a b : User) (v : World)
      → user ≢ 0
      → game_opponent_id after user ≡ ok other
      → finish_game after user now ≡ ok over
      → env.users.first (user_has_id user) v.db.users ≡ some a
      → env.users.first (user_has_id other) v.db.users ≡ some b
      → All
          (λ x. (x.id ≢ env.fresh (suc (suc (suc v.calls)))) × (x.game_id ≢ over.id))
          v.db.histories
      → length a.username ≤ 50
      → length b.username ≤ 50
      → env.game_fits over ≡ true
      → Succeeds (finish_game_service env after user now) v
  unfolding finish_game_service
  finish-Succeeds after over user other now a b v known opposed ends won lost new fits_a fits_b
        fits_over =
      let row =
        history_row (env.fresh (suc (suc (suc v.calls)))) over.id user other a.username b.username
          now in
      let (hs, recorded) = takes.takes_history row v.db.histories new fits_a fits_b in
      let v1 : World = tick (
        tick (
          tick (
            tick (
              tick (record v {
                db = record v.db { games = env.games.save over v.db.games; histories = hs };
              }))))) in
      let (_, v2, counted) = increment-Succeeds user now a v1 won in
      (
        tt,
        v2,
        (ground (
          arith,
          up.answers v.calls,
          up.answers (suc v.calls),
          up.answers (suc (suc v.calls)),
          up.answers (suc (suc (suc (suc v.calls)))),
        )),
      )

  module _ (user game_id : Uuid) (d : Four ℕ) (auto : Bool) (w : World) (game : Game)
      (rs : List DigitResult) (a b : User) (other : Uuid) (known : user ≢ 0)
      (found : env.games.first (game_has_id game_id) w.db.games ≡ some game)
      (turn : HasTurn game user) (set : is_empty (opponent_hash game user) ≡ false)
      (judged : verify env.hmac env.uuid_text
          (opponent_hash game user)
          d
          game_id
          (opponent_slot game user)
        ≡ ok rs)
      (opposed : game_opponent_id game user ≡ ok other)
      (mine : env.users.first (user_has_id user) w.db.users ≡ some a)
      (theirs : env.users.first (user_has_id other) w.db.users ≡ some b) (valid : IsSecret d)
      (fits_a : length a.username ≤ 50) (fits_b : length b.username ≤ 50)
      (fits_1 : length game.player1_secret ≤ 255) (fits_2 : length game.player2_secret ≤ 255)
      (k : ℕ) (later : k ≤ w.calls) (unplayed : Unplayed env k game user w.db) where
    pub guess_tx-Succeeds : Succeeds (guess_tx env user game_id d auto) w
    unfolding guess_tx
    guess_tx-Succeeds =
        let id = env.fresh (suc (suc w.calls)) in
        let now = env.now (suc w.calls) in
        let (row, after, other', over, played, opposed', opposed'', ends) =
          add_game_guess-Turn id game user d (four_results rs) auto now turn in
        let (row_id, row_game, row_user, row_turn, row_text, after_id, after_p1, after_p2) =
          add_game_guess-row id game user d (four_results rs) auto now row after played in
        let new_row : All (λ x. (x.id ≢ row.id) × OtherTurn row.game_id row.player_id row.turn x)
            w.db.guesses =
          rw (row_id, row_game, row_user, row_turn)
            (unplayed.new_guess (suc (suc w.calls)) (omega arith)) in
        let (rows, stored) =
          takes.takes_guess row w.db.guesses new_row (rw row_text (length-guess_text d valid)) in
        let (same_id, over_p1, over_p2) = finish_game-id after over user now ends in
        let over_id : over.id ≡ game.id = same_id ∙ after_id in
        let fits_after : env.game_fits after ≡ true =
          takes.takes_game after (rw after_p1 fits_1) (rw after_p2 fits_2) in
        let fits_over : env.game_fits over ≡ true =
          takes.takes_game over (rw (over_p1, after_p1) fits_1) (rw (over_p2, after_p2) fits_2) in
        let v : World =
          tick (tick (tick (tick (record w { db = record w.db { guesses = rows } })))) in
        let same : other' ≡ other = ground arith in
        let asked : env.fails w.calls ≡ false = up.answers w.calls in
        let took : env.fails (suc (suc (suc w.calls))) ≡ false =
          up.answers (suc (suc (suc w.calls))) in
        elim (Bool-cases (is_win (four_results rs))) [
          | inl won ↦
              let (_, v1, finished) =
                finish-Succeeds after over user other now a b v known (rw same at opposed'') ends
                  mine theirs
                  (rw over_id (unplayed.new_history (suc (suc (suc v.calls))) (omega arith))) fits_a
                  fits_b fits_over in
              (outcome_of user auto true row after, v1, (ground arith))
          | inr lost ↦ (
            outcome_of user auto false row after,
            tick (record v { db = record v.db { games = env.games.save after v.db.games } }),
            (ground (arith, up.answers v.calls)),
          )
        ]
