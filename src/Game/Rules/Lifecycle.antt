-- ===== src/Game/Rules/Lifecycle.antt =====
-- A game from its creation to its end, as the use cases take it: each step is one transaction of
-- SetSecretNumber, SubmitGuess or CancelBySecretTimeout on the game's row.
use num_duel.Prelude.{
  ℕ, ◌+◌, ◌%◌, ◌≤◌, ◌≡◌, ◌≢◌, ◌⊎◌, Bool, true, false, none, some, arith, ◌==◌, if◌then◌else◌,
}
use num_duel.Model.{
  Uuid, Time, Text, Four, Game, Guess, DigitResult, ok, waiting_secret, in_progress, finished,
  is_empty, both_secrets_set, is_participant,
}
use num_duel.Game.Rules.{
  set_game_secret_hash, start_game, add_game_guess, finish_game, cancel_game_by_secret_timeout,
}

-- Odd turns are the first player's.
abbrev pub turn_player : Game → Uuid
turn_player g = if g.current_turn % 2 == 1 then g.player1_id else g.player2_id

-- What holds of a game's row between two transactions.
pub record IsValid (g : Game) : Type 0 where
  pub distinct : g.player1_id ≢ g.player2_id
  pub waiting :
      g.status ≡ waiting_secret
      → (both_secrets_set g ≡ false)
        × (g.current_turn_player_id ≡ none)
        × (g.winner_id ≡ none)
        × (g.started_at ≡ none)
        × (g.finished_at ≡ none)
  pub playing :
      g.status ≡ in_progress
      → (both_secrets_set g ≡ true)
        × (1 ≤ g.current_turn)
        × (g.current_turn_player_id ≡ some (turn_player g))
        × (g.winner_id ≡ none)
        × (g.finished_at ≡ none)
  pub over :
      g.status ≡ finished
      → ((g.winner_id ≡ none) × (g.current_turn_player_id ≡ none))
        ⊎ ((w : Uuid) × (g.winner_id ≡ some w) × (is_participant g w ≡ true))

-- One transaction that changes the row.
pub data Step : Game → Game → Type 0 where
  first_secret :
      (g g1 : Game) (u : Uuid) (h : Text) (now : Time)
      → is_empty h ≡ false
      → g.status ≡ waiting_secret
      → set_game_secret_hash g u h ≡ ok g1
      → both_secrets_set g1 ≡ false
      → Step g (record g1 { updated_at = now })
  last_secret :
      (g g1 g2 : Game) (u : Uuid) (h : Text) (now later : Time)
      → is_empty h ≡ false
      → set_game_secret_hash g u h ≡ ok g1
      → start_game (record g1 { updated_at = now }) later ≡ ok g2
      → Step g g2
  guess :
      (g g1 : Game) (id u : Uuid) (d : Four ℕ) (r : Four DigitResult) (auto : Bool) (now : Time)
      (row : Guess)
      → add_game_guess id g u d r auto now ≡ ok (row, g1)
      → Step g g1
  win :
      (g g1 g2 : Game) (id u : Uuid) (d : Four ℕ) (r : Four DigitResult) (auto : Bool) (now : Time)
      (row : Guess)
      → add_game_guess id g u d r auto now ≡ ok (row, g1)
      → finish_game g1 u now ≡ ok g2
      → Step g g2
  cancel : (g g1 : Game) (now : Time) → cancel_game_by_secret_timeout g now ≡ ok g1 → Step g g1

first_secret-IsValid :
    (g g1 : Game) (u : Uuid) (h : Text) (now : Time)
    → is_empty h ≡ false
    → g.status ≡ waiting_secret
    → set_game_secret_hash g u h ≡ ok g1
    → both_secrets_set g1 ≡ false
    → IsValid g
    → IsValid (record g1 { updated_at = now })
unfolding set_game_secret_hash both_secrets_set is_participant
first_secret-IsValid g g1 u h now ne st e b v = ground arith

guess-IsValid :
    (g g1 : Game) (id u : Uuid) (d : Four ℕ) (r : Four DigitResult) (auto : Bool) (now : Time)
    (row : Guess)
    → add_game_guess id g u d r auto now ≡ ok (row, g1)
    → IsValid g
    → IsValid g1
unfolding add_game_guess both_secrets_set is_participant
guess-IsValid g g1 id u d r auto now row e v = ground arith

cancel-IsValid :
    (g g1 : Game) (now : Time)
    → cancel_game_by_secret_timeout g now ≡ ok g1
    → IsValid g
    → IsValid g1
unfolding cancel_game_by_secret_timeout both_secrets_set is_participant
cancel-IsValid g g1 now e v = ground arith

last_secret-IsValid :
    (g g1 g2 : Game) (u : Uuid) (h : Text) (now later : Time)
    → is_empty h ≡ false
    → set_game_secret_hash g u h ≡ ok g1
    → start_game (record g1 { updated_at = now }) later ≡ ok g2
    → IsValid g
    → IsValid g2
unfolding set_game_secret_hash start_game both_secrets_set is_participant
last_secret-IsValid g g1 g2 u h now later ne e b v = ground arith

finish-IsValid :
    (g g1 : Game) (u : Uuid) (now : Time) → finish_game g u now ≡ ok g1 → IsValid g → IsValid g1
unfolding finish_game both_secrets_set is_participant
finish-IsValid g g1 u now e v = ground arith

pub Step-IsValid : {g g' : Game} → Step g g' → IsValid g → IsValid g'
Step-IsValid (first_secret g g1 u h now ne st e b) v = first_secret-IsValid g g1 u h now ne st e b v
Step-IsValid (last_secret g g1 g2 u h now later ne e b) v =
    last_secret-IsValid g g1 g2 u h now later ne e b v
Step-IsValid (guess g g1 id u d r auto now row e) v = guess-IsValid g g1 id u d r auto now row e v
Step-IsValid (win g g1 g2 id u d r auto now row e f) v =
    finish-IsValid g1 g2 u now f (guess-IsValid g g1 id u d r auto now row e v)
Step-IsValid (cancel g g1 now e) v = cancel-IsValid g g1 now e v

-- The history of a row.
pub data Reach (g : Game) : Game → Type 0 where
  here : Reach g g
  next : {g1 g2 : Game} → Reach g g1 → Step g1 g2 → Reach g g2

-- Whatever the players do and whichever timeouts strike, a valid row of a game stays valid: while
-- secrets are awaited nobody has the turn, and during play both secrets are there and the turn is
-- the first player's exactly on odd turns; a finished game has no winner or one of its players.
pub Reach-IsValid : {g g' : Game} → Reach g g' → IsValid g → IsValid g'
Reach-IsValid here v = v
Reach-IsValid (next r st) v = Step-IsValid st (Reach-IsValid r v)

-- No transaction changes the row of a finished game.
pub finished_terminal : {g g' : Game} → Step g g' → g.status ≢ finished
unfolding start_game add_game_guess cancel_game_by_secret_timeout set_game_secret_hash
finished_terminal (first_secret g g1 u h now ne st e b) f = cc
finished_terminal (last_secret g g1 g2 u h now later ne e b) f = ground arith
finished_terminal (guess g g1 id u d r auto now row e) f = ground arith
finished_terminal (win g g1 g2 id u d r auto now row e w) f = ground arith
finished_terminal (cancel g g1 now e) f = ground arith

-- In a valid game two guesses in a row are made by different players, and their turns follow one
-- another.
pub guesses_alternate :
    (g g1 g2 : Game) (id u id' u' : Uuid) (d d' : Four ℕ) (r r' : Four DigitResult)
    (auto auto' : Bool) (now now' : Time) (row row' : Guess)
    → IsValid g
    → add_game_guess id g u d r auto now ≡ ok (row, g1)
    → add_game_guess id' g1 u' d' r' auto' now' ≡ ok (row', g2)
    → (u ≢ u') × (row'.turn ≡ row.turn + 1) × (row.player_id ≡ u) × (row'.player_id ≡ u')
unfolding add_game_guess
guesses_alternate g g1 g2 id u id' u' d d' r r' auto auto' now now' row row' v e e' = ground arith
