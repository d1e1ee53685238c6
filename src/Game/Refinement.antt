-- ===== src/Game/Refinement.antt =====
-- The duel as the players know it, and the rows of backend/model/game.go as a detailed account of it.
pub mod Requests
use num_duel.Prelude.{
  ℕ, ◌+◌, ◌%◌, ◌≡◌, ◌⊎◌, inl, inr, refl, Bool, true, false, not, Option, none, some, arith, ◌==◌,
  if◌then◌else◌, Bool-cases,
}
use num_duel.Model.{
  Uuid, Time, Text, Four, Game, Guess, DigitResult, ok, waiting_secret, in_progress, finished,
  is_empty, both_secrets_set, is_participant,
}
use num_duel.Game.Rules.{
  set_game_secret_hash, start_game, add_game_guess, finish_game, cancel_game_by_secret_timeout,
}
use num_duel.Game.Rules.Lifecycle.{
  IsValid, Step, first_secret, last_secret, guess, win, cancel, Reach, here, next, Reach-IsValid,
}

pub data Side : Type 0 where
  left right : Side

-- Who has chosen a secret; the turn that is played; who has won, if anybody.
pub data Duel : Type 0 where
  setting : Bool → Bool → Duel
  playing : ℕ → Duel
  over : Option Side → Duel

-- The left player has the odd turns.
abbrev pub side_of : ℕ → Side
side_of n = if n % 2 == 1 then left else right

pub data Move : Duel → Duel → Type 0 where
  left_chooses : Move (setting false false) (setting true false)
  right_chooses : Move (setting false false) (setting false true)
  left_begins : Move (setting false true) (playing 1)
  right_begins : Move (setting true false) (playing 1)
  misses : (n : ℕ) → Move (playing n) (playing (n + 1))
  wins : (n : ℕ) → Move (playing n) (over (some (side_of n)))
  expires : (a b : Bool) → Move (setting a b) (over none)

-- The moves of a duel, one after the other.
pub data Moves (d : Duel) : Duel → Type 0 where
  still : Moves d d
  after : {d1 d2 : Duel} → Moves d d1 → Move d1 d2 → Moves d d2

abbrev pub winner_side : Game → Option Uuid → Option Side
winner_side g none = none
winner_side g (some u) = some (if u == g.player1_id then left else right)

-- The duel that a row stands for: the texts of the hashes, the clock and the turn's player go.
abbrev pub view : Game → Duel
view g = elim g.status [
  | waiting_secret ↦ setting (not (is_empty g.player1_secret)) (not (is_empty g.player2_secret))
  | in_progress ↦ playing g.current_turn
  | finished ↦ over (winner_side g g.winner_id)
]

seen-Move : {a a' b b' : Duel} → a ≡ a' → b ≡ b' → Move a' b' → Move a b
seen-Move e e' m = rw (e, e') m

module _ (g g1 : Game) (u : Uuid) (h : Text) (given : is_empty h ≡ false)
    (set : set_game_secret_hash g u h ≡ ok g1) where
  first_secret-Move :
      (now : Time)
      → g.status ≡ waiting_secret
      → both_secrets_set g1 ≡ false
      → Move (view g) (view (record g1 { updated_at = now }))
  unfolding set_game_secret_hash both_secrets_set
  first_secret-Move now st one = elim (Bool-cases (u == g.player1_id)) [
    | inl mine ↦ seen-Move (ground arith) (ground arith) left_chooses
    | inr other ↦ seen-Move (ground arith) (ground arith) right_chooses
  ]

  last_secret-Move :
      (g2 : Game) (now later : Time)
      → IsValid g
      → start_game (record g1 { updated_at = now }) later ≡ ok g2
      → Move (view g) (view g2)
  unfolding set_game_secret_hash both_secrets_set start_game
  last_secret-Move g2 now later v begun = elim (Bool-cases (u == g.player1_id)) [
    | inl mine ↦ seen-Move (ground arith) (ground arith) left_begins
    | inr other ↦ seen-Move (ground arith) (ground arith) right_begins
  ]

module _ (g g1 : Game) (id u : Uuid) (d : Four ℕ) (r : Four DigitResult) (auto : Bool) (now : Time)
    (row : Guess) (played : add_game_guess id g u d r auto now ≡ ok (row, g1)) where
  pub missed-view : view g1 ≡ playing (g.current_turn + 1)
  unfolding add_game_guess
  missed-view = ground arith

  guess-Move : Move (view g) (view g1)
  unfolding add_game_guess
  guess-Move = seen-Move (ground arith) missed-view (misses g.current_turn)

  pub won-view :
      (g2 : Game)
      → IsValid g
      → finish_game g1 u now ≡ ok g2
      → view g2 ≡ over (some (side_of g.current_turn))
  unfolding add_game_guess finish_game
  won-view g2 v won = ground arith

  win-Move : (g2 : Game) → IsValid g → finish_game g1 u now ≡ ok g2 → Move (view g) (view g2)
  unfolding add_game_guess
  win-Move g2 v won = seen-Move (ground arith) (won-view g2 v won) (wins g.current_turn)

cancel-Move :
    (g g1 : Game) (now : Time)
    → IsValid g
    → cancel_game_by_secret_timeout g now ≡ ok g1
    → Move (view g) (view g1)
unfolding cancel_game_by_secret_timeout
cancel-Move g g1 now v e =
    seen-Move (ground arith) (ground arith)
      (expires (not (is_empty g.player1_secret)) (not (is_empty g.player2_secret)))

-- A transaction that changes a valid row is one move of the duel.
pub Step-Move : {g g' : Game} → IsValid g → Step g g' → Move (view g) (view g')
Step-Move v (first_secret g g1 u h now ne st e b) = first_secret-Move g g1 u h ne e now st b
Step-Move v (last_secret g g1 g2 u h now later ne e b) =
    last_secret-Move g g1 u h ne e g2 now later v b
Step-Move v (guess g g1 id u d r auto now row e) = guess-Move g g1 id u d r auto now row e
Step-Move v (win g g1 g2 id u d r auto now row e f) = win-Move g g1 id u d r auto now row e g2 v f
Step-Move v (cancel g g1 now e) = cancel-Move g g1 now v e

-- The history of a valid row is a sequence of moves of the duel: secrets are chosen once by each
-- side, then turn follows turn, and the duel ends by a win of the side whose turn it is or by the
-- timeout of the choice.
pub Reach-Moves : {g g' : Game} → IsValid g → Reach g g' → Moves (view g) (view g')
Reach-Moves v here = still
Reach-Moves v (next r st) = after (Reach-Moves v r) (Step-Move (Reach-IsValid r v) st)
