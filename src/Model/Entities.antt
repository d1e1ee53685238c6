-- ===== src/Model/Entities.antt =====
-- backend/model/{game,guess,user,match_history,matching_queue,ranking,tokens}.go. A UUID is a
-- number with `uuid.Nil` as 0, a text is the list of its bytes, and a time is a number of
-- nanoseconds with the zero time as 0.
use num_duel.Prelude.{
  ℕ, Bool, true, false, not, ◌&&◌, ◌||◌, Option, none, some, List, [], ◌∷◌, leb, ◌==◌,
}
use num_duel.Model.Enums.{
  GameStatus, is_in_progress, Role, user, master, DigitResult, RefreshTokenStatus, active, revoked,
}

abbrev pub Uuid : Type 0
Uuid = ℕ

abbrev pub Time : Type 0
Time = ℕ

abbrev pub Text : Type 0
Text = List ℕ

-- The Go array [4]T.
pub record Four (A : Type 0) : Type 0 where
  pub d0 : A
  pub d1 : A
  pub d2 : A
  pub d3 : A

abbrev pub is_empty : Text → Bool
is_empty [] = true
is_empty (x ∷ xs) = false

abbrev pub is_some : {A : Type 0} → Option A → Bool
is_some none = false
is_some (some a) = true

pub record Game : Type 0 where
  pub id : Uuid
  pub status : GameStatus
  pub player1_id : Uuid
  pub player2_id : Uuid
  pub player1_secret : Text
  pub player2_secret : Text
  pub current_turn_player_id : Option Uuid
  pub current_turn : ℕ
  pub winner_id : Option Uuid
  pub started_at : Option Time
  pub finished_at : Option Time
  pub created_at : Time
  pub updated_at : Time

unfoldable pub is_participant : Game → Uuid → Bool
is_participant g u = g.player1_id == u || g.player2_id == u

-- The pointer's target against the user.
unfoldable pub is_current_turn : Game → Uuid → Bool
is_current_turn g u = elim g.current_turn_player_id [ none ↦ false | some p ↦ p == u ]

unfoldable pub can_guess : Game → Uuid → Bool
unfolding is_in_progress is_current_turn
can_guess g u = is_in_progress g.status && is_current_turn g u

unfoldable pub both_secrets_set : Game → Bool
both_secrets_set g = not (is_empty g.player1_secret) && not (is_empty g.player2_secret)

pub record Guess : Type 0 where
  pub id : Uuid
  pub game_id : Uuid
  pub player_id : Uuid
  pub turn : ℕ
  pub guess_number : Text
  pub digit_results : List DigitResult
  pub hit_count : ℕ
  pub is_auto : Bool
  pub created_at : Time
  pub updated_at : Time

pub record User : Type 0 where
  pub id : Uuid
  pub username : Text
  pub email : Text
  pub password_hash : Text
  pub role : Role
  pub win_count : ℕ
  pub deleted_at : Option Time
  pub deleted_by : Option Uuid
  pub last_activity_at : Time
  pub created_at : Time
  pub updated_at : Time

unfoldable pub is_deleted : User → Bool
is_deleted u = is_some u.deleted_at

unfoldable pub is_master : User → Bool
is_master u = elim u.role [ user ↦ false | master ↦ true ]

unfoldable pub can_match : User → Bool
unfolding is_deleted is_master
can_match u = not (is_deleted u) && not (is_master u)

pub record MatchHistory : Type 0 where
  pub id : Uuid
  pub game_id : Uuid
  pub winner_id : Uuid
  pub loser_id : Uuid
  pub winner_username : Text
  pub loser_username : Text
  pub finished_at : Time
  pub created_at : Time
  pub updated_at : Time

pub record MatchingQueueEntry : Type 0 where
  pub id : Uuid
  pub user_id : Uuid
  pub created_at : Time

pub record WsConnectionLog : Type 0 where
  pub id : Uuid
  pub user_id : Uuid
  pub connection_id : Text
  pub connected_at : Time
  pub disconnected_at : Option Time

pub record Ranking : Type 0 where
  pub user_id : Uuid
  pub rank : ℕ
  pub username : Text
  pub win_count : ℕ
  pub updated_at : Time

pub record RefreshToken : Type 0 where
  pub id : Uuid
  pub user_id : Uuid
  pub token_hash : Text
  pub family_id : Uuid
  pub status : RefreshTokenStatus
  pub expires_at : Time
  pub revoked_at : Option Time
  pub replaced_by_token_id : Option Uuid
  pub created_at : Time
  pub updated_at : Time

unfoldable pub is_revoked : RefreshToken → Bool
is_revoked t = is_some t.revoked_at || elim t.status [ active ↦ false | revoked ↦ true ]

-- `!t.ExpiresAt.After(now)`
unfoldable pub is_expired : RefreshToken → Time → Bool
is_expired t now = leb t.expires_at now

unfoldable pub is_active : RefreshToken → Time → Bool
unfolding is_revoked is_expired
is_active t now = not (is_revoked t) && not (is_expired t now)

-- `uuid.New()` is the first argument.
unfoldable pub new_refresh_token : Uuid → Uuid → Text → Uuid → Time → Time → RefreshToken
new_refresh_token fresh user_id hash family_id expires_at now = record {
  id = fresh;
  user_id = user_id;
  token_hash = hash;
  family_id = family_id;
  status = active;
  expires_at = expires_at;
  revoked_at = none;
  replaced_by_token_id = none;
  created_at = now;
  updated_at = now;
}
