-- ===== src/Profile.antt =====
-- backend/usecase/profile.go: what a user sees of the ranking and of the own past.
pub mod Laws
use num_duel.Prelude.{ℕ, Option, none, some, List, [], ◌∷◌, map, ◌==◌, if◌then◌else◌}
use num_duel.Model.{
  Uuid, Time, Text, User, MatchHistory, WsConnectionLog, Ranking, LoginAction, unauthorized,
}
use num_duel.World.{M, Env, LoginLog, pure, throw, fail_if, or_throw, ◌>>=◌, ◌>>◌}
use num_duel.Repository.Users.{find_user_by_id}
use num_duel.Repository.Rankings.{list_rankings}
use num_duel.Repository.Pages.{
  list_histories_by_user_id, list_logins_by_user_id, list_connections_by_user_id,
}
use num_duel.Session.{missing_or_deleted}

pub record GetProfileOutput : Type 0 where
  pub username : Text
  pub win_count : ℕ
  pub rank : Option ℕ

pub record MatchHistoryItem : Type 0 where
  pub game_id : Uuid
  pub winner_username : Text
  pub loser_username : Text
  pub finished_at : Time

pub record LoginHistoryItem : Type 0 where
  pub action : LoginAction
  pub created_at : Time

pub record WsConnectionHistoryItem : Type 0 where
  pub connection_id : Text
  pub connected_at : Time
  pub disconnected_at : Option Time

-- The loop over the ranking, up to the user's row.
unfoldable pub rank_of : Uuid → List Ranking → Option ℕ
rank_of user [] = none
rank_of user (r ∷ rs) = if r.user_id == user then some r.rank else rank_of user rs

abbrev pub match_history_item : MatchHistory → MatchHistoryItem
match_history_item h = record {
  game_id = h.game_id;
  winner_username = h.winner_username;
  loser_username = h.loser_username;
  finished_at = h.finished_at;
}

abbrev pub login_history_item : LoginLog → LoginHistoryItem
login_history_item l = record { action = l.action; created_at = l.created_at }

abbrev pub ws_history_item : WsConnectionLog → WsConnectionHistoryItem
ws_history_item l = record {
  connection_id = l.connection_id;
  connected_at = l.connected_at;
  disconnected_at = l.disconnected_at;
}

module _ (env : Env) where
  -- The user, who must be there.
  unfoldable pub present_user : Uuid → M User
  present_user user = do
    found ← find_user_by_id env user
    fail_if (missing_or_deleted found) unauthorized
    or_throw found unauthorized

  unfoldable pub get_profile : Uuid → M GetProfileOutput
  unfolding rank_of
  get_profile user = do
    u ← present_user user
    rankings ← list_rankings env
    pure (record { username = u.username; win_count = u.win_count; rank = rank_of user rankings })

  -- The items of a page, and the count of all rows.
  abbrev pub items_of : {Row Item : Type 0} → (Row → Item) → M (List Row × ℕ) → M (List Item × ℕ)
  items_of f rows = rows >>= λ page. pure (map f page.0, page.1)

  unfoldable pub get_match_history : Uuid → ℕ → ℕ → M (List MatchHistoryItem × ℕ)
  get_match_history user page limit =
      present_user user
      >> items_of match_history_item (list_histories_by_user_id env user page limit)

  unfoldable pub get_login_history : Uuid → ℕ → ℕ → M (List LoginHistoryItem × ℕ)
  get_login_history user page limit =
      present_user user >> items_of login_history_item (list_logins_by_user_id env user page limit)

  unfoldable pub get_ws_history : Uuid → ℕ → ℕ → M (List WsConnectionHistoryItem × ℕ)
  get_ws_history user page limit =
      present_user user
      >> items_of ws_history_item (list_connections_by_user_id env user page limit)
