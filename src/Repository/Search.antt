-- ===== src/Repository/Search.antt =====
-- List and Search of backend/repository/user.go, Search and ListDistinctLogTypes of log.go, and the
-- log type and the detail that backend/usecase/activity_log.go gives to a row.
use num_duel.Prelude.{
  ℕ, Bool, true, false, ◌&&◌, ◌||◌, Option, none, some, List, [], ◌∷◌, ◌++◌, map, leb, ◌==◌,
  text_eq,
}
use num_duel.Prelude.Texts.{codes}
use num_duel.Model.{Uuid, Time, Text, User, is_empty}
use num_duel.Model.Json.{Json, bool, num, str, obj, Fields, end, field}
use num_duel.World.{
  M, Env, ActivityLog, Activity, guess_made, game_ended, timed_out, recovered, user_deleted,
  ranking_rebuilt, Reason, guess_win, secret_setup_timeout, query,
}
use num_duel.Repository.Users.{any_user}
use num_duel.Repository.Pages.{list_page}

abbrev pub log_type : Activity → Text
log_type (guess_made game player turn hits win auto) = codes "guess"
log_type (game_ended game reason winner) = codes "game_over"
log_type (timed_out game player) = codes "timeout"
log_type (recovered game) = codes "recover"
log_type (user_deleted admin target) = codes "admin_delete_user"
log_type (ranking_rebuilt admin) = codes "admin_rebuild_ranking"

abbrev pub reason_text : Reason → Text
reason_text guess_win = codes "guess_win"
reason_text secret_setup_timeout = codes "secret_setup_timeout"

abbrev pub winner_field : (Uuid → Text) → Option Uuid → Fields
winner_field uuid_text none = end
winner_field uuid_text (some u) = field (codes "winnerId") (str (uuid_text u)) end

unfoldable pub detail_of : (Uuid → Text) → Activity → Json
detail_of uuid_text (guess_made game player turn hits win auto) = obj (
    field (codes "gameId") (str (uuid_text game)) (
      field (codes "playerId") (str (uuid_text player)) (
        field (codes "turn") (num turn) (
          field (codes "hitCount") (num hits)
            (field (codes "isWin") (bool win) (field (codes "isAuto") (bool auto) end))))))
detail_of uuid_text (game_ended game reason winner) = obj (
    field (codes "gameId") (str (uuid_text game))
      (field (codes "reason") (str (reason_text reason)) (winner_field uuid_text winner)))
detail_of uuid_text (timed_out game player) = obj (
    field (codes "gameId") (str (uuid_text game))
      (field (codes "playerId") (str (uuid_text player)) end))
detail_of uuid_text (recovered game) = obj (field (codes "gameId") (str (uuid_text game)) end)
detail_of uuid_text (user_deleted admin target) = obj (
    field (codes "adminId") (str (uuid_text admin))
      (field (codes "targetUserId") (str (uuid_text target)) end))
detail_of uuid_text (ranking_rebuilt admin) =
    obj (field (codes "adminId") (str (uuid_text admin)) end)

-- The conditions of a search, each of them optional.
pub record LogFilter : Type 0 where
  pub log_type : Text
  pub user_id : Option Uuid
  pub from : Option Time
  pub to : Option Time

abbrev pub same_user : Option Uuid → Option Uuid → Bool
same_user none row = true
same_user (some u) none = false
same_user (some u) (some v) = v == u

abbrev pub not_before : Option Time → Time → Bool
not_before none at = true
not_before (some t) at = leb t at

abbrev pub not_after : Option Time → Time → Bool
not_after none at = true
not_after (some t) at = leb at t

unfoldable pub log_matches : LogFilter → ActivityLog → Bool
log_matches f l =
    (is_empty f.log_type || text_eq (log_type l.activity) f.log_type)
    && same_user f.user_id l.user_id
    && not_before f.from l.created_at
    && not_after f.to l.created_at

module _ (env : Env) where
  abbrev pub list_users_page : ℕ → ℕ → M (List User × ℕ)
  list_users_page page limit =
      list_page env (λ db. db.users) (env.users.find_latest (λ u. u.created_at) any_user) page limit

  -- `userSearchScope`
  abbrev pub user_matches : Text → User → Bool
  user_matches text u =
      let pattern = 37 ∷ text ++ 37 ∷ [] in
      env.ilike pattern u.username || env.ilike pattern u.email

  abbrev pub search_users_page : Text → ℕ → ℕ → M (List User × ℕ)
  search_users_page text page limit =
      list_page env (λ db. db.users) (env.users.find_latest (λ u. u.created_at) (user_matches text))
        page limit

  abbrev pub search_activity_logs_page : LogFilter → ℕ → ℕ → M (List ActivityLog × ℕ)
  search_activity_logs_page f page limit =
      list_page env (λ db. db.activity_logs)
        (env.activity_logs.find_latest (λ l. l.created_at) (log_matches f)) page limit

  abbrev pub list_distinct_log_types : M (List Text)
  list_distinct_log_types =
      query env (λ db. env.distinct_in_order (map (λ l. log_type l.activity) db.activity_logs))
