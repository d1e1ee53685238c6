-- ===== src/Admin.antt =====
-- backend/usecase/admin.go with the locks of backend/usecase/admin_lock.go: deleting a user, rebuilding
-- the ranking and the cells of the CSV file. Each store may be absent.
pub mod Laws
pub mod Exclusion
pub mod Csv
pub mod Search
use num_duel.Prelude.{
  ℕ, Bool, true, false, not, ◌||◌, Option, none, some, List, [], ◌∷◌, map, ◌==◌, if◌then◌else◌,
}
use num_duel.Model.{
  Uuid, Time, Text, Role, User, Err, is_deleted, is_master, is_some, not_found,
  user_already_deleted, cannot_delete_self, cannot_delete_master, user_in_active_game,
  rate_limit_exceeded, bad_request,
}
use num_duel.World.{
  M, Env, Key, user_delete_lock, ranking_rebuild_lock, get_now, pure, throw, done, when, fail_if,
  or_throw, ignore, with_tx, ◌>>=◌, ◌>>◌,
}
use num_duel.Repository.Users.{update_user, find_user_by_id, revoke_tokens_by_user_id}
use num_duel.Repository.Games.{delete_entries_by_user_id}
use num_duel.Repository.Logs.{record_admin_delete_user_log, record_admin_rebuild_ranking_log}
use num_duel.RedisStore.{acquire_lock, set_force_logout_before}
use num_duel.Matching.{find_active_game_for_user}
use num_duel.Ranking.{RankingUseCase, rebuild, admin_ttl}

pub record AdminUseCase : Type 0 where
  pub ranking : Option RankingUseCase
  pub ws_sessions : Bool
  pub delete_session : Uuid → M (Unit {0})
  pub force_logout : Bool
  pub locks : Bool
  pub admin_lock_ttl : ℕ

pub record AdminUserItem : Type 0 where
  pub id : Uuid
  pub username : Text
  pub email : Text
  pub role : Role
  pub win_count : ℕ
  pub deleted_at : Option Time
  pub created_at : Time

pub map_admin_users : List User → List AdminUserItem
map_admin_users = map λ u. record {
  id = u.id;
  username = u.username;
  email = u.email;
  role = u.role;
  win_count = u.win_count;
  deleted_at = u.deleted_at;
  created_at = u.created_at;
}

-- `=`, `+`, `-`, `@`, a tab and a carriage return
abbrev pub starts_formula : ℕ → Bool
starts_formula c = c == 61 || c == 43 || c == 45 || c == 64 || c == 9 || c == 13

-- The quote is the byte 39.
unfoldable pub sanitize_csv_cell : Text → Text
sanitize_csv_cell [] = []
sanitize_csv_cell (c ∷ cs) = if starts_formula c then 39 ∷ c ∷ cs else c ∷ cs

-- The tests on the user who is to be deleted.
unfoldable pub check_target : User → M (Unit {0})
unfolding is_deleted is_master
check_target u =
    fail_if (is_deleted u) user_already_deleted >> fail_if (is_master u) cannot_delete_master

abbrev pub deleted_user : User → Uuid → Time → User
deleted_user u admin now = record u {
  deleted_at = some now;
  deleted_by = some admin;
  updated_at = now;
}

module _ (env : Env) (a : AdminUseCase) where
  -- `acquireLock`
  abbrev pub admin_lock : Key → M (Unit {0})
  admin_lock key = when a.locks (
      acquire_lock env key (admin_ttl a.admin_lock_ttl) >>= λ got.
      fail_if (not got) rate_limit_exceeded)

  -- The transaction of DeleteUser.
  unfoldable pub delete_user_tx : Uuid → User → Uuid → Time → M (Unit {0})
  delete_user_tx admin u target now = do
    revoke_tokens_by_user_id env target now
    delete_entries_by_user_id env target
    update_user env (deleted_user u admin now)

  -- DeleteUser after its guards.
  unfoldable pub delete_target : Uuid → Uuid → User → M (Unit {0})
  unfolding delete_user_tx with_tx
  delete_target admin target u = do
    now ← get_now env
    when a.force_logout (set_force_logout_before env target now)
    when a.ws_sessions (ignore (a.delete_session target))
    with_tx env (delete_user_tx admin u target now)
    record_admin_delete_user_log env admin target now

  -- DeleteUser after its lock.
  unfoldable pub delete_locked : Uuid → Uuid → M (Unit {0})
  delete_locked admin target = do
    fail_if (admin == target) cannot_delete_self
    found ← find_user_by_id env target
    u ← or_throw found not_found
    check_target u
    game ← find_active_game_for_user env target
    fail_if (is_some game) user_in_active_game
    delete_target admin target u

  unfoldable pub delete_user : Uuid → Uuid → M (Unit {0})
  delete_user admin target = do admin_lock (user_delete_lock admin); delete_locked admin target

  abbrev pub rebuild_with : Option RankingUseCase → M (Unit {0})
  rebuild_with none = throw bad_request
  rebuild_with (some r) = rebuild env r

  unfoldable pub rebuild_ranking : Uuid → M (Unit {0})
  rebuild_ranking admin = do
    admin_lock (ranking_rebuild_lock admin)
    rebuild_with a.ranking
    now ← get_now env
    record_admin_rebuild_ranking_log env admin now
