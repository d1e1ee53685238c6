-- ===== src/Admin/Search.antt =====
-- backend/usecase/admin.go: the lists of users and logs, and the status of the backup.
use num_duel.Prelude.{ℕ, Option, none, some, List, map}
use num_duel.Model.{Uuid, Time, Text, bad_request, is_empty}
use num_duel.Model.Json.{Json}
use num_duel.World.{M, Env, ActivityLog, pure, fail_if, ◌>>=◌, ◌>>◌}
use num_duel.Repository.Search.{
  LogFilter, log_type, detail_of, list_users_page, search_users_page, search_activity_logs_page,
  list_distinct_log_types,
}
use num_duel.Backup.Status.{BackupStatus, ok_text}
use num_duel.Admin.{AdminUserItem, map_admin_users}

pub record ActivityLogItem : Type 0 where
  pub id : Uuid
  pub user_id : Option Uuid
  pub log_type : Text
  pub detail : Json
  pub created_at : Time

module _ (env : Env) where
  unfoldable pub list_users : ℕ → ℕ → M (List AdminUserItem × ℕ)
  list_users page limit = do
    found ← list_users_page env page limit
    pure (map_admin_users found.0, found.1)

  unfoldable pub search_users : Text → M (List AdminUserItem)
  search_users text = do
    fail_if (is_empty text) bad_request
    found ← search_users_page env text 1 100
    pure (map_admin_users found.0)

  abbrev pub activity_log_item : ActivityLog → ActivityLogItem
  activity_log_item l = record {
    id = l.id;
    user_id = l.user_id;
    log_type = log_type l.activity;
    detail = detail_of env.uuid_text l.activity;
    created_at = l.created_at;
  }

  unfoldable pub search_activity_logs : LogFilter → ℕ → ℕ → M (List ActivityLogItem × ℕ)
  search_activity_logs f page limit = do
    found ← search_activity_logs_page env f page limit
    pure (map activity_log_item found.0, found.1)

  abbrev pub list_activity_log_types : M (List Text)
  list_activity_log_types = list_distinct_log_types env

  -- `GetBackupStatus`; the reader may be absent.
  unfoldable pub show_backup_status : Option (M BackupStatus) → M BackupStatus
  show_backup_status none = pure (record { status = ok_text; last_synced_at = none })
  show_backup_status (some read) = read
