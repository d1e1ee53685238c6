-- ===== src/Backup/Status.antt =====
-- GetBackupStatus and SetBackupStatus of backend/redis/store.go. The time of the last copy is kept to
-- the second, and the zero time is left out.
use mathlib.Core.Option
use num_duel.Prelude.{◌*◌, ◌/◌, Option, none, some, ◌==◌, if◌then◌else◌}
use num_duel.Prelude.Texts.{codes}
use num_duel.Model.{Time, Text, other, is_empty}
use num_duel.World.{M, Env, Value, backup_value, backup_status, pure, throw, ◌>>=◌}
use num_duel.RedisStore.{second, redis_get, redis_set}

pub record BackupStatus : Type 0 where
  pub status : Text
  pub last_synced_at : Option Time

abbrev pub ok_text : Text
ok_text = codes "ok"

abbrev pub error_text : Text
error_text = codes "error"

-- `GetBackupStatus` after the call.
abbrev pub read_status : Option Value → M BackupStatus
read_status none = pure (record { status = ok_text; last_synced_at = none })
read_status (some (backup_value status at)) = pure (record {
  status = if is_empty status then ok_text else status;
  last_synced_at = Option.map (λ s. s * second) at;
})
read_status (some _) = throw (other 4)

module _ (env : Env) where
  abbrev pub get_backup_status : M BackupStatus
  get_backup_status = redis_get env backup_status >>= read_status

  abbrev pub set_backup_status : Text → Time → M (Unit {0})
  set_backup_status status at =
      redis_set env backup_status
        (backup_value status (if at == 0 then none else some (at / second))) 0
