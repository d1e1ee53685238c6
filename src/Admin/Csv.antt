-- ===== src/Admin/Csv.antt =====
-- DownloadActivityLogsCSV of backend/usecase/admin.go, with `csv.Writer` over a buffer, which never
-- fails. A record ends with a line feed, and a cell is quoted where the writer quotes it.
use num_duel.Prelude.{
  Bool, false, ◌||◌, Option, none, some, List, [], ◌∷◌, ◌++◌, ◌==◌, text_eq, if◌then◌else◌,
}
use num_duel.Prelude.Texts.{codes, is_space}
use num_duel.Model.{Uuid, Text}
use num_duel.World.{M, Env, ActivityLog, log_download_lock, pure, ◌>>=◌, ◌>>◌}
use num_duel.Repository.Search.{LogFilter, log_type, detail_of, search_activity_logs_page}
use num_duel.Admin.{AdminUseCase, sanitize_csv_cell, admin_lock}

-- A comma, a quote, a carriage return or a line feed.
abbrev pub has_special : Text → Bool
has_special [] = false
has_special (c ∷ s) = (c == 44 || c == 34 || c == 13 || c == 10) || has_special s

abbrev pub starts_space : Text → Bool
starts_space [] = false
starts_space (c ∷ s) = is_space c

-- `fieldNeedsQuotes`, for cells that are not the two bytes that end a file of PostgreSQL
abbrev pub needs_quotes : Text → Bool
needs_quotes s = text_eq s (92 ∷ 46 ∷ []) || has_special s || starts_space s

abbrev pub double_quotes : Text → Text
double_quotes [] = []
double_quotes (c ∷ s) = let rest = double_quotes s in if c == 34 then 34 ∷ 34 ∷ rest else c ∷ rest

unfoldable pub csv_cell : Text → Text
csv_cell s = if needs_quotes s then 34 ∷ double_quotes s ++ 34 ∷ [] else s

-- `Write`
unfoldable pub csv_record : List Text → Text
unfolding csv_cell
csv_record [] = 10 ∷ []
csv_record (s ∷ []) = csv_cell s ++ 10 ∷ []
csv_record (s ∷ t ∷ ss) = csv_cell s ++ 44 ∷ csv_record (t ∷ ss)

abbrev pub header_cells : List Text
header_cells =
    codes "id" ∷ codes "user_id" ∷ codes "log_type" ∷ codes "detail" ∷ codes "created_at" ∷ []

abbrev pub user_cell : (Uuid → Text) → Option Uuid → Text
user_cell uuid_text none = []
user_cell uuid_text (some u) = uuid_text u

module _ (env : Env) where
  -- The cells of a log.
  unfoldable pub log_cells : ActivityLog → List Text
  unfolding sanitize_csv_cell
  log_cells l =
      sanitize_csv_cell (env.uuid_text l.id)
      ∷ sanitize_csv_cell (user_cell env.uuid_text l.user_id)
      ∷ sanitize_csv_cell (log_type l.activity)
      ∷ sanitize_csv_cell (env.marshal (detail_of env.uuid_text l.activity))
      ∷ sanitize_csv_cell (env.rfc3339 l.created_at)
      ∷ []

  abbrev pub csv_rows : List ActivityLog → Text
  csv_rows [] = []
  csv_rows (l ∷ ls) = csv_record (log_cells l) ++ csv_rows ls

  unfoldable pub csv_file : List ActivityLog → Text
  unfolding log_cells csv_record
  csv_file ls = csv_record header_cells ++ csv_rows ls

  -- The first 10000 logs that meet the conditions, latest first.
  unfoldable pub download_activity_logs_csv : AdminUseCase → Uuid → LogFilter → M Text
  download_activity_logs_csv a admin f = do
    admin_lock env a (log_download_lock admin)
    page ← search_activity_logs_page env f 1 10000
    pure (csv_file page.0)
