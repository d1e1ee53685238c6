-- ===== src/Repository/Pages.antt =====
-- paginatePage of backend/repository/db_helpers.go, and the three ListByUserID of log.go and
-- match_history.go. Offset and Limit skip and keep rows of the answer.
use num_duel.Prelude.{ℕ, ◌-◌, ◌*◌, Bool, List, length, take, drop, ◌==◌, ◌||◌, if◌then◌else◌}
use num_duel.Prelude.Int.{ℤ, pos, negsuc, wrap64}
use num_duel.Model.{Uuid, MatchHistory, WsConnectionLog}
use num_duel.World.{M, Env, Tables, LoginLog, query, pure, ◌>>=◌}

-- The limit and the offset, whose product has 64 bits.
abbrev pub paginate_page : ℕ → ℕ → ℕ × ℤ
paginate_page page limit =
    let size = if limit == 0 then 20 else limit in
    let number = if page == 0 then 1 else page in (size, wrap64 (pos ((number - 1) * size)))

abbrev pub history_of : Uuid → MatchHistory → Bool
history_of user h = h.winner_id == user || h.loser_id == user

abbrev pub login_of : Uuid → LoginLog → Bool
login_of user l = l.user_id == user

abbrev pub connection_of : Uuid → WsConnectionLog → Bool
connection_of user l = l.user_id == user

-- `Offset` of GORM, which skips no row where it is negative.
abbrev pub skip : {Row : Type 0} → ℤ → List Row → List Row
skip (pos n) rows = drop n rows
skip (negsuc n) rows = rows

-- The rows of a page, of those that were found.
unfoldable pub page_rows : {Row : Type 0} → ℕ → ℕ → List Row → List Row
page_rows page limit rows =
    let (size, offset) = paginate_page page limit in take size (skip offset rows)

module _ (env : Env) where
  -- The count and the rows of a page.
  abbrev pub list_page :
      {Row : Type 0} → (Tables → List Row) → (List Row → List Row) → ℕ → ℕ → M (List Row × ℕ)
  list_page table found page limit = query env (λ db. length (found (table db))) >>= λ total.
      query env (λ db. page_rows page limit (found (table db))) >>= λ rows. pure (rows, total)

  abbrev pub list_histories_by_user_id : Uuid → ℕ → ℕ → M (List MatchHistory × ℕ)
  list_histories_by_user_id user page limit =
      list_page (λ db. db.histories)
        (env.histories.find_latest (λ h. h.finished_at) (history_of user)) page limit

  abbrev pub list_logins_by_user_id : Uuid → ℕ → ℕ → M (List LoginLog × ℕ)
  list_logins_by_user_id user page limit =
      list_page (λ db. db.login_logs)
        (env.login_logs.find_latest (λ l. l.created_at) (login_of user)) page limit

  abbrev pub list_connections_by_user_id : Uuid → ℕ → ℕ → M (List WsConnectionLog × ℕ)
  list_connections_by_user_id user page limit =
      list_page (λ db. db.ws_logs)
        (env.ws_logs.find_latest (λ l. l.connected_at) (connection_of user)) page limit
