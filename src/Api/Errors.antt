-- ===== src/Api/Errors.antt =====
-- backend/dto/response.go and backend/websocket/errors.go: errors as answers. A message is the text of
-- the error that is named.
use num_duel.Prelude.{ℕ, ◌≡◌, ◌≢◌, ◌↔◌, arith, ◌==◌, if◌then◌else◌}
use num_duel.Model.{Err}
use num_duel.Model

pub data Code : Type 0 where
  unauthorized token_expired forbidden not_found rate_limit_exceeded validation_error : Code
  internal_error conflict duplicate_user user_in_active_game already_in_matching : Code
  game_not_started game_already_finished not_your_turn game_already_started : Code
  user_already_deleted cannot_delete_self cannot_delete_master : Code

pub record Answer : Type 0 where
  pub status : ℕ
  pub code : Code
  pub message : Err

unfoldable pub conflict_code : Err → Code
conflict_code Model.duplicate_user = Code.duplicate_user
conflict_code Model.user_in_active_game = Code.user_in_active_game
conflict_code Model.already_in_matching = Code.already_in_matching
conflict_code Model.game_not_started = Code.game_not_started
conflict_code Model.game_already_finished = Code.game_already_finished
conflict_code Model.not_your_turn = Code.not_your_turn
conflict_code Model.game_already_started = Code.game_already_started
conflict_code Model.user_already_deleted = Code.user_already_deleted
conflict_code Model.cannot_delete_self = Code.cannot_delete_self
conflict_code Model.cannot_delete_master = Code.cannot_delete_master
conflict_code e = Code.conflict

abbrev answer : ℕ → Code → Err → Answer
answer status code message = record { status = status; code = code; message = message }

unfoldable pub map_http_error : Err → Answer
unfolding conflict_code
map_http_error Model.unauthorized = answer 401 Code.unauthorized Model.unauthorized
map_http_error Model.token_expired = answer 404 Code.token_expired Model.token_expired
map_http_error Model.forbidden = answer 403 Code.forbidden Model.forbidden
map_http_error Model.not_found = answer 404 Code.not_found Model.not_found
map_http_error Model.duplicate_user =
    answer 409 (conflict_code Model.duplicate_user) Model.duplicate_user
map_http_error Model.user_in_active_game =
    answer 409 (conflict_code Model.user_in_active_game) Model.user_in_active_game
map_http_error Model.already_in_matching =
    answer 409 (conflict_code Model.already_in_matching) Model.already_in_matching
map_http_error Model.game_not_started =
    answer 409 (conflict_code Model.game_not_started) Model.game_not_started
map_http_error Model.game_already_finished =
    answer 409 (conflict_code Model.game_already_finished) Model.game_already_finished
map_http_error Model.not_your_turn =
    answer 409 (conflict_code Model.not_your_turn) Model.not_your_turn
map_http_error Model.game_already_started =
    answer 409 (conflict_code Model.game_already_started) Model.game_already_started
map_http_error Model.user_already_deleted =
    answer 409 (conflict_code Model.user_already_deleted) Model.user_already_deleted
map_http_error Model.cannot_delete_self =
    answer 403 (conflict_code Model.cannot_delete_self) Model.cannot_delete_self
map_http_error Model.cannot_delete_master =
    answer 403 (conflict_code Model.cannot_delete_master) Model.cannot_delete_master
map_http_error Model.rate_limit_exceeded =
    answer 429 Code.rate_limit_exceeded Model.rate_limit_exceeded
map_http_error Model.bad_request = answer 400 Code.validation_error Model.bad_request
map_http_error Model.bad_username = answer 400 Code.validation_error Model.bad_username
map_http_error Model.bad_email = answer 400 Code.validation_error Model.bad_email
map_http_error Model.bad_login_email = answer 400 Code.validation_error Model.bad_login_email
map_http_error Model.weak_password = answer 400 Code.validation_error Model.weak_password
map_http_error Model.bad_digit = answer 400 Code.validation_error Model.bad_digit
map_http_error Model.bad_digit_length = answer 400 Code.validation_error Model.bad_digit_length
map_http_error Model.duplicate_digit = answer 400 Code.validation_error Model.duplicate_digit
map_http_error e = answer 500 Code.internal_error Model.internal

unfoldable pub ws_error_code : Err → Code × Err
ws_error_code Model.unauthorized = (Code.unauthorized, Model.unauthorized)
ws_error_code Model.token_expired = (Code.token_expired, Model.token_expired)
ws_error_code Model.forbidden = (Code.forbidden, Model.forbidden)
ws_error_code Model.not_found = (Code.not_found, Model.not_found)
ws_error_code Model.duplicate_user = (Code.conflict, Model.duplicate_user)
ws_error_code Model.user_in_active_game = (Code.conflict, Model.user_in_active_game)
ws_error_code Model.already_in_matching = (Code.conflict, Model.already_in_matching)
ws_error_code Model.game_not_started = (Code.conflict, Model.game_not_started)
ws_error_code Model.game_already_finished = (Code.conflict, Model.game_already_finished)
ws_error_code Model.not_your_turn = (Code.conflict, Model.not_your_turn)
ws_error_code Model.game_already_started = (Code.conflict, Model.game_already_started)
ws_error_code Model.rate_limit_exceeded = (Code.rate_limit_exceeded, Model.rate_limit_exceeded)
ws_error_code Model.bad_request = (Code.validation_error, Model.bad_request)
ws_error_code Model.bad_username = (Code.validation_error, Model.bad_username)
ws_error_code Model.bad_email = (Code.validation_error, Model.bad_email)
ws_error_code Model.bad_login_email = (Code.validation_error, Model.bad_login_email)
ws_error_code Model.weak_password = (Code.validation_error, Model.weak_password)
ws_error_code Model.bad_digit = (Code.validation_error, Model.bad_digit)
ws_error_code Model.bad_digit_length = (Code.validation_error, Model.bad_digit_length)
ws_error_code Model.duplicate_digit = (Code.validation_error, Model.duplicate_digit)
ws_error_code e = (Code.internal_error, Model.internal)

-- Over HTTP the status 500, the code `internal_error` and the message of an internal error come
-- only together.
pub map_http_error-hides :
    (e : Err)
    → (((map_http_error e).status ≡ 500) ↔ ((map_http_error e).code ≡ Code.internal_error))
      × (((map_http_error e).status ≡ 500) ↔ ((map_http_error e).message ≡ Model.internal))
unfolding map_http_error conflict_code
map_http_error-hides e = ground arith

-- For every error but the three of deleting a user, which only HTTP names, both transports give
-- the same text; over the socket each of the answers 409 has the code `conflict`, and every other
-- code is the same.
pub ws_error_code-map_http_error :
    (e : Err)
    → e ≢ Model.user_already_deleted
    → e ≢ Model.cannot_delete_self
    → e ≢ Model.cannot_delete_master
    → ((ws_error_code e).1 ≡ (map_http_error e).message)
      × ((ws_error_code e).0
          ≡ (if (map_http_error e).status == 409 then Code.conflict else (map_http_error e).code))
unfolding ws_error_code map_http_error conflict_code
ws_error_code-map_http_error e a b c = ground arith
