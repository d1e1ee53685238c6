-- ===== src/Model/Enums.antt =====
-- backend/model/enums.go. A column holds one of the constants that the program writes.
use num_duel.Prelude.{ℕ, Bool, true, false}

pub data GameStatus : Type 0 where
  waiting_secret in_progress finished : GameStatus

pub data Role : Type 0 where
  user master : Role

pub data DigitResult : Type 0 where
  miss hit : DigitResult

pub data RefreshTokenStatus : Type 0 where
  active revoked : RefreshTokenStatus

pub data LoginAction : Type 0 where
  login logout auto_logout : LoginAction

unfoldable pub is_waiting_secret : GameStatus → Bool
is_waiting_secret waiting_secret = true
is_waiting_secret _ = false

unfoldable pub is_in_progress : GameStatus → Bool
is_in_progress in_progress = true
is_in_progress _ = false

unfoldable pub is_hit : DigitResult → Bool
is_hit hit = true
is_hit miss = false

-- `int(r)`
unfoldable pub digit_result_int : DigitResult → ℕ
digit_result_int miss = 0
digit_result_int hit = 1

unfoldable pub same_status : GameStatus → GameStatus → Bool
same_status waiting_secret waiting_secret = true
same_status in_progress in_progress = true
same_status finished finished = true
same_status _ _ = false
