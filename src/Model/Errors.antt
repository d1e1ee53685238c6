-- ===== src/Model/Errors.antt =====
-- backend/model/errors.go, backend/usecase/errors.go and backend/repository/db_helpers.go: errors as
-- values. `errors.Is` compares identities, so each sentinel is a constructor. An error that
-- the program did not make itself (a driver's, a server's) is `external`; `canceled` is
-- `context.Canceled` or `context.DeadlineExceeded`; an anonymous `errors.New` or `fmt.Errorf` is
-- `other`.
use num_duel.Prelude.{ℕ, ◌≡◌, refl, ◌⊎◌, inl, inr}

pub data Err : Type 0 where
  bad_username bad_email weak_password bad_login_email bad_role : Err
  bad_game_status bad_digit bad_digit_length duplicate_digit : Err
  bad_matching_status bad_login_action bad_refresh_token : Err
  unauthorized forbidden not_found not_your_turn game_not_started : Err
  game_already_finished game_already_started duplicate_user : Err
  user_in_active_game already_in_matching user_already_deleted : Err
  cannot_delete_self cannot_delete_master rate_limit_exceeded : Err
  token_expired internal bad_request repo_not_found canceled : Err
  external other : ℕ → Err

pub data Result {ℓ} (A : Type ℓ) : Type ℓ where
  ok : A → Result A
  err : Err → Result A

-- `if err != nil { return err }` before the rest.
infixl 5 ◌>>=◌ ◌>>◌
abbrev pub ◌>>=◌ {ℓ κ} : {A : Type ℓ} {B : Type κ} (r : Result A) (rest : A → Result B) → Result B
err e >>= rest = err e
ok value >>= rest = rest value

abbrev pub ◌>>◌ {ℓ κ} : {A : Type ℓ} {B : Type κ} (r : Result A) (rest : Result B) → Result B
r >> rest = r >>= λ _. rest

-- A chain that succeeds has a first part that does.
pub >>=-eq-ok {ℓ κ} :
    {A : Type ℓ} {B : Type κ} (r : Result A) (rest : A → Result B) {last : B}
    → (r >>= rest) ≡ ok last
    → (value : A) × (r ≡ ok value) × (rest value ≡ ok last)
>>=-eq-ok (err e) rest same = cc
>>=-eq-ok (ok value) rest same = (value, refl, same)

pub Result-cases {ℓ} :
    {A : Type ℓ} (r : Result A) → ((a : A) × (r ≡ ok a)) ⊎ ((e : Err) × (r ≡ err e))
Result-cases (ok a) = inl (a, refl)
Result-cases (err e) = inr (e, refl)

pub ok_injective {ℓ} : {A : Type ℓ} {a b : A} → ok a ≡ ok b → a ≡ b
ok_injective h = cc

-- `mapRepoNotFound`; a nil error stays nil.
pub map_repo_not_found : Err → Err
map_repo_not_found repo_not_found = not_found
map_repo_not_found e = e

-- `mapValidationErr`
unfoldable pub map_validation_err : Err → Err
map_validation_err bad_username = bad_request
map_validation_err bad_email = bad_request
map_validation_err bad_login_email = bad_request
map_validation_err weak_password = bad_request
map_validation_err bad_digit = bad_request
map_validation_err bad_digit_length = bad_request
map_validation_err duplicate_digit = bad_request
map_validation_err e = e
