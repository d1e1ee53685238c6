-- ===== src/Session/Validate.antt =====
-- backend/usecase/user_validate.go. A text is measured in bytes, as `len` does.
use num_duel.Prelude.{
  ℕ, Bool, true, false, not, ◌&&◌, ◌||◌, [], ◌∷◌, length, contains, ltb, leb, ◌==◌, if◌then◌else◌,
}
use num_duel.Model.{Text, Result, ok, err, bad_username, bad_email, weak_password, bad_login_email}

-- `[a-zA-Z0-9_]`
abbrev pub username_char : ℕ → Bool
username_char c =
    (leb 97 c && leb c 122) || (leb 65 c && leb c 90) || (leb 48 c && leb c 57) || c == 95

unfoldable pub all_username_chars : Text → Bool
all_username_chars [] = true
all_username_chars (c ∷ cs) = username_char c && all_username_chars cs

-- `strings.HasPrefix(s, "@")` and `strings.HasSuffix(s, "@")`
abbrev pub starts_with_at : Text → Bool
starts_with_at [] = false
starts_with_at (c ∷ cs) = c == 64

unfoldable pub ends_with_at : Text → Bool
ends_with_at [] = false
ends_with_at (c ∷ []) = c == 64
ends_with_at (c ∷ d ∷ cs) = ends_with_at (d ∷ cs)

unfoldable pub validate_username : Text → Result (Unit {0})
unfolding all_username_chars
validate_username s =
    if ltb (length s) 3 || ltb 50 (length s) || not (all_username_chars s)
    then err bad_username
    else ok tt

unfoldable pub validate_email : Text → Result (Unit {0})
validate_email s = if length s == 0 || ltb 255 (length s) then err bad_email else ok tt

unfoldable pub validate_password : Text → Result (Unit {0})
validate_password s = if ltb (length s) 8 then err weak_password else ok tt

unfoldable pub validate_login_email : Text → Result (Unit {0})
unfolding ends_with_at
validate_login_email s =
    if length s == 0 || ltb 50 (length s)
    then err bad_login_email
    else if not (contains 64 s) || starts_with_at s || ends_with_at s
    then err bad_login_email
    else ok tt
