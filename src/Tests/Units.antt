-- ===== src/Tests/Units.antt =====
-- Examples: digits, random guesses and the timeout of the setup.
use num_duel.Prelude.{ℕ, ◌<◌, ◌≡◌, ◌↔◌, refl, some, [], ◌∷◌, arith, ◌==◌, if◌then◌else◌}
use num_duel.Model.{Text, Four, Game, Result, ok, err, other, finished, is_waiting_secret}
use num_duel.World.{World}
use num_duel.Crypto.Secret.{decimal}
use num_duel.Crypto.Random.{shuffle, swap, rand_int, generate_guess_number}
use num_duel.Crypto.Random.Laws.{InRange, generate-total}
use num_duel.Game.Validate.{validate_four_digits}
use num_duel.Game.Validate.Laws.{IsSecret, spell, validate_iff}
use num_duel.Game.Rules.{cancel_game_by_secret_timeout}
use num_duel.Game.Timeout.{cancel_tx}
use num_duel.Tests.Memory.{env, digits, waiting, world, use_case}

validate_iff_example :
    (validate_four_digits (49 ∷ 48 ∷ 50 ∷ 51 ∷ []) ≡ ok (digits 1 0 2 3))
    ↔ ((49 ∷ 48 ∷ 50 ∷ 51 ∷ [] ≡ spell (digits 1 0 2 3)) × IsSecret (digits 1 0 2 3))
validate_iff_example = validate_iff (49 ∷ 48 ∷ 50 ∷ 51 ∷ []) (digits 1 0 2 3)

-- The least random number there is, for a bound that allows one.
abbrev least : ℕ → ℕ → Result ℕ
least call bound = if bound == 0 then err (other 9) else ok 0

least-made : generate_guess_number least ≡ ok (48 ∷ 49 ∷ 50 ∷ 51 ∷ [])
unfolding generate_guess_number shuffle swap rand_int decimal
least-made = refl

least-InRange : InRange least
least-InRange call bound n h = ground arith

least-answers : (call bound : ℕ) → 0 < bound → (n : ℕ) × (least call bound ≡ ok n)
least-answers call bound h = (0, ground arith)

generate-total_example :
    (s : Text) × (f : Four ℕ) × (generate_guess_number least ≡ ok s)
    × (validate_four_digits s ≡ ok f)
generate-total_example = generate-total least least-InRange least-answers

abbrev late : Game
late = record waiting { status = finished; finished_at = some 1000; updated_at = 1000 }

abbrev cancelled : World
cancelled = (cancel_tx env use_case 10 1000 (world waiting)).1

cancelled-ok : cancel_tx env use_case 10 1000 (world waiting) ≡ (ok (some late), cancelled)
unfolding cancel_tx cancel_game_by_secret_timeout is_waiting_secret
cancelled-ok = refl
