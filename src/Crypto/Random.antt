-- ===== src/Crypto/Random.antt =====
-- backend/crypto/random.go: a random guess by four rounds of a Fisher-Yates shuffle. `crypto/rand.Int`
-- is an argument: for the call's number and a bound it fails or gives a number.
pub mod Laws
use num_duel.Prelude.{
  ℕ, zero, suc, ◌+◌, ◌-◌, List, [], ◌∷◌, ◌++◌, length, get_or, set, ltb, if◌then◌else◌,
}
use num_duel.Model.{Text, Result, ok, err, other, ◌>>=◌}
use num_duel.Crypto.Secret.{decimal}

abbrev pub full_pool : List ℕ
full_pool = 0 ∷ 1 ∷ 2 ∷ 3 ∷ 4 ∷ 5 ∷ 6 ∷ 7 ∷ 8 ∷ 9 ∷ []

-- `pool[i], pool[j] = pool[j], pool[i]`
unfoldable pub swap : ℕ → ℕ → List ℕ → List ℕ
swap i j pool = set (set pool i (get_or pool j 0)) j (get_or pool i 0)

module _ (rand : ℕ → ℕ → Result ℕ) where
  unfoldable pub rand_int : ℕ → ℕ → ℕ → Result ℕ
  rand_int call min max =
      if ltb max min then err (other 0) else do n ← rand call (max - min + 1); ok (min + n)

  -- The rounds that are left, and the round's index.
  unfoldable pub shuffle : ℕ → ℕ → List ℕ → Result (List ℕ)
  unfolding rand_int swap
  shuffle zero i pool = ok pool
  shuffle (suc rounds) i pool =
      rand_int i i (length pool - 1) >>= λ j. shuffle rounds (suc i) (swap i j pool)

  unfoldable pub generate_guess_number : Result Text
  unfolding shuffle decimal
  generate_guess_number = do
    pool ← shuffle 4 0 full_pool
    ok (
        decimal (get_or pool 0 0)
        ++ (decimal (get_or pool 1 0) ++ (decimal (get_or pool 2 0) ++ decimal (get_or pool 3 0))))
