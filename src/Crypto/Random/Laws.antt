-- ===== src/Crypto/Random/Laws.antt =====
-- The generator's guesses pass the validation of a player's guess.
use num_duel.Prelude.{
  ℕ, zero, suc, ◌+◌, ◌-◌, ◌≤◌, ◌<◌, ◌≡◌, ◌≢◌, refl, sym, inl, inr, List, [], ◌∷◌, ◌++◌, length,
  get_or, set, length-set, get_or-set, arith, ltb, ◌==◌, if◌then◌else◌, Bool-cases,
}
use num_duel.Model.{Result, ok, ok_injective, >>=-eq-ok, Four, Text}
use num_duel.Game.Validate.{validate_four_digits}
use num_duel.Game.Validate.Laws.{IsSecret, spell, validate-spell}
use num_duel.Crypto.Secret.{decimal}
use num_duel.Crypto.Random.{full_pool, swap, rand_int, shuffle, generate_guess_number}

-- Ten different digits.
pub record IsPool (pool : List ℕ) : Type 0 where
  pub size : length pool ≡ 10
  pub digits : (a : ℕ) → a < 10 → get_or pool a 0 ≤ 9
  pub distinct : (a b : ℕ) → a < 10 → b < 10 → a ≢ b → get_or pool a 0 ≢ get_or pool b 0

full_pool-get : (a : ℕ) → a < 10 → get_or full_pool a 0 ≡ a
full_pool-get a h = ground arith

get_or-swap :
    (i j a : ℕ) (pool : List ℕ)
    → i < length pool
    → j < length pool
    → get_or (swap i j pool) a 0
      ≡ (if j == a then get_or pool i 0 else if i == a then get_or pool j 0 else get_or pool a 0)
unfolding swap
get_or-swap i j a pool hi hj = rw (
  get_or-set (set pool i (get_or pool j 0)) j a (get_or pool i 0) 0
      (omega (arith, length-set pool i (get_or pool j 0))),
  get_or-set pool i a (get_or pool j 0) 0 hi,
)

-- Where the entry at `a` comes from.
abbrev origin : ℕ → ℕ → ℕ → ℕ
origin i j a = if j == a then i else if i == a then j else a

origin_lt : (i j a : ℕ) → i < 10 → j < 10 → a < 10 → origin i j a < 10
origin_lt i j a hi hj ha = ground arith

origin_injective : (i j a b : ℕ) → origin i j a ≡ origin i j b → a ≡ b
origin_injective i j a b h = ground arith

get_or-origin :
    (i j a : ℕ) (pool : List ℕ)
    → i < 10
    → j < 10
    → IsPool pool
    → get_or (swap i j pool) a 0 ≡ get_or pool (origin i j a) 0
get_or-origin i j a pool hi hj v =
    ground (arith, get_or-swap i j a pool (omega (arith, v.size)) (omega (arith, v.size)))

length-swap : (i j : ℕ) (pool : List ℕ) → length (swap i j pool) ≡ length pool
unfolding swap
length-swap i j pool =
    rw (length-set (set pool i (get_or pool j 0)) j (get_or pool i 0)) (length-set pool i _)

swap-IsPool : (i j : ℕ) (pool : List ℕ) → i < 10 → j < 10 → IsPool pool → IsPool (swap i j pool)
swap-IsPool i j pool hi hj v = record {
  size = omega (arith, length-swap i j pool, v.size);
  digits = λ a h.
      rw (get_or-origin i j a pool hi hj v) (v.digits (origin i j a) (origin_lt i j a hi hj h));
  distinct = λ a b ha hb ne.
      rw (get_or-origin i j a pool hi hj v, get_or-origin i j b pool hi hj v)
        (v.distinct (origin i j a) (origin i j b) (origin_lt i j a hi hj ha)
          (origin_lt i j b hi hj hb) (λ e. ne (origin_injective i j a b e)));
}

full_pool-IsPool : IsPool full_pool
full_pool-IsPool = record {
  size = refl;
  digits = λ a h. omega (arith, full_pool-get a h);
  distinct = λ a b ha hb ne e. ne (omega (arith, full_pool-get a ha, full_pool-get b hb, e));
}

pub decimal_digit : (n : ℕ) → n ≤ 9 → decimal n ≡ (48 + n) ∷ []
unfolding decimal
decimal_digit n h = ground arith

-- The first four entries of a pool.
abbrev first_four : List ℕ → Four ℕ
first_four pool = record {
  d0 = get_or pool 0 0;
  d1 = get_or pool 1 0;
  d2 = get_or pool 2 0;
  d3 = get_or pool 3 0;
}

first_four-IsSecret : (pool : List ℕ) → IsPool pool → IsSecret (first_four pool)
first_four-IsSecret pool v = record {
  le0 = v.digits 0 (omega arith);
  le1 = v.digits 1 (omega arith);
  le2 = v.digits 2 (omega arith);
  le3 = v.digits 3 (omega arith);
  ne01 = v.distinct 0 1 (omega arith) (omega arith) (omega arith);
  ne02 = v.distinct 0 2 (omega arith) (omega arith) (omega arith);
  ne03 = v.distinct 0 3 (omega arith) (omega arith) (omega arith);
  ne12 = v.distinct 1 2 (omega arith) (omega arith) (omega arith);
  ne13 = v.distinct 1 3 (omega arith) (omega arith) (omega arith);
  ne23 = v.distinct 2 3 (omega arith) (omega arith) (omega arith);
}

-- What `crypto/rand.Int` promises: a number below the bound.
abbrev pub InRange : (ℕ → ℕ → Result ℕ) → Type 0
InRange rand = (call bound n : ℕ) → rand call bound ≡ ok n → n < bound

module _ (rand : ℕ → ℕ → Result ℕ) (in_range : InRange rand) where
  rand_int-range : (call min j : ℕ) → min ≤ 9 → rand_int rand call min 9 ≡ ok j → j < 10
  unfolding rand_int
  rand_int-range call min j h e = elim (Bool-cases (ltb 9 min)) [
    | inl bad ↦ ground arith
    | inr good ↦
        let (n, drawn, sum) =
          >>=-eq-ok (rand call (9 - min + 1)) (λ n. ok (min + n)) (rw good at e) in
        omega (arith, in_range call (9 - min + 1) n drawn, ok_injective sum)
  ]

  shuffle-IsPool :
      (rounds i : ℕ) (pool after : List ℕ)
      → i + rounds ≤ 10
      → IsPool pool
      → shuffle rand rounds i pool ≡ ok after
      → IsPool after
  unfolding shuffle
  shuffle-IsPool zero i pool after h v e = rw (ok_injective e) at v
  shuffle-IsPool (suc rounds) i pool after h v e =
      let (j, drawn, rest) =
        >>=-eq-ok (rand_int rand i i (length pool - 1))
          (λ j. shuffle rand rounds (suc i) (swap i j pool)) e in
      let hj = rand_int-range i i j (omega arith) (rw v.size at drawn) in
      shuffle-IsPool rounds (suc i) (swap i j pool) after (omega arith)
        (swap-IsPool i j pool (omega arith) hj v) rest

  -- While the source of random numbers stays below its bound, a guess that the generator returns
  -- spells four different decimal digits, and the validation of guesses accepts it.
  pub generate-valid :
      (s : Text)
      → generate_guess_number rand ≡ ok s
      → (f : Four ℕ) × IsSecret f × (s ≡ spell f) × (validate_four_digits s ≡ ok f)
  unfolding generate_guess_number
  generate-valid s e =
      let (pool, shuffled, text) = >>=-eq-ok (shuffle rand 4 0 full_pool) _ e in
      let v = shuffle-IsPool 4 0 full_pool pool (omega arith) full_pool-IsPool shuffled in
      let secret = first_four-IsSecret pool v in
      let spelled : s ≡ spell (first_four pool) =
        rw
          (
            decimal_digit (get_or pool 0 0) secret.le0,
            decimal_digit (get_or pool 1 0) secret.le1,
            decimal_digit (get_or pool 2 0) secret.le2,
            decimal_digit (get_or pool 3 0) secret.le3,
          )
          at (sym (ok_injective text)) in
      (first_four pool, secret, spelled, rw spelled (validate-spell (first_four pool) secret))

  module _ (answers : (call bound : ℕ) → 0 < bound → (n : ℕ) × (rand call bound ≡ ok n)) where
    rand_int-total : (call min : ℕ) → min ≤ 9 → (j : ℕ) × (rand_int rand call min 9 ≡ ok j)
    unfolding rand_int
    rand_int-total call min h =
        let (n, e) = answers call (9 - min + 1) (omega arith) in (min + n, rw e (ground arith))

    shuffle-total :
        (rounds i : ℕ) (pool : List ℕ)
        → i + rounds ≤ 10
        → length pool ≡ 10
        → (after : List ℕ) × (shuffle rand rounds i pool ≡ ok after)
    unfolding shuffle
    shuffle-total zero i pool h size = (pool, refl)
    shuffle-total (suc rounds) i pool h size =
        let (j, e) = rand_int-total i i (omega arith) in
        let (after, rest) =
          shuffle-total rounds (suc i) (swap i j pool) (omega arith)
            (omega (arith, length-swap i j pool, size)) in
        (after, rw (size, e) rest)

    -- While the source of random numbers answers every positive bound, with numbers below the
    -- bound, the generator returns a guess that the validation of guesses accepts.
    pub generate-total :
        (s : Text) × (f : Four ℕ) × (generate_guess_number rand ≡ ok s)
        × (validate_four_digits s ≡ ok f)
    unfolding generate_guess_number
    generate-total =
        let (pool, e) = shuffle-total 4 0 full_pool (omega arith) refl in
        let text : Text =
          decimal (get_or pool 0 0)
          ++ (decimal (get_or pool 1 0)
              ++ (decimal (get_or pool 2 0) ++ decimal (get_or pool 3 0))) in
        let made : generate_guess_number rand ≡ ok text = rw e in
        let (f, _, _, valid) = generate-valid text made in (text, f, made, valid)
