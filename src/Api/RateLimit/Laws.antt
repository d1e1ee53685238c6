-- ===== src/Api/RateLimit/Laws.antt =====
-- How many requests a limiter lets through.
use num_duel.Prelude.{
  ℕ, suc, ◌+◌, ◌≤◌, ◌<◌, ◌≡◌, refl, true, false, ◌&&◌, List, [], ◌∷◌, ◌++◌, length, ltb, leb,
  text_eq_iff, arith, if◌then◌else◌, Bool-cases, inl, inr,
}
use num_duel.Model.{Time, Text}
use num_duel.Api.RateLimit.{Hits, put_hits, keep_recent, allow, serve}

-- No request is older than one before it, or than the given time.
abbrev pub InOrder : Time → List Time → Type 0
InOrder past [] = Unit
InOrder past (t ∷ ts) = (past ≤ t) × InOrder t ts

-- How many of the times lie in the window that ends at the moment.
unfoldable pub in_window : ℕ → Time → List Time → ℕ
in_window window moment [] = 0
in_window window moment (t ∷ ts) =
    let rest = in_window window moment ts in
    if leb t moment && ltb moment (t + window) then suc rest else rest

keep_recent-append :
    (window n : ℕ) (xs ys : List Time)
    → keep_recent window n (xs ++ ys) ≡ keep_recent window n xs ++ keep_recent window n ys
unfolding keep_recent
keep_recent-append window n [] ys = refl
keep_recent-append window n (t ∷ xs) ys = ground (arith, keep_recent-append window n xs ys)

keep_recent-keep_recent :
    (window n m : ℕ) (xs : List Time)
    → n ≤ m
    → keep_recent window m (keep_recent window n xs) ≡ keep_recent window m xs
unfolding keep_recent
keep_recent-keep_recent window n m [] h = refl
keep_recent-keep_recent window n m (t ∷ xs) h =
    ground (arith, keep_recent-keep_recent window n m xs h)

in_window-append :
    (window m : ℕ) (xs ys : List Time)
    → in_window window m (xs ++ ys) ≡ in_window window m xs + in_window window m ys
unfolding in_window
in_window-append window m [] ys = omega arith
in_window-append window m (t ∷ xs) ys = ground (arith, in_window-append window m xs ys)

in_window-keep_recent :
    (window now m : ℕ) (xs : List Time)
    → now ≤ m
    → in_window window m xs ≤ length (keep_recent window now xs)
unfolding in_window keep_recent
in_window-keep_recent window now m [] h = omega arith
in_window-keep_recent window now m (t ∷ xs) h =
    ground (arith, in_window-keep_recent window now m xs h)

-- The limiter remembers every request that was let through and may still count.
abbrev Remembers : Text → ℕ → Time → Hits → List Time → Type 0
Remembers key window past hits granted =
    (n : Time) → past ≤ n → keep_recent window n (hits key) ≡ keep_recent window n granted

abbrev Bounded : ℕ → ℕ → List Time → Type 0
Bounded limit window granted = (m : Time) → in_window window m granted ≤ limit

grant-Bounded :
    (limit window now : ℕ) (granted : List Time)
    → length (keep_recent window now granted) < limit
    → Bounded limit window granted
    → Bounded limit window (granted ++ now ∷ [])
unfolding in_window
grant-Bounded limit window now granted room all m = ground (
  arith,
  in_window-append window m granted (now ∷ []),
  all m,
  in_window-keep_recent window now m granted,
)

module _ (key : Text) (limit window : ℕ) (some_limit : 1 ≤ limit) where
  put_hits-same : (hits : Hits) (ts : List Time) → put_hits hits key ts key ≡ ts
  put_hits-same hits ts = ground (arith, text_eq_iff key key)

  allow-full :
      (now : Time) (hits : Hits)
      → leb limit (length (keep_recent window now (hits key))) ≡ true
      → allow key limit window now hits
        ≡ (false, put_hits hits key (keep_recent window now (hits key)))
  unfolding allow
  allow-full now hits full = ground arith

  allow-room :
      (now : Time) (hits : Hits)
      → leb limit (length (keep_recent window now (hits key))) ≡ false
      → allow key limit window now hits
        ≡ (true, put_hits hits key (keep_recent window now (hits key) ++ now ∷ []))
  unfolding allow
  allow-room now hits room = ground arith

  refuse-Remembers :
      (past now : Time) (hits : Hits) (granted : List Time)
      → past ≤ now
      → Remembers key window past hits granted
      → Remembers key window now (put_hits hits key (keep_recent window now (hits key))) granted
  refuse-Remembers past now hits granted h known n later =
      rw
        (
          put_hits-same hits (keep_recent window now (hits key)),
          keep_recent-keep_recent window now n (hits key) later,
        )
        (known n (omega arith))

  grant-Remembers :
      (past now : Time) (hits : Hits) (granted : List Time)
      → past ≤ now
      → Remembers key window past hits granted
      → Remembers key window now
          (put_hits hits key (keep_recent window now (hits key) ++ now ∷ []))
          (granted ++ now ∷ [])
  grant-Remembers past now hits granted h known n later =
      rw
        (
          put_hits-same hits (keep_recent window now (hits key) ++ now ∷ []),
          keep_recent-append window n (keep_recent window now (hits key)) (now ∷ []),
          keep_recent-append window n granted (now ∷ []),
          keep_recent-keep_recent window now n (hits key) later,
          known n (omega arith),
        )
        refl

  serve-Bounded :
      (requests : List Time) (past : Time) (hits : Hits) (granted : List Time)
      → InOrder past requests
      → Remembers key window past hits granted
      → Bounded limit window granted
      → Bounded limit window (serve key limit window requests hits granted).1
  unfolding serve
  serve-Bounded [] past hits granted order known all = all
  serve-Bounded (now ∷ later) past hits granted order known all =
      elim (Bool-cases (leb limit (length (keep_recent window now (hits key))))) [
        | inl full ↦
            rw (serve, allow-full now hits full)
              (serve-Bounded later now (put_hits hits key (keep_recent window now (hits key)))
                granted order.1 (refuse-Remembers past now hits granted order.0 known) all)
        | inr room ↦
            let open_slots : length (keep_recent window now (hits key)) < limit = ground arith in
            let few = rw (known now order.0) at open_slots in
            rw (serve, allow-room now hits room)
              (serve-Bounded later now
                (put_hits hits key (keep_recent window now (hits key) ++ now ∷ []))
                (granted ++ now ∷ []) order.1 (grant-Remembers past now hits granted order.0 known)
                (grant-Bounded limit window now granted few all))
      ]

-- However the requests of a key arrive, in the order of the clock and starting with an empty
-- limiter whose limit is at least 1, no window of the limiter's length has more granted requests
-- than the limit.
pub serve-in_window :
    (key : Text) (limit window : ℕ) (requests : List Time) (moment : Time)
    → 1 ≤ limit
    → InOrder 0 requests
    → in_window window moment (serve key limit window requests (λ k. []) []).1 ≤ limit
unfolding in_window
serve-in_window key limit window requests moment h order =
    serve-Bounded key limit window h requests 0 (λ k. []) [] order (λ n _. refl) (λ m. omega arith)
      moment
