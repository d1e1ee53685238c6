-- ===== src/Api/RateLimit.antt =====
-- backend/middleware/rate_limit.go: the sliding window of one limiter. The map is a function, empty
-- where a key is missing.
pub mod Laws
use num_duel.Prelude.{
  ℕ, ◌+◌, Bool, true, false, List, [], ◌∷◌, ◌++◌, length, ltb, leb, ◌==◌, text_eq, if◌then◌else◌,
  Option, none, some,
}
use num_duel.Model.{Time, Text}

abbrev pub Hits : Type 0
Hits = Text → List Time

abbrev pub put_hits : Hits → Text → List Time → Hits
put_hits hits key times k = if text_eq k key then times else hits k

-- `kept`: the hits whose age is less than the window.
unfoldable pub keep_recent : ℕ → Time → List Time → List Time
keep_recent window now [] = []
keep_recent window now (t ∷ ts) =
    let rest = keep_recent window now ts in if ltb now (t + window) then t ∷ rest else rest

-- `allow`; the clock's reading is an argument, and a limit below 1 is 0.
unfoldable pub allow : Text → ℕ → ℕ → Time → Hits → Bool × Hits
unfolding keep_recent
allow key limit window now hits =
    let kept = keep_recent window now (hits key) in
    if limit == 0
    then (true, hits)
    else if leb limit (length kept)
    then (false, put_hits hits key kept)
    else (true, put_hits hits key (kept ++ now ∷ []))

-- The requests of one key, oldest first, and the times of those that were let through.
unfoldable pub serve : Text → ℕ → ℕ → List Time → Hits → List Time → Hits × List Time
unfolding allow
serve key limit window [] hits let_through = (hits, let_through)
serve key limit window (now ∷ later) hits let_through =
    let (granted, hits') = allow key limit window now hits in
    serve key limit window later hits' (if granted then let_through ++ now ∷ [] else let_through)
