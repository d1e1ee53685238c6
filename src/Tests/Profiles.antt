-- ===== src/Tests/Profiles.antt =====
-- Examples: the pages of a history with one match.
use num_duel.Prelude.{ℕ, suc, ◌≡◌, refl, [], ◌∷◌, List, map, arith}
use num_duel.Model.{MatchHistory, ok, is_deleted}
use num_duel.World.{World}
use num_duel.Repository.Pages.{page_rows, history_of}
use num_duel.Profile.{MatchHistoryItem, match_history_item, present_user, get_match_history}
use num_duel.Profile.Laws.{join, get_match_history-pages}
use num_duel.Game.Play.Facts.{history_row}
use num_duel.Tests.Memory.{env, playing, world}

abbrev match : MatchHistory
match = history_row 3 10 1 2 (65 ∷ []) (66 ∷ []) 20

abbrev matched_world : World
matched_world = let w = world playing in record w { db = record w.db { histories = match ∷ [] } }

abbrev shown : ℕ → List MatchHistoryItem
shown k = map match_history_item (page_rows (suc k) 2 (match ∷ []))

abbrev after : ℕ → World
after k = (get_match_history env 1 (suc k) 2 matched_world).1

page-shown : (k : ℕ) → get_match_history env 1 (suc k) 2 matched_world ≡ (ok (shown k, 1), after k)
unfolding get_match_history present_user is_deleted
page-shown k = refl

get_match_history-pages_example :
    join shown 1
    ≡ map match_history_item
        (env.histories.find_latest (λ h. h.finished_at) (history_of 1) (match ∷ []))
get_match_history-pages_example =
    get_match_history-pages env 1 2 (match ∷ []) (λ k. matched_world) after shown (λ k. 1)
      (λ k. refl) page-shown (omega arith) 1 (omega arith) (omega arith)
