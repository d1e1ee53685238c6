-- ===== src/Tests/Requests.antt =====
-- Examples: answers, the limiter and the queue.
use num_duel.Prelude.{◌≤◌, ◌≡◌, ◌≢◌, refl, some, List, [], ◌∷◌, arith}
use num_duel.Model.{
  Uuid, Time, Game, MatchingQueueEntry, ok, err, bad_request, is_deleted, is_master,
}
use num_duel.World.{World, with_tx}
use num_duel.Api.RateLimit.{serve}
use num_duel.Api.RateLimit.Laws.{in_window, InOrder, serve-in_window}
use num_duel.Matching.{
  first_active, find_active_game_for_user, matching_player_ready, new_match, match_second,
  match_entries, create_match, match_players, start_tx,
}
use num_duel.Matching.Laws.{queue_heads, Ready, Matches, match_players-Matches, start_tx-blocked}
use num_duel.Tests.Memory.{env, env-RollsBack, playing, world}

abbrev requests : List Time
requests = 1 ∷ 2 ∷ 3 ∷ 70 ∷ []

requests-InOrder : InOrder 0 requests
requests-InOrder = (omega arith, (omega arith, (omega arith, (omega arith, tt))))

serve-in_window_example : in_window 60 3 (serve (65 ∷ []) 2 60 requests (λ k. []) []).1 ≤ 2
serve-in_window_example = serve-in_window (65 ∷ []) 2 60 requests 3 (omega arith) requests-InOrder

abbrev entry : Uuid → Uuid → Time → MatchingQueueEntry
entry id user at = record { id = id; user_id = user; created_at = at }

-- Both players wait, and there is no game.
abbrev queued : List MatchingQueueEntry → World
queued entries =
    let w = world playing in record w { db = record w.db { games = []; queue = entries } }

abbrev pair : World
pair = queued (entry 51 2 4 ∷ entry 50 1 3 ∷ [])

abbrev made : Game
made = new_match 106 1005 (entry 50 1 3) (entry 51 2 4)

pair-ok : match_players env pair ≡ (ok (some made), (match_players env pair).1)
unfolding match_players match_entries match_second matching_player_ready create_match
    find_active_game_for_user first_active is_deleted is_master
pair-ok = refl

match_players-Matches_example :
    (p1 p2 : MatchingQueueEntry) × (rest : List MatchingQueueEntry) × (queue_heads env pair.db
      ≡ p1 ∷ p2 ∷ rest)
    × (p1.user_id ≢ p2.user_id)
    × Ready env pair.db p1.user_id
    × Ready env pair.db p2.user_id
    × Matches env p1 p2 made pair.db (match_players env pair).1.db
match_players-Matches_example =
    match_players-Matches env pair (match_players env pair).1 made pair-ok

-- The player 1 has two entries.
abbrev twice : World
twice = queued (entry 50 1 3 ∷ entry 51 1 4 ∷ [])

start_tx-blocked_example :
    ((with_tx env (start_tx env 2 9) twice).0 ≡ err bad_request)
    × ((with_tx env (start_tx env 2 9) twice).1.db ≡ twice.db)
start_tx-blocked_example =
    start_tx-blocked env 2 9 twice (entry 50 1 3 ∷ entry 51 1 4 ∷ entry 100 2 9 ∷ []) (entry 50 1 3)
      (entry 51 1 4) [] env-RollsBack refl refl refl refl refl
