-- ===== src/Matching/Laws.antt =====
-- Who is matched with whom.
use num_duel.Prelude.{
  suc, ◌≡◌, ◌≢◌, refl, ap, ◌∙◌, inl, inr, Bool, true, false, none, some, List, [], ◌∷◌, take, arith,
  Option-cases, Bool-cases, ◌==◌, if◌then◌else◌,
}
use num_duel.Model.{
  Uuid, Time, Game, User, MatchingQueueEntry, ok, err, bad_request, is_deleted, is_master,
  both_secrets_set,
}
use num_duel.World.{
  Env, RollsBack, World, Tables, tick, with_tx, with_tx-err, end_tx, bind-ok, >>=-eq-ok, pure, ◌>>◌,
}
use num_duel.Repository.Games.{
  game_has_player, any_entry, entry_in, insert_entry, list_waiting_for_update,
}
use num_duel.Repository.Users.{user_has_id}
use num_duel.Game.Rules.Lifecycle.{IsValid}
use num_duel.Matching.{
  first_active, find_active_game_for_user, matching_player_ready, create_match, new_match,
  match_second, match_entries, match_players, start_tx, remove_queue_entries,
}

-- The queue, oldest first.
abbrev pub queue_heads : Env → Tables → List MatchingQueueEntry
queue_heads env db = take 2 (env.queue.find_in_order (λ e. e.created_at) any_entry db.queue)

-- A player who may be matched: known, neither deleted nor a master, and in no game that runs.
abbrev pub Ready : Env → Tables → Uuid → Type 0
Ready env db u =
    (row : User) × (env.users.first (user_has_id u) db.users ≡ some row)
    × (is_deleted row ≡ false)
    × (is_master row ≡ false)
    × (first_active (env.games.find (game_has_player u) db.games) ≡ none)

matching_player_ready-Ready :
    (env : Env) (u : Uuid) (w w' : World)
    → matching_player_ready env u w ≡ (ok true, w')
    → Ready env w.db u × (w'.db ≡ w.db)
unfolding matching_player_ready find_active_game_for_user
matching_player_ready-Ready env u w w' h =
    elim (Option-cases (env.users.first (user_has_id u) w.db.users)) [
      | inl gone ↦ absurd (ground arith)
      | inr (row, found) ↦
          elim (Option-cases (first_active (env.games.find (game_has_player u) w.db.games))) [
            | inl free ↦ ((row, found, ground arith, ground arith, free), ground arith)
            | inr (g, busy) ↦ absurd (ground arith)
          ]
    ]

new_match-IsValid :
    (id : Uuid) (now : Time) (p1 p2 : MatchingQueueEntry)
    → p1.user_id ≢ p2.user_id
    → IsValid (new_match id now p1 p2)
unfolding both_secrets_set
new_match-IsValid id now p1 p2 ne = ground arith

-- What a match is made of: the two entries, and what becomes of the tables.
abbrev pub Matches : Env → MatchingQueueEntry → MatchingQueueEntry → Game → Tables → Tables → Type 0
Matches env p1 p2 g db db' =
    (g.player1_id ≡ p1.user_id)
    × (g.player2_id ≡ p2.user_id)
    × IsValid g
    × (games : List Game) × (env.games.create g db.games ≡ some games)
    × (db' ≡ record db {
      games = games;
      queue = env.queue.delete (entry_in (p1.id ∷ p2.id ∷ [])) db.queue;
    })

create_match-Matches :
    (env : Env) (p1 p2 : MatchingQueueEntry) (w w' : World) (g : Game)
    → p1.user_id ≢ p2.user_id
    → create_match env p1 p2 w ≡ (ok (some g), w')
    → Matches env p1 p2 g w.db w'.db
unfolding create_match
create_match-Matches env p1 p2 w w' g ne h =
    let game = new_match (env.fresh (suc w.calls)) (env.now w.calls) p1 p2 in
    elim (Option-cases (env.games.create game w.db.games)) [
      | inl refused ↦ absurd (ground arith)
      | inr (games, made) ↦
          let same : g ≡ game = (ground arith) in
          let valid = new_match-IsValid (env.fresh (suc w.calls)) (env.now w.calls) p1 p2 ne in
          (rw same refl, rw same refl, rw same valid, games, rw same made, (ground arith))
    ]

match_second-Matches :
    (env : Env) (p1 p2 : MatchingQueueEntry) (w w' : World) (g : Game) (ready : Bool)
    → p1.user_id ≢ p2.user_id
    → match_second env p1 p2 ready w ≡ (ok (some g), w')
    → (ready ≡ true) × Ready env w.db p2.user_id × Matches env p1 p2 g w.db w'.db
unfolding match_second
match_second-Matches env p1 p2 w w' g true ne h =
    let (answer, v, asked, rest) =
      >>=-eq-ok (matching_player_ready env p2.user_id)
        (λ ok2.
          if ok2
          then create_match env p1 p2
          else (remove_queue_entries env (p2.id ∷ []) >> pure none))
        w h in
    elim (Bool-cases answer) [
      | inl is_ready ↦
          let (ready2, same) =
            matching_player_ready-Ready env p2.user_id w v (rw is_ready at asked) in
          let made = create_match-Matches env p1 p2 v w' g ne (rw is_ready at rest) in
          (refl, ready2, rw same at made)
      | inr unready ↦ let none_made = rw unready at rest in absurd (ground arith)
    ]
match_second-Matches env p1 p2 w w' g false ne h = absurd (ground arith)

match_entries-Matches :
    (env : Env) (entries : List MatchingQueueEntry) (w w' : World) (g : Game)
    → match_entries env entries w ≡ (ok (some g), w')
    → (p1 p2 : MatchingQueueEntry) × (rest : List MatchingQueueEntry) × (entries ≡ p1 ∷ p2 ∷ rest)
      × (p1.user_id ≢ p2.user_id)
      × Ready env w.db p1.user_id
      × Ready env w.db p2.user_id
      × Matches env p1 p2 g w.db w'.db
unfolding match_entries
match_entries-Matches env [] w w' g h = absurd (ground arith)
match_entries-Matches env (p1 ∷ []) w w' g h = absurd (ground arith)
match_entries-Matches env (p1 ∷ p2 ∷ rest) w w' g h = elim (Bool-cases (p1.user_id == p2.user_id)) [
  | inl same ↦ let refused = rw same at h in absurd (ground arith)
  | inr other ↦
      let ne : p1.user_id ≢ p2.user_id = ground arith in
      let (ready, v, asked, more) =
        >>=-eq-ok (matching_player_ready env p1.user_id) (match_second env p1 p2) w
          (rw other at h) in
      let (is_ready, ready2, made) = match_second-Matches env p1 p2 v w' g ready ne more in
      let (ready1, kept) = matching_player_ready-Ready env p1.user_id w v (rw is_ready at asked) in
      (p1, p2, rest, refl, ne, ready1, rw kept at ready2, rw kept at made)
]

-- When a match is made, it is between the two oldest entries of the queue, of two different
-- users; each of them is known, neither deleted nor a master, and in no game that runs; the new
-- row is a valid game of the two, and their entries are deleted.
pub match_players-Matches :
    (env : Env) (w w' : World) (g : Game)
    → match_players env w ≡ (ok (some g), w')
    → (p1 p2 : MatchingQueueEntry) × (rest : List MatchingQueueEntry) × (queue_heads env w.db
        ≡ p1 ∷ p2 ∷ rest)
      × (p1.user_id ≢ p2.user_id)
      × Ready env w.db p1.user_id
      × Ready env w.db p2.user_id
      × Matches env p1 p2 g w.db w'.db
unfolding match_players
match_players-Matches env w w' g h =
    let (entries, v, read, rest) =
      >>=-eq-ok (list_waiting_for_update env 2) (match_entries env) w h in
    let heads : queue_heads env w.db ≡ entries = ground arith in
    let kept : v.db ≡ w.db = ground arith in
    let (p1, p2, more, eq, ne, ready1, ready2, made) =
      match_entries-Matches env entries v w' g rest in
    (p1, p2, more, heads ∙ eq, ne, rw kept at ready1, rw kept at ready2, rw kept at made)

match_players-same_user :
    (env : Env) (w : World) (p1 p2 : MatchingQueueEntry) (rest : List MatchingQueueEntry)
    → env.fails w.calls ≡ false
    → queue_heads env w.db ≡ p1 ∷ p2 ∷ rest
    → p1.user_id ≡ p2.user_id
    → match_players env w ≡ (err bad_request, tick w)
unfolding match_players match_entries
match_players-same_user env w p1 p2 rest up heads same = ground arith

insert_entry-ok :
    (env : Env) (e : MatchingQueueEntry) (w : World) (queue : List MatchingQueueEntry)
    → env.fails w.calls ≡ false
    → env.queue.create e w.db.queue ≡ some queue
    → insert_entry env e w ≡ (ok tt, tick (record w { db = record w.db { queue = queue } }))
insert_entry-ok env e w queue up made = ground arith

-- While the two oldest entries of the queue are of one user once the caller's entry is stored,
-- and the database answers, the transaction of Start is refused with the error of a bad request
-- and the tables stay as they were, those entries included, given that a transaction which fails
-- is rolled back.
pub start_tx-blocked :
    (env : Env) (user : Uuid) (now : Time) (w : World) (queue : List MatchingQueueEntry)
    (p1 p2 : MatchingQueueEntry) (rest : List MatchingQueueEntry)
    → RollsBack env
    → env.fails (suc w.calls) ≡ false
    → env.fails (suc (suc w.calls)) ≡ false
    → env.queue.create
        (record { id = env.fresh w.calls; user_id = user; created_at = now })
        w.db.queue
      ≡ some queue
    → queue_heads env (record w.db { queue = queue }) ≡ p1 ∷ p2 ∷ rest
    → p1.user_id ≡ p2.user_id
    → ((with_tx env (start_tx env user now) w).0 ≡ err bad_request)
      × ((with_tx env (start_tx env user now) w).1.db ≡ w.db)
unfolding with_tx start_tx
start_tx-blocked env user now w queue p1 p2 rest law up1 up2 made heads same =
    let e : MatchingQueueEntry = record {
      id = env.fresh w.calls;
      user_id = user;
      created_at = now;
    } in
    let stored : World = tick (tick (record w { db = record w.db { queue = queue } })) in
    let failed : (with_tx env (start_tx env user now) w).0 ≡ err bad_request =
      ap (λ p. (end_tx env w.db p).0)
        (bind-ok (insert_entry env e) (λ _. match_players env) (tick w)
            (insert_entry-ok env e (tick w) queue up1 made)
          ∙ match_players-same_user env stored p1 p2 rest up2 heads same) in
    (
      failed,
      with_tx-err env (start_tx env user now) w law
          (ap (λ r. (r, (with_tx env (start_tx env user now) w).1)) failed),
    )
