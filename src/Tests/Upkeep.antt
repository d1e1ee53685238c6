-- ===== src/Tests/Upkeep.antt =====
-- Examples: old rows of the logs are deleted, and the ranking is rebuilt.
use mathlib.Core.List.Perm
use mathlib.Core.List.{Perm, perm_append_singleton}
use mathlib.Core.Option.{some-injective as some_injective}
use num_duel.Prelude.{
  Bool-cases, inl, inr, ℕ, zero, suc, ◌+◌, ◌≤◌, ◌≡◌, refl, sym, ap, ◌∙◌, Bool, true, false, not,
  some, List, [], ◌∷◌, ◌++◌, length, arith, if◌then◌else◌,
}
use num_duel.Model.{Time, User, Ranking, ok, is_deleted, is_master}
use num_duel.World.{Env, World, ActivityLog, recovered, Answers, with_tx}
use num_duel.Repository.Users.{any_ranking, any_user}
use num_duel.Retention.{LogRetention, days_before, run}
use num_duel.Retention.Laws.{DeletesSome, old_activity, old_logins, old_connections, run-empties}
use num_duel.Ranking.{
  RankingUseCase, RankingItem, RankingRebuildRow, ranks_before, rebuild_row, rebuild_rows,
  number_rows, rebuild, get, list_users_for_ranking_rebuild,
}
use num_duel.Ranking.Order.{StrictWeak, Sorted}
use num_duel.Ranking.Laws.{SortsSlice, KeepsRankings, Podium, get-rebuild}
use num_duel.Tests.Memory.{
  env, drop_rows, find_rows, sort_rows, insert_row, memory, player, playing, world,
}

module _ {Row : Type 0} where
  drop-counted :
      (n : ℕ) (p : Row → Bool) (t : List Row)
      → (drop_rows n p t).0 + length (find_rows p (drop_rows n p t).1) ≡ length (find_rows p t)
  drop-counted zero p t = ground arith
  drop-counted (suc n) p [] = refl
  drop-counted (suc n) p (r ∷ rs) = ground (arith, drop-counted n p rs, drop-counted (suc n) p rs)

  drop-empty :
      (n : ℕ) (p : Row → Bool) (t : List Row)
      → 1 ≤ n
      → (drop_rows n p t).0 ≡ 0
      → length (find_rows p t) ≡ 0
  drop-empty zero p t h e = elim h [ ]
  drop-empty (suc n) p [] h e = refl
  drop-empty (suc n) p (r ∷ rs) h e = ground (arith, drop-empty (suc n) p rs h)

  memory-DeletesSome : (key : Row → ℕ) → DeletesSome (memory key)
  memory-DeletesSome key = record { counted = drop-counted; empty = drop-empty }

-- A database whose clock is two days on.
abbrev late : Env
late = record env { now = λ n. 172800000000000 + n }

late-Answers : Answers late
late-Answers = record { answers = λ n. refl }

abbrev keep : LogRetention
keep = record { activity_days = 1; login_days = 1; ws_days = 1; batch_size = 1; batch_sleep = 1 }

abbrev old_log : ActivityLog
old_log = record {
  id = 1;
  user_id = some 1;
  activity = recovered 1;
  created_at = 0;
  updated_at = 0;
}

abbrev logged : World
logged =
    let w = world playing in
    record w { db = record w.db { activity_logs = old_log ∷ old_log ∷ [] } }

run-empties_example :
    (w' : World) × (run late 5 keep (λ n. false) logged ≡ (ok tt, w'))
    × (old_activity late (days_before (late.now logged.calls) 1) w' ≡ 0)
    × (old_logins late (days_before (late.now logged.calls) 1) w' ≡ 0)
    × (old_connections late (days_before (late.now logged.calls) 1) w' ≡ 0)
run-empties_example =
    run-empties late (λ n. false) keep 5 late-Answers (λ n. refl) (memory-DeletesSome (λ r. r.id))
      (memory-DeletesSome (λ r. r.id)) (memory-DeletesSome (λ r. r.id)) logged (omega arith)
      (omega arith) (omega arith) (omega arith) (omega arith) (omega arith)

-- Two rows are sorted as sort.Slice sorts them.
abbrev sort_two :
    (RankingRebuildRow → RankingRebuildRow → Bool) → List RankingRebuildRow → List RankingRebuildRow
sort_two less (x ∷ y ∷ []) = if less y x then y ∷ x ∷ [] else x ∷ y ∷ []
sort_two less rows = rows

abbrev board : RankingUseCase
board = record { locks = true; lock_ttl = 0; sort_slice = sort_two }

find-any : (rs : List Ranking) → find_rows any_ranking rs ≡ rs
find-any [] = refl
find-any (r ∷ rs) = ap (◌∷◌ r) (find-any rs)

find-none : (rs : List Ranking) → find_rows (λ r. not (any_ranking r)) rs ≡ []
find-none [] = refl
find-none (r ∷ rs) = find-none rs

insert-number :
    (k : ℕ) (r : RankingRebuildRow) (now : Time) (rs : List RankingRebuildRow)
    → insert_row
        (λ x. x.rank)
        (record {
          user_id = r.user_id;
          rank = k;
          username = r.username;
          win_count = r.win_count;
          updated_at = now;
        })
        (number_rows (suc k) now rs)
      ≡ number_rows k now (r ∷ rs)
insert-number k r now [] = refl
insert-number k r now (x ∷ xs) = ground arith

sort-number :
    (k : ℕ) (now : Time) (rows : List RankingRebuildRow)
    → sort_rows (λ x. x.rank) (number_rows k now rows) ≡ number_rows k now rows
sort-number k now [] = refl
sort-number k now (r ∷ rs) =
    ap
      (insert_row (λ x. x.rank)
        (record {
          user_id = r.user_id;
          rank = k;
          username = r.username;
          win_count = r.win_count;
          updated_at = now;
        }))
      (sort-number (suc k) now rs)
    ∙ insert-number k r now rs

memory-stored :
    (t t' : List Ranking) (now : Time) (rows : List RankingRebuildRow)
    → some (find_rows (λ r. not (any_ranking r)) t ++ number_rows 1 now rows) ≡ some t'
    → sort_rows (λ r. r.rank) (find_rows any_ranking t') ≡ number_rows 1 now rows
memory-stored t t' now rows h =
    let same : t' ≡ number_rows 1 now rows =
      sym (some_injective _ _ h)
      ∙ ap (λ (x : List Ranking). x ++ number_rows 1 now rows) (find-none t) in
    ap (sort_rows (λ r. r.rank)) (find-any t' ∙ same) ∙ sort-number 1 now rows

env-KeepsRankings : KeepsRankings env.rankings
env-KeepsRankings = record {
  cleared = λ t.
      ap (λ (x : List Ranking). sort_rows (λ r. r.rank) (find_rows any_ranking x)) (find-none t);
  stored = memory-stored;
}

abbrev loser : User
loser = record (player 1) { win_count = 1 }

-- The second player has more wins than the first one.
abbrev played : World
played = let w = world playing in record w { db = record w.db { users = loser ∷ player 2 ∷ [] } }

abbrev rebuilt : World
rebuilt = (rebuild env board played).1

rebuilt-ok : rebuild env board played ≡ (ok tt, rebuilt)
unfolding rebuild list_users_for_ranking_rebuild rebuild_rows ranks_before with_tx is_deleted
    is_master
rebuilt-ok = refl

abbrev top : List RankingItem
top =
    record { rank = 1; username = 65 ∷ []; win_count = 3 }
    ∷ record { rank = 2; username = 65 ∷ []; win_count = 1 }
    ∷ []

abbrev read : World
read = (get env board rebuilt).1

top-shown : get env board rebuilt ≡ (ok top, read)
unfolding rebuild list_users_for_ranking_rebuild rebuild_rows ranks_before with_tx is_deleted
    is_master get
top-shown = refl

sort_two-Sorted :
    (less : RankingRebuildRow → RankingRebuildRow → Bool) (x y : RankingRebuildRow)
    → StrictWeak less
    → Perm (sort_two less (x ∷ y ∷ [])) (x ∷ y ∷ []) × Sorted less (sort_two less (x ∷ y ∷ []))
sort_two-Sorted less x y weak = elim (Bool-cases (less y x)) [
  | inl before ↦
      rw before (perm_append_singleton x (y ∷ []), ((weak.asym y x before, tt), (tt, tt)))
  | inr after ↦ rw after (Perm.refl (x ∷ y ∷ []), ((after, tt), (tt, tt)))
]

board-SortsSlice : SortsSlice board (rebuild_rows (env.users.find any_user played.db.users))
unfolding rebuild_rows is_deleted is_master
board-SortsSlice = record {
  sorts = λ less weak. sort_two-Sorted less (rebuild_row loser) (rebuild_row (player 2)) weak;
}

get-rebuild_example : Podium env played top
get-rebuild_example =
    get-rebuild env board played rebuilt rebuilt read top env-KeepsRankings board-SortsSlice
      rebuilt-ok refl top-shown
