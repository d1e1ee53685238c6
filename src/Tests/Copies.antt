-- ===== src/Tests/Copies.antt =====
-- Examples: the copy into the second database.
use num_duel.Prelude.{
  ◌*◌, ◌≡◌, refl, Bool, true, false, none, some, List, [], ◌∷◌, ◌++◌, All, arith,
}
use num_duel.Prelude.Texts.{codes}
use num_duel.Model.{ok}
use num_duel.World.{Env, Tables, backup_value}
use num_duel.RedisStore.{second}
use num_duel.Backup.{Copying, Upserts, sync_rows, run_tasks, sync_tasks, sync, run_sync}
use num_duel.Backup.Laws.{FindsOnly, IsOld, run_sync-skips}
use num_duel.Backup.Copies.{Copies, sync-Copies}
use num_duel.Tests.Memory.{env, find_rows, playing, world}

abbrev appends : Upserts
appends = record {
  users = λ rows t. some (rows ++ t);
  games = λ rows t. some (rows ++ t);
  guesses = λ rows t. some (rows ++ t);
  histories = λ rows t. some (rows ++ t);
  rankings = λ rows t. some (rows ++ t);
  activity_logs = λ rows t. some (rows ++ t);
  login_logs = λ rows t. some (rows ++ t);
}

-- The server tells that the last copy was at the second 10.
abbrev synced : Env
synced = record env {
  server = record env.server { get = λ n k r. some (backup_value (codes "ok") (some 10)) };
}

find_rows-none :
    {Row : Type 0} (p : Row → Bool) (t : List Row) → All (λ r. p r ≡ false) t → find_rows p t ≡ []
find_rows-none p [] h = refl
find_rows-none p (r ∷ rs) (h, hs) = ground (arith, find_rows-none p rs hs)

synced-FindsOnly : FindsOnly synced
synced-FindsOnly = record {
  users = find_rows-none;
  games = find_rows-none;
  guesses = find_rows-none;
  histories = find_rows-none;
  rankings = find_rows-none;
  activity_logs = find_rows-none;
  login_logs = find_rows-none;
}

abbrev empty : Tables
empty = record (world playing).db { users = []; games = [] }

abbrev beside : Copying
beside = record { main = world playing; copy = empty }

playing-IsOld : IsOld (10 * second) (world playing).db
playing-IsOld = record {
  users = omega arith;
  games = omega arith;
  guesses = tt;
  histories = tt;
  rankings = tt;
  activity_logs = tt;
  login_logs = tt;
}

run_sync-skips_example : (run_sync synced (some appends) true 0 beside).1.copy ≡ empty
run_sync-skips_example =
    run_sync-skips synced appends synced-FindsOnly 0 (codes "ok") 10 beside refl playing-IsOld

abbrev copied : Copying
copied = (sync env appends none beside).1

copied-ok : sync env appends none beside ≡ (ok (3, 6), copied)
unfolding sync sync_tasks run_tasks sync_rows
copied-ok = refl

sync-Copies_example :
    (copied.main.db ≡ (world playing).db)
    × Copies env appends none (world playing).db empty copied.copy
sync-Copies_example = sync-Copies env appends none beside copied (3, 6) copied-ok
