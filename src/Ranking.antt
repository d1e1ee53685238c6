-- ===== src/Ranking.antt =====
-- backend/usecase/ranking.go, and the lock of its scheduled run in backend/usecase/admin_lock.go.
-- `sort.Slice` is an argument: it gets the comparison and the slice.
pub mod Laws
pub mod Order
use num_duel.Prelude.{
  ℕ, suc, ◌*◌, ◌||◌, Bool, true, false, List, [], ◌∷◌, map, take, ltb, ◌==◌, if◌then◌else◌,
}
use num_duel.Model.{Uuid, Time, Text, User, Ranking, is_deleted, is_master}
use num_duel.World.{M, Env, ranking_rebuild_lock, get_now, pure, done, with_tx, ◌>>=◌, ◌>>◌}
use num_duel.Repository.Users.{list_all_users}
use num_duel.Repository.Rankings.{replace_all_rankings, list_rankings}
use num_duel.RedisStore.{second, acquire_lock}

-- `rankingRebuildRow`
pub record RankingRebuildRow : Type 0 where
  pub user_id : Uuid
  pub username : Text
  pub win_count : ℕ

pub record RankingItem : Type 0 where
  pub rank : ℕ
  pub username : Text
  pub win_count : ℕ

pub record RankingUseCase : Type 0 where
  pub locks : Bool
  pub lock_ttl : ℕ
  pub sort_slice :
      (RankingRebuildRow → RankingRebuildRow → Bool)
      → List RankingRebuildRow
      → List RankingRebuildRow

-- `<` on strings, byte by byte.
unfoldable pub text_lt : Text → Text → Bool
text_lt [] [] = false
text_lt [] (y ∷ ys) = true
text_lt (x ∷ xs) [] = false
text_lt (x ∷ xs) (y ∷ ys) = let rest = text_lt xs ys in if x == y then rest else ltb x y

-- The comparison: more wins first, then the name.
unfoldable pub ranks_before : RankingRebuildRow → RankingRebuildRow → Bool
unfolding text_lt
ranks_before x y =
    if x.win_count == y.win_count
    then text_lt x.username y.username
    else ltb y.win_count x.win_count

abbrev pub rebuild_row : User → RankingRebuildRow
rebuild_row u = record { user_id = u.id; username = u.username; win_count = u.win_count }

-- The loop over the users.
unfoldable pub rebuild_rows : List User → List RankingRebuildRow
unfolding is_deleted is_master
rebuild_rows [] = []
rebuild_rows (u ∷ us) =
    let rest = rebuild_rows us in if is_deleted u || is_master u then rest else rebuild_row u ∷ rest

-- The ranks from the first one on.
abbrev pub number_rows : ℕ → Time → List RankingRebuildRow → List Ranking
number_rows rank now [] = []
number_rows rank now (r ∷ rs) =
    record {
      user_id = r.user_id;
      rank = rank;
      username = r.username;
      win_count = r.win_count;
      updated_at = now;
    }
    ∷ number_rows (suc rank) now rs

abbrev pub ranking_item : Ranking → RankingItem
ranking_item r = record { rank = r.rank; username = r.username; win_count = r.win_count }

-- The time that a lock of the administration lives.
abbrev pub admin_ttl : ℕ → ℕ
admin_ttl ttl = if ttl == 0 then 5 * second else ttl

module _ (env : Env) (r : RankingUseCase) where
  unfoldable pub get : M (List RankingItem)
  get = list_rankings env >>= λ rows. pure (map ranking_item (take 3 rows))

  unfoldable pub list_users_for_ranking_rebuild : M (List RankingRebuildRow)
  unfolding rebuild_rows ranks_before
  list_users_for_ranking_rebuild =
      list_all_users env >>= λ users. pure (r.sort_slice ranks_before (rebuild_rows users))

  unfoldable pub rebuild : M (Unit {0})
  unfolding list_users_for_ranking_rebuild with_tx
  rebuild = do
    rows ← list_users_for_ranking_rebuild
    now ← get_now env
    with_tx env (replace_all_rankings env (number_rows 1 now rows))

  abbrev pub acquire_ranking_rebuild_lock : Uuid → M Bool
  acquire_ranking_rebuild_lock actor =
      if r.locks
      then acquire_lock env (ranking_rebuild_lock actor) (admin_ttl r.lock_ttl)
      else pure true

  -- The worker is the user `uuid.Nil`.
  unfoldable pub run_scheduled_rebuild : M (Unit {0})
  unfolding rebuild
  run_scheduled_rebuild = acquire_ranking_rebuild_lock 0 >>= λ got. if got then rebuild else done
