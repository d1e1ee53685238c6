-- ===== src/Ranking/Laws.antt =====
-- What the ranking shows after it has been rebuilt.
use mathlib.Core.List.{Perm}
use num_duel.Prelude.{
  Bool, ℕ, zero, suc, ◌≡◌, refl, ap, ◌∙◌, some, List, [], ◌∷◌, map, take, arith, Option-cases, inl,
  inr,
}
use num_duel.Model.{Time, Ranking, ok}
use num_duel.World.{M, Env, World, Gorm, tick, with_tx, with_tx-ok, >>=-eq-ok, get_now, ◌>>=◌}
use num_duel.Repository.Users.{any_user, any_ranking}
use num_duel.Repository.Rankings.{replace_all_rankings}
use num_duel.Ranking.Order.{
  InRankOrder, Sorted, StrictWeak, entry, players, ranks_before-StrictWeak, Sorted-InRankOrder,
  rebuild_rows-players,
}
use num_duel.Ranking.{
  RankingRebuildRow, RankingItem, RankingUseCase, ranks_before, rebuild_rows, number_rows,
  ranking_item, get, rebuild, list_users_for_ranking_rebuild,
}

-- What sort.Slice does to a slice: for such a comparison it keeps the rows and puts them in order.
pub record SortsSlice (r : RankingUseCase) (rows : List RankingRebuildRow) : Type 0 where
  pub sorts :
      (less : RankingRebuildRow → RankingRebuildRow → Bool)
      → StrictWeak less
      → Perm (r.sort_slice less rows) rows × Sorted less (r.sort_slice less rows)

-- Deleting every row and creating rows whose ranks count up, and reading them by rank.
pub record KeepsRankings (g : Gorm Ranking) : Type 0 where
  pub cleared :
      (t : List Ranking) → g.find_in_order (λ r. r.rank) any_ranking (g.delete any_ranking t) ≡ []
  pub stored :
      (t t' : List Ranking) (now : Time) (rows : List RankingRebuildRow)
      → g.create_all (number_rows 1 now rows) (g.delete any_ranking t) ≡ some t'
      → g.find_in_order (λ r. r.rank) any_ranking t' ≡ number_rows 1 now rows

-- The items from a rank on.
abbrev pub items_from : ℕ → List RankingRebuildRow → List RankingItem
items_from rank [] = []
items_from rank (r ∷ rs) =
    record { rank = rank; username = r.username; win_count = r.win_count }
    ∷ items_from (suc rank) rs

take-items :
    (n rank : ℕ) (now : Time) (rows : List RankingRebuildRow)
    → map ranking_item (take n (number_rows rank now rows)) ≡ take n (items_from rank rows)
take-items zero rank now rows = refl
take-items (suc n) rank now [] = refl
take-items (suc n) rank now (r ∷ rs) =
    ap (◌∷◌ (record { rank = rank; username = r.username; win_count = r.win_count }))
      (take-items n (suc rank) now rs)

-- The items that Get shows: the first three places of some order of the players.
abbrev pub Podium : Env → World → List RankingItem → Type 0
Podium env w items =
    (sorted : List RankingRebuildRow) × Perm sorted
      (map entry (players (env.users.find any_user w.db.users)))
    × InRankOrder sorted
    × (items ≡ take 3 (items_from 1 sorted))

module _ (env : Env) (r : RankingUseCase) where
  replace-stored :
      (now : Time) (rows : List RankingRebuildRow) (w w' : World)
      → KeepsRankings env.rankings
      → replace_all_rankings env (number_rows 1 now rows) w ≡ (ok tt, w')
      → (env.rankings.find_in_order (λ x. x.rank) any_ranking w'.db.rankings
          ≡ number_rows 1 now rows)
        × (w'.db ≡ record w.db { rankings = w'.db.rankings })
  replace-stored now [] w w' laws h = (ground (arith, laws.cleared w.db.rankings))
  replace-stored now (x ∷ xs) w w' laws h =
      elim (Option-cases (
        env.rankings.create_all (number_rows 1 now (x ∷ xs))
          (env.rankings.delete any_ranking w.db.rankings))) [
            | inl refused ↦ absurd (ground arith)
            | inr (t, made) ↦ (ground (arith, laws.stored w.db.rankings t now (x ∷ xs) made))
          ]

  rebuild-ok :
      (w w' : World)
      → rebuild env r w ≡ (ok tt, w')
      → (now : Time) × (v v' : World) × (v.db ≡ w.db)
        × (replace_all_rankings env
              (number_rows 1 now
                (r.sort_slice ranks_before (rebuild_rows (env.users.find any_user w.db.users))))
              v
            ≡ (ok tt, v'))
        × (w'.db ≡ v'.db)
  unfolding rebuild list_users_for_ranking_rebuild
  rebuild-ok w w' h =
      let rest : List RankingRebuildRow → M (Unit {0}) = λ rows.
        get_now env >>= λ now. with_tx env (replace_all_rankings env (number_rows 1 now rows)) in
      let (rows, v, listed, h1) = >>=-eq-ok (list_users_for_ranking_rebuild env r) rest w h in
      let sorted : r.sort_slice ranks_before (rebuild_rows (env.users.find any_user w.db.users))
          ≡ rows =
        (ground arith) in
      let kept : v.db ≡ w.db = (ground arith) in
      let now = env.now v.calls in
      let (v', body, end) =
        with_tx-ok env (replace_all_rankings env (number_rows 1 now rows)) (tick v) h1 in
      (now, tick v, v', kept, rw sorted body, ap (λ (x : World). x.db) end)

  -- After a rebuild of the ranking the first three places are shown, numbered from 1, of an
  -- ordering of all users who are neither deleted nor masters, where nobody stands behind one who
  -- has fewer wins, or as many and a later name, given that sort.Slice sorts by any comparison
  -- that is a strict weak order and that the rankings table keeps what is stored, and while that
  -- table stays as it is.
  pub get-rebuild :
      (w w' v v' : World) (items : List RankingItem)
      → KeepsRankings env.rankings
      → SortsSlice r (rebuild_rows (env.users.find any_user w.db.users))
      → rebuild env r w ≡ (ok tt, w')
      → v.db.rankings ≡ w'.db.rankings
      → get env r v ≡ (ok items, v')
      → Podium env w items
  unfolding get
  get-rebuild w w' v v' items laws sorts rebuilt same shown =
      let (now, u, u', start, replaced, end) = rebuild-ok w w' rebuilt in
      let rows = r.sort_slice ranks_before (rebuild_rows (env.users.find any_user w.db.users)) in
      let (stored, _) = replace-stored now rows u u' laws replaced in
      let there : env.rankings.find_in_order (λ x. x.rank) any_ranking v.db.rankings
          ≡ number_rows 1 now rows =
        rw (same, end) stored in
      let read : items ≡ map ranking_item (take 3 (number_rows 1 now rows)) = (ground arith) in
      let (keeps, orders) = sorts.sorts ranks_before ranks_before-StrictWeak in
      let users = env.users.find any_user w.db.users in
      (
        rows,
        rw (← rebuild_rows-players users) keeps,
        Sorted-InRankOrder rows orders,
        read ∙ take-items 3 1 now rows,
      )
