-- ===== src/Repository/Rankings.antt =====
-- backend/repository/ranking.go.
use mathlib.Core.Option
use num_duel.Prelude.{List, [], ◌∷◌, some}
use num_duel.Model.{Ranking}
use num_duel.World.{M, Env, query, exec, done, ◌>>◌}
use num_duel.Repository.Users.{any_ranking}

module _ (env : Env) where
  abbrev pub create_rankings : List Ranking → M (Unit {0})
  create_rankings [] = done
  create_rankings (r ∷ rs) = exec env (λ db.
      Option.map (λ t. record db { rankings = t }) (env.rankings.create_all (r ∷ rs) db.rankings))

  -- `ReplaceAll`
  abbrev pub replace_all_rankings : List Ranking → M (Unit {0})
  replace_all_rankings rs =
      exec env (λ db. some (record db { rankings = env.rankings.delete any_ranking db.rankings }))
      >> create_rankings rs

  -- `ListAll`
  abbrev pub list_rankings : M (List Ranking)
  list_rankings = query env (λ db. env.rankings.find_in_order (λ r. r.rank) any_ranking db.rankings)
