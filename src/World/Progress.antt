-- ===== src/World/Progress.antt =====
-- Calls that end well, where the database, the server and the interfaces answer.
use num_duel.Prelude.{ℕ, ◌≡◌, refl, arith}
use num_duel.Model.{ok}
use num_duel.World.State.{World, Redis}
use num_duel.World.Outside.{Env, Answers}
use num_duel.World.Monad.{M, tick, with_tx, redis_call}

abbrev pub Succeeds : {A : Type 0} → M A → World → Type 0
Succeeds {A} m w = (a : A) × (v : World) × (m w ≡ (ok a, v))

module _ (env : Env) (up : Answers env) where
  pub with_tx-Succeeds :
      {A : Type 0} (body : M A) (w : World) → Succeeds body w → Succeeds (with_tx env body) w
  unfolding with_tx
  with_tx-Succeeds body w (a, v, h) = (a, tick v, ground (arith, up.answers v.calls))

  pub redis_call-ok :
      {A : Type 0} (q : ℕ → Redis → A × Redis) (w : World)
      → redis_call env q w
        ≡ (ok (q w.calls w.redis).0, tick (record w { redis = (q w.calls w.redis).1 }))
  redis_call-ok q w = rw (up.answers w.calls) refl
