-- ===== src/Game/Play/Total.antt =====
-- A guess that the game allows is accepted, where the database and the server answer.
use num_duel.Prelude.{ℕ, ◌≤◌, ◌≡◌, Bool, true, not, ◌&&◌, ◌/◌}
use num_duel.Model.{Uuid, Text, Four, Game, ok}
use num_duel.World.{M, Env, Answers, World, guess_lock}
use num_duel.RedisStore.{at_least, second}
use num_duel.Crypto.Secret.{digest}
use num_duel.Game.UseCase.{GameUseCase}
use num_duel.Game.Play.Allowed.{Accepts}

-- A call that ends well, with its number and those after it behind it.
abbrev Goes : {A : Type 0} → M A → World → Type 0
Goes {A} m w = (a : A) × (v : World) × (m w ≡ (ok a, v)) × (w.calls ≤ v.calls)

-- The guess meets each of the four texts.
abbrev pub Meets : Env → Uuid → ℕ → Four ℕ → Four Text → Type 0
Meets env game slot d p =
    (p.d0 ≡ digest env.hmac env.uuid_text game slot 0 d.d0)
    × (p.d1 ≡ digest env.hmac env.uuid_text game slot 1 d.d1)
    × (p.d2 ≡ digest env.hmac env.uuid_text game slot 2 d.d2)
    × (p.d3 ≡ digest env.hmac env.uuid_text game slot 3 d.d3)

module _ (env : Env) (up : Answers env) (takes : Accepts env) where
  module _ (g : GameUseCase) (user game_id : Uuid) (auto : Bool) where
    -- The lock is free, where one is taken.
    abbrev pub LockFree : World → Type 0
    LockFree w =
        (g.locks && not auto) ≡ true
        → (env.server.set_nx w.calls (guess_lock game_id user)
            (at_least 1 (g.game_lock_ttl / second)) w.redis).0
          ≡ true
