-- ===== src/World/Monad.antt =====
-- Calls that act on the world and may fail. A failure keeps what was done; only a transaction
-- (backend/repository/tx.go) takes the tables back.
use num_duel.Prelude.{
  ℕ, suc, Bool, Option, none, some, [], ◌∷◌, ◌++◌, ◌≡◌, refl, arith, if◌then◌else◌,
}
use num_duel.Model.{Result, ok, err, Err, external, Time, Uuid}
use num_duel.World.State.{World, Tables, Redis, Event}
use num_duel.World.Outside.{Env, RollsBack}

abbrev pub M : Type 0 → Type 0
M A = World → Result A × World

infixl 5 ◌>>=◌ ◌>>◌
abbrev pub ◌>>=◌ : {A B : Type 0} → M A → (A → M B) → M B
◌>>=◌ m f w = let (r, w') = m w in elim r [ ok a ↦ f a w' | err e ↦ (err e, w') ]

abbrev pub ◌>>◌ : {A B : Type 0} → M A → M B → M B
m >> k = m >>= λ _. k

abbrev pub pure : {A : Type 0} → A → M A
pure a w = (ok a, w)

abbrev pub throw : {A : Type 0} → Err → M A
throw e w = (err e, w)

abbrev pub done : M (Unit {0})
done = pure tt

-- `if test { return e }`
abbrev pub fail_if : Bool → Err → M (Unit {0})
fail_if test e w = (if test then err e else ok tt, w)

-- `if test { call }`
abbrev pub when : Bool → M (Unit {0}) → M (Unit {0})
when test m w = if test then m w else (ok tt, w)

abbrev pub lift : {A : Type 0} → Result A → M A
lift r w = (r, w)

-- `if x == nil { return e }`
abbrev pub or_throw : {A : Type 0} → Option A → Err → M A
or_throw none e w = (err e, w)
or_throw (some a) e w = (ok a, w)

abbrev pub tick : World → World
tick w = record w { calls = suc w.calls }

-- `_ = call`
abbrev pub ignore : {A : Type 0} → M A → M (Unit {0})
ignore m w = (ok tt, (m w).1)

-- `if err != nil { return e }`
abbrev pub replace_err : {A : Type 0} → M A → Err → M A
replace_err m e w = let (r, w') = m w in elim r [ ok a ↦ (ok a, w') | err x ↦ (err e, w') ]

-- `if err != nil { return f(err) }`
abbrev pub map_err : {A : Type 0} → (Err → Err) → M A → M A
map_err f m w = let (r, w') = m w in elim r [ ok a ↦ (ok a, w') | err x ↦ (err (f x), w') ]

-- A call of the notifier; its error is never looked at.
abbrev pub send : Event → M (Unit {0})
send e w = (ok tt, tick (record w { sent = w.sent ++ e ∷ [] }))

module _ (env : Env) where
  abbrev pub get_now : M Time
  get_now w = (ok (env.now w.calls), tick w)

  abbrev pub new_uuid : M Uuid
  new_uuid w = (ok (env.fresh w.calls), tick w)

  -- A statement that reads.
  abbrev pub query : {A : Type 0} → (Tables → A) → M A
  query q w = (if env.fails w.calls then err (external w.calls) else ok (q w.db), tick w)

  -- A statement that writes: it fails, with no effect, or it is refused, or it is done.
  abbrev pub exec : (Tables → Option Tables) → M (Unit {0})
  exec q w = if env.fails w.calls then (err (external w.calls), tick w) else elim (q w.db) [
    | none ↦ (err (external w.calls), tick w)
    | some db ↦ (ok tt, tick (record w { db = db }))
  ]

  -- A call of the Redis server.
  abbrev pub redis_call : {A : Type 0} → (ℕ → Redis → A × Redis) → M A
  redis_call q w =
      if env.fails w.calls
      then (err (external w.calls), tick w)
      else let (a, r) = q w.calls w.redis in (ok a, tick (record w { redis = r }))

  -- The end of a transaction that began with these tables: back after the body's error, and
  -- after an error of the commit.
  abbrev pub end_tx : {A : Type 0} → Tables → Result A × World → Result A × World
  end_tx before (err e, w) = (err e, record w { db = env.rollback before w.db })
  end_tx before (ok a, w) =
      if env.fails w.calls
      then (err (external w.calls), tick (record w { db = env.rollback before w.db }))
      else (ok a, tick w)

  -- `WithTx`
  unfoldable pub with_tx : {A : Type 0} → M A → M A
  with_tx body w = end_tx w.db (body w)

bind-cases :
    {A B : Type 0} (p : Result A × World) (f : A → M B) {b : B} {w' : World}
    → elim p.0 [ ok a ↦ f a p.1 | err e ↦ (err e, p.1) ] ≡ (ok b, w')
    → (a : A) × (v : World) × (p ≡ (ok a, v)) × (f a v ≡ (ok b, w'))
bind-cases (ok a, v) f h = (a, v, refl, h)
bind-cases (err e, v) f h = cc

-- A call that succeeds has a first part that succeeds, and goes on from where that ended.
pub >>=-eq-ok :
    {A B : Type 0} (m : M A) (f : A → M B) (w : World) {b : B} {w' : World}
    → (m >>= f) w ≡ (ok b, w')
    → (a : A) × (v : World) × (m w ≡ (ok a, v)) × (f a v ≡ (ok b, w'))
>>=-eq-ok m f w h = bind-cases (m w) f h

module _ (env : Env) {A : Type 0} where
  end_tx-err :
      (before : Tables) (p : Result A × World) {e : Err} {w' : World}
      → RollsBack env
      → end_tx env before p ≡ (err e, w')
      → w'.db ≡ before
  end_tx-err before (err x, v) law h = ground (arith, law.rollback_restores before v.db)
  end_tx-err before (ok a, v) law h = ground (arith, law.rollback_restores before v.db)

  end_tx-ok :
      (before : Tables) (p : Result A × World) {a : A} {w' : World}
      → end_tx env before p ≡ (ok a, w')
      → (v : World) × (p ≡ (ok a, v)) × (w' ≡ tick v)
  end_tx-ok before (err x, v) h = cc
  end_tx-ok before (ok a, v) h = (v, ground arith, ground arith)

  -- A transaction that fails leaves the tables as they were.
  pub with_tx-err :
      (body : M A) (w : World) {e : Err} {w' : World}
      → RollsBack env
      → with_tx env body w ≡ (err e, w')
      → w'.db ≡ w.db
  unfolding with_tx
  with_tx-err body w law h = end_tx-err w.db (body w) law h

  -- One that succeeds is its body.
  pub with_tx-ok :
      (body : M A) (w : World) {a : A} {w' : World}
      → with_tx env body w ≡ (ok a, w')
      → (v : World) × (body w ≡ (ok a, v)) × (w' ≡ tick v)
  unfolding with_tx
  with_tx-ok body w h = end_tx-ok w.db (body w) h
