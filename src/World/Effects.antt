-- ===== src/World/Effects.antt =====
-- What a call may do to the tables: nothing at all, or nothing where it fails.
use num_duel.Prelude.{◌≡◌, refl, ap, ◌∙◌, inl, inr, Bool, true, false, Bool-cases}
use num_duel.Model.{Result, ok, err, Err}
use num_duel.World.State.{World, Redis}
use num_duel.World.Outside.{Env, RollsBack}
use num_duel.World.Monad.{M, ◌>>=◌, with_tx, with_tx-err, redis_call, when}
use Prim.Native.Nat.{ℕ}

abbrev pub Reads : {A : Type 0} → M A → Type 0
Reads m = (w : World) → (m w).1.db ≡ w.db

abbrev pub Atomic : {A : Type 0} → M A → Type 0
Atomic {A} m = (w w' : World) (e : Err) → m w ≡ (err e, w') → w'.db ≡ w.db

-- Going on after a call that succeeded.
pub bind-ok :
    {A B : Type 0} (m : M A) (f : A → M B) (w : World) {a : A} {v : World}
    → m w ≡ (ok a, v)
    → (m >>= f) w ≡ f a v
bind-ok {B} m f w h =
    ap (λ p. elim p.0 as (λ r. Result B × World) [ ok a ↦ f a p.1 | err e ↦ (err e, p.1) ]) h

from-Reads :
    {A B : Type 0} (p : Result A × World) (f : A → M B)
    → ((a : A) → Reads (f a))
    → (elim p.0 as (λ r. Result B × World) [ ok a ↦ f a p.1 | err e ↦ (err e, p.1) ]).1.db ≡ p.1.db
from-Reads (ok a, v) f h = h a v
from-Reads (err e, v) f h = refl

pub bind-Reads :
    {A B : Type 0} (m : M A) (f : A → M B) → Reads m → ((a : A) → Reads (f a)) → Reads (m >>= f)
bind-Reads m f hm hf w = from-Reads (m w) f hf ∙ hm w

from-Atomic :
    {A B : Type 0} (p : Result A × World) (f : A → M B) (w' : World) (e : Err)
    → ((a : A) → Atomic (f a))
    → elim p.0 as (λ r. Result B × World) [ ok a ↦ f a p.1 | err x ↦ (err x, p.1) ] ≡ (err e, w')
    → w'.db ≡ p.1.db
from-Atomic (ok a, v) f w' e h q = h a v w' e q
from-Atomic (err x, v) f w' e h q = cc

-- Reading first and then doing something atomic is atomic.
pub bind-Atomic :
    {A B : Type 0} (m : M A) (f : A → M B) → Reads m → ((a : A) → Atomic (f a)) → Atomic (m >>= f)
bind-Atomic m f hm hf w w' e q = from-Atomic (m w) f w' e hf q ∙ hm w

pub with_tx-Atomic :
    (env : Env) {A : Type 0} (body : M A) → RollsBack env → Atomic (with_tx env body)
with_tx-Atomic env body law w w' e q = with_tx-err env body w law q

-- A first part that only reads, and succeeds.
pub Reads-ok :
    {A : Type 0} (m : M A) (w : World) {a : A} {v : World} → Reads m → m w ≡ (ok a, v) → v.db ≡ w.db
Reads-ok m w h e = cc (h w)

pub redis_call-Reads :
    (env : Env) {A : Type 0} (q : ℕ → Redis → A × Redis) → Reads (redis_call env q)
redis_call-Reads env q w = elim (Bool-cases (env.fails w.calls)) [
  | inl down ↦ rw down
  | inr up ↦ rw up
]

pub when-Reads : (test : Bool) (m : M (Unit {0})) → Reads m → Reads (when test m)
when-Reads true m h w = h w
when-Reads false m h w = refl
