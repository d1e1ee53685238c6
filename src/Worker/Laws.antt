-- ===== src/Worker/Laws.antt =====
-- The clock of the automatic logout.
use num_duel.Prelude.{◌≡◌, refl, ap, ◌∙◌, none, some, List, [], ◌∷◌, length, arith}
use num_duel.Model.{Time}
use num_duel.World.{Env, World}
use num_duel.Session.AutoLogout.{AutoLogoutUseCase}
use num_duel.Worker.{AutoLogoutState, auto_logout_tick, auto_logout_ticks}

module _ (env : Env) where
  -- A tick with a clock that is set.
  tick-set :
      (t t' now : Time) (a : AutoLogoutUseCase) (w : World)
      → a.fixed_now ≡ some now
      → auto_logout_tick env t (a, w) ≡ auto_logout_tick env t' (a, w)
  unfolding auto_logout_tick
  tick-set t t' now a w h = rw h refl

  tick-keeps :
      (t now : Time) (a : AutoLogoutUseCase) (w : World)
      → a.fixed_now ≡ some now
      → (auto_logout_tick env t (a, w)).0.fixed_now ≡ some now
  unfolding auto_logout_tick
  tick-keeps t now a w h = rw h refl

  ticks-set :
      (ts ts' : List Time) (now : Time) (s : AutoLogoutState)
      → s.0.fixed_now ≡ some now
      → length ts ≡ length ts'
      → auto_logout_ticks env ts s ≡ auto_logout_ticks env ts' s
  ticks-set [] [] now s h e = refl
  ticks-set [] (t ∷ ts) now s h e = absurd (ground arith)
  ticks-set (t ∷ ts) [] now s h e = absurd (ground arith)
  ticks-set (t ∷ ts) (t' ∷ ts') now (a, w) h e =
      ticks-set ts ts' now (auto_logout_tick env t (a, w)) (tick-keeps t now a w h) (ground arith)
      ∙ ap (auto_logout_ticks env ts') (tick-set t t' now a w h)

  tick-starts :
      (t : Time) (a : AutoLogoutUseCase) (w : World)
      → a.fixed_now ≡ none
      → (auto_logout_tick env t (a, w)).0.fixed_now ≡ some t
  unfolding auto_logout_tick
  tick-starts t a w h = rw h refl

  ticks-keep :
      (ts : List Time) (now : Time) (s : AutoLogoutState)
      → s.0.fixed_now ≡ some now
      → (auto_logout_ticks env ts s).0.fixed_now ≡ some now
  ticks-keep [] now s h = h
  ticks-keep (t ∷ ts) now (a, w) h =
      ticks-keep ts now (auto_logout_tick env t (a, w)) (tick-keeps t now a w h)

  -- The worker of the automatic logout sets the clock of a use case that has none to the time of
  -- its first tick, where it stays: the times of the later ticks make no difference to what they
  -- do.
  pub auto_logout_ticks-pinned :
      (first : Time) (ts ts' : List Time) (a : AutoLogoutUseCase) (w : World)
      → a.fixed_now ≡ none
      → length ts ≡ length ts'
      → ((auto_logout_ticks env (first ∷ ts) (a, w)).0.fixed_now ≡ some first)
        × (auto_logout_ticks env (first ∷ ts) (a, w) ≡ auto_logout_ticks env (first ∷ ts') (a, w))
  auto_logout_ticks-pinned first ts ts' a w h e =
      let s = auto_logout_tick env first (a, w) in
      let set = tick-starts first a w h in
      (ticks-keep ts first s set, ticks-set ts ts' first s set e)
