-- ===== src/Api/Guard/Laws.antt =====
-- backend/middleware/auth.go beside usecase/ws_auth.go: the two ways a token is accepted.
use num_duel.Prelude.{◌≡◌, refl, inl, inr, true, false, some, arith, Bool-cases}
use num_duel.Model.{Uuid, Text, Result, ok, err, is_empty}
use num_duel.World.{M, Env, World, pure, ◌>>=◌}
use num_duel.Session.Access.{
  AccessTokenClaims, WsAuthUseCase, check_force_logout, known_user, authenticate_claims,
  authenticate,
}
use num_duel.Api.Guard.{
  AuthConfig, AuthInfo, info_of, refuse_revoked, refuse_forced, refuse_unknown, auth_claims, auth,
}

-- The socket's use case with the same token service and the same stores.
abbrev pub socket_of : AuthConfig → WsAuthUseCase
socket_of a = record {
  parse = a.jwt;
  revoker = a.revoker;
  force_logout = a.force_logout;
  notifier = true;
}

bind-cases :
    {A B C : Type 0} (p : Result A × World) (f : A → M B) (g : B → M C) (h : A → M C)
    → ((x : A) (w : World) → (f x >>= g) w ≡ h x w)
    → (elim (elim p.0 as (λ r. Result B × World) [ ok x ↦ f x p.1 | err e ↦ (err e, p.1) ]).0
        as (λ r. Result C × World) [
          | ok y ↦
              g y (elim p.0 as (λ r. Result B × World) [ ok x ↦ f x p.1 | err e ↦ (err e, p.1) ]).1
          | err e ↦ (
            err e,
            (elim p.0 as (λ r. Result B × World) [ ok x ↦ f x p.1 | err e ↦ (err e, p.1) ]).1,
          )
        ])
      ≡ elim p.0 as (λ r. Result C × World) [ ok x ↦ h x p.1 | err e ↦ (err e, p.1) ]
bind-cases (ok x, w) f g h e = e x w
bind-cases (err x, w) f g h e = refl

-- A call after a chain, against the chain with it at its end.
bind-after :
    {A B C : Type 0} (m : M A) (f : A → M B) (g : B → M C) (h : A → M C) (w : World)
    → ((x : A) (v : World) → (f x >>= g) v ≡ h x v)
    → ((m >>= f) >>= g) w ≡ (m >>= h) w
bind-after m f g h w e = bind-cases (m w) f g h e

module _ (env : Env) (a : AuthConfig) (on : a.users ≡ true) where
  user_of : AuthInfo → M Uuid
  user_of i = pure i.user_id

  known-after :
      (c : AccessTokenClaims) (w : World)
      → ((refuse_unknown env a c >>= λ _. pure (info_of c)) >>= λ i. pure i.user_id) w
        ≡ known_user env (socket_of a) c w
  unfolding known_user
  known-after c w = rw on (ground arith)

  claims-after :
      (c : AccessTokenClaims) (w : World)
      → (auth_claims env a c >>= λ i. pure i.user_id) w ≡ authenticate_claims env (socket_of a) c w
  unfolding auth_claims authenticate_claims
  claims-after c w =
      let g : AuthInfo → M Uuid = λ i. pure i.user_id in
      let last : M AuthInfo = refuse_unknown env a c >>= λ _. pure (info_of c) in
      bind-after (refuse_revoked env a c) (λ _. refuse_forced env a c >>= λ _. last) g
        (λ _. check_force_logout env (socket_of a) c >>= λ _. known_user env (socket_of a) c) w
        (λ _ v.
          bind-after (refuse_forced env a c) (λ _. last) g (λ _. known_user env (socket_of a) c) v
            (λ _ u. known-after c u))

  parsed-after :
      (token : Text) (r : Result AccessTokenClaims) (w : World)
      → a.jwt w.calls token ≡ r
      → is_empty token ≡ false
      → (auth env a (some token) >>= λ i. pure i.user_id) w ≡ authenticate env (socket_of a) token w
  unfolding auth authenticate
  parsed-after token (err e) w parsed given = ground arith
  parsed-after token (ok c) w parsed given = ground (arith, claims-after c w)

  -- With the users' repository wired, for every token and state of the world, Auth on a cookie
  -- that holds the token, with the user's id taken from what it leaves, is Authenticate of the
  -- socket over the same token service and stores: the same answer, error or id, and the same
  -- world after it.
  pub auth-authenticate :
      (token : Text) (w : World)
      → (auth env a (some token) >>= λ i. pure i.user_id) w ≡ authenticate env (socket_of a) token w
  unfolding auth authenticate
  auth-authenticate token w = elim (Bool-cases (is_empty token)) [
    | inl empty ↦ ground arith
    | inr given ↦ parsed-after token (a.jwt w.calls token) w refl given
  ]
