-- ===== src/Session/Cleanup.antt =====
-- CleanupExpiredRefreshTokens of backend/usecase/auth_refresh.go, with DeleteExpired of
-- backend/repository/refresh_token.go. An error is only printed.
use num_duel.Prelude.{
  ℕ, ◌-◌, ◌*◌, ◌≤◌, ◌≡◌, Bool, true, false, none, some, ltb, ◌==◌, if◌then◌else◌, arith,
}
use num_duel.Model.{Time, RefreshToken, active, revoked, is_active}
use num_duel.World.{M, Env, exec, get_now, ignore, ◌>>=◌}
use num_duel.RedisStore.{second}

-- An active token that ended before the time, or one that was revoked before it.
unfoldable pub token_over : Time → RefreshToken → Bool
token_over cutoff t = elim t.status [
  | active ↦ ltb t.expires_at cutoff
  | revoked ↦ elim t.revoked_at [ none ↦ false | some at ↦ ltb at cutoff ]
]

-- `cleanupGraceDays`
abbrev pub cleanup_grace_days : ℕ → ℕ
cleanup_grace_days days = if days == 0 then 7 else days

module _ (env : Env) where
  abbrev pub delete_expired : Time → M (Unit {0})
  delete_expired cutoff =
      exec env (λ db. some (record db { tokens = env.tokens.delete (token_over cutoff) db.tokens }))

  unfoldable pub cleanup_expired_refresh_tokens : ℕ → M (Unit {0})
  unfolding token_over
  cleanup_expired_refresh_tokens days =
      ignore
        (get_now env >>= λ now. delete_expired (now - cleanup_grace_days days * (86400 * second)))

-- A token that the cleanup deletes is not active then, nor later.
pub token_over-inactive :
    (t : RefreshToken) (cutoff now : Time)
    → token_over cutoff t ≡ true
    → cutoff ≤ now
    → is_active t now ≡ false
unfolding token_over is_active
token_over-inactive t cutoff now over later = ground arith
