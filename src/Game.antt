-- ===== src/Game.antt =====
-- backend/usecase: the game, from the digits up.
pub mod Judge
pub mod Validate
pub mod Rules
pub mod UseCase
pub mod Notify
pub mod Play
pub mod Timeout
pub mod Invariant
pub mod Refinement
