-- ===== src/Revaluation.antt =====
-- The month-end revaluation of foreign-currency accounts (src/domain/fx.rs, `run_revaluation`).
pub mod Run
pub mod Again
mod Tests
