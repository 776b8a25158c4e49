-- ===== src/ProfitLock.antt =====
-- backend/engine/profit_lock: locking in the profit of a position.
mod Tests
pub mod State
pub mod Policy
pub mod Engine
