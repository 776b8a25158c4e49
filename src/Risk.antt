-- ===== src/Risk.antt =====
-- backend/engine/risk: the positions of the trading processes.
pub mod Portfolio
mod Tests
