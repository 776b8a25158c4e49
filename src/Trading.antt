-- ===== src/Trading.antt =====
-- backend/engine/trading: the lifecycle of a trading process.
pub mod StateMachine
pub mod Process
pub mod Services
pub mod Store
pub mod Averaging
pub mod Manager
