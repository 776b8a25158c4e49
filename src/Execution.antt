-- ===== src/Execution.antt =====
-- backend/engine/execution: placing, cancelling and tracking orders.
mod Tests
pub mod Models
pub mod OrderState
pub mod Validator
pub mod Tracker
pub mod Executor
pub mod Engine
