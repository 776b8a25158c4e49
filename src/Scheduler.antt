-- ===== src/Scheduler.antt =====
-- backend/engine/scheduler: retries, dead letters, periodic tasks, events and health checks.
-- Ids made by uuid4 and the current time are arguments. A callable is a function of how often it
-- has been called; a callback that changes the object which calls it is not modelled.
mod Tests
pub mod Retry
pub mod Dlq
pub mod Tasks
pub mod Bus
pub mod Heartbeat
