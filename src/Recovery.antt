-- ===== src/Recovery.antt =====
-- backend/engine/recovery: what is rebuilt after a lost connection or a restart.
pub mod Connection
pub mod Reconciler
pub mod Coordinator
mod Tests
