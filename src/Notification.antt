-- ===== src/Notification.antt =====
-- backend/engine/notification: the queue of notifications.
mod Tests
pub mod Queue
