-- ===== src/Notification/Tests.antt =====
-- The theorems on backend/engine/notification, at a queue of one notification.
use utos.Prelude.{ℕ, suc, refl, Bool, false, none, some, [], ◌∷◌, Result, ok}
use utos.Notification.Queue.{QueuedNotification, NotificationQueue, process}
use utos.Notification.Queue.Drain.{IsBalanced, process-IsBalanced}

abbrev notification : QueuedNotification
notification = record { id = 3; channel = 1; contents = 9; retry_count = 2; max_retries = 3 }

abbrev pending : NotificationQueue
pending = record {
  queue = notification ∷ [];
  max_retries = 3;
  enqueued = 1;
  sent = 0;
  retried = 2;
  failed = 0;
  moved_to_dlq = 0;
}

-- a sender that never delivers and counts its calls
abbrev silent : QueuedNotification → ℕ → Result ℕ Bool × ℕ
silent n calls = (ok false, suc calls)

process-IsBalanced_example : IsBalanced (process (some silent) none pending 0).1
process-IsBalanced_example =
    process-IsBalanced silent none pending 0 (record { settled = refl; dead = refl })
