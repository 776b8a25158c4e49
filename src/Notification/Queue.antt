-- ===== src/Notification/Queue.antt =====
-- backend/engine/notification/queue.py. The sending function and the dead-letter callback are
-- parameters: a notification goes in, and the answer is a truth value or the exception's text. What
-- the callback raises is dropped by the code, so that only its state matters. The contents of a
-- notification are known by one number.
pub mod Drain
use utos.Prelude.{
  ℕ, suc, ◌+◌, ◌<◌, ltb, Bool, true, false, Option, none, some, List, [], ◌∷◌, ◌++◌, Result, ok,
  err, if◌then◌else◌, length,
}

pub record QueuedNotification : Type 0 where
  pub id : ℕ
  pub channel : ℕ
  pub contents : ℕ
  pub retry_count : ℕ
  pub max_retries : ℕ

pub data SendStatus : Type 0 where
  success failed retry : SendStatus

pub record NotificationResult : Type 0 where
  pub notification_id : ℕ
  pub channel : ℕ
  pub status : SendStatus
  pub error : Option ℕ

pub record NotificationQueue : Type 0 where
  pub queue : List QueuedNotification
  pub max_retries : ℕ
  pub enqueued : ℕ
  pub sent : ℕ
  pub retried : ℕ
  pub failed : ℕ
  pub moved_to_dlq : ℕ

-- the text "No send function configured"
abbrev pub no_send_function : ℕ
no_send_function = 1

-- the text "Send returned False"
abbrev pub send_returned_false : ℕ
send_returned_false = 2

unfoldable pub enqueue : QueuedNotification → NotificationQueue → ℕ × NotificationQueue
enqueue n q = (n.id, record q { queue = q.queue ++ (n ∷ []); enqueued = q.enqueued + 1 })

unfoldable pub create_and_enqueue : ℕ → ℕ → ℕ → NotificationQueue → ℕ × NotificationQueue
unfolding enqueue
create_and_enqueue id channel contents q =
    enqueue
      (record {
        id = id;
        channel = channel;
        contents = contents;
        retry_count = 0;
        max_retries = q.max_retries;
      })
      q

abbrev pub answer : QueuedNotification → SendStatus → Option ℕ → NotificationResult
answer n status error = record {
  notification_id = n.id;
  channel = n.channel;
  status = status;
  error = error;
}

abbrev pub counted_again : QueuedNotification → QueuedNotification
counted_again n = record n { retry_count = n.retry_count + 1 }

module _ {Ext : Type 0} (send_fn : Option (QueuedNotification → Ext → Result ℕ Bool × Ext))
    (dlq_callback : Option (QueuedNotification → ℕ → Ext → Ext)) where
  abbrev pub dead_letter :
      Option (QueuedNotification → ℕ → Ext → Ext) → QueuedNotification → ℕ → Ext → Ext
  dead_letter none n message ext = ext
  dead_letter (some f) n message ext = f n message ext

  -- the except branch
  abbrev pub not_sent :
      QueuedNotification
      → ℕ
      → NotificationQueue
      → Ext
      → NotificationResult × NotificationQueue × Ext
  not_sent n message q ext =
      if ltb (n.retry_count + 1) n.max_retries
      then (
        answer n SendStatus.retry (some message),
        record q { queue = q.queue ++ (counted_again n ∷ []); retried = q.retried + 1 },
        ext,
      )
      else (
        answer n SendStatus.failed (some message),
        record q { failed = q.failed + 1; moved_to_dlq = q.moved_to_dlq + 1 },
        dead_letter dlq_callback (counted_again n) message ext,
      )

  abbrev pub after_send :
      QueuedNotification
      → Result ℕ Bool × Ext
      → NotificationQueue
      → NotificationResult × NotificationQueue × Ext
  after_send n (ok true, ext) q =
      (answer n SendStatus.success none, record q { sent = q.sent + 1 }, ext)
  after_send n (ok false, ext) q = not_sent n send_returned_false q ext
  after_send n (err message, ext) q = not_sent n message q ext

  abbrev pub try_send :
      Option (QueuedNotification → Ext → Result ℕ Bool × Ext)
      → QueuedNotification
      → NotificationQueue
      → Ext
      → NotificationResult × NotificationQueue × Ext
  try_send none n q ext = (answer n SendStatus.failed (some no_send_function), q, ext)
  try_send (some f) n q ext = after_send n (f n ext) q

  -- _process_one
  unfoldable pub process_one :
      QueuedNotification → NotificationQueue → Ext → NotificationResult × NotificationQueue × Ext
  process_one n q ext = try_send send_fn n q ext

  unfoldable pub process_each :
      List QueuedNotification
      → NotificationQueue
      → Ext
      → List NotificationResult × NotificationQueue × Ext
  unfolding process_one
  process_each [] q ext = ([], q, ext)
  process_each (n ∷ ns) q ext =
      let (result, q', ext') = process_one n q ext in
      let (results, q'', ext'') = process_each ns q' ext' in (result ∷ results, q'', ext'')

  unfoldable pub process :
      NotificationQueue → Ext → List NotificationResult × NotificationQueue × Ext
  unfolding process_each
  process q ext = process_each q.queue (record q { queue = [] }) ext

unfoldable pub get_pending_count : NotificationQueue → ℕ
get_pending_count q = length q.queue
