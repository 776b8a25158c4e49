-- ===== src/Notification/Queue/Drain.antt =====
-- What becomes of the notifications of a queue.
use utos.Prelude.{
  ℕ, suc, ◌+◌, ltb, ◌≡◌, refl, Bool, true, false, Option, none, some, List, [], ◌∷◌, Result, ok,
  err, if_both, length, length-append, arith,
}
use utos.Notification.Queue.{
  QueuedNotification, NotificationResult, NotificationQueue, enqueue, process_each, process,
  not_sent, after_send, counted_again,
}

-- Every notification that was enqueued is sent, failed, or still pending, and those that failed have
-- gone to the dead letters.
pub record IsBalanced (q : NotificationQueue) : Type 0 where
  pub settled : q.enqueued ≡ q.sent + q.failed + length q.queue
  pub dead : q.failed ≡ q.moved_to_dlq

pub enqueue-IsBalanced :
    (n : QueuedNotification) (q : NotificationQueue) → IsBalanced q → IsBalanced (enqueue n q).1
unfolding enqueue
enqueue-IsBalanced n q h = record {
  settled = ground (arith, h.settled, length-append q.queue (n ∷ []));
  dead = h.dead;
}

-- the same while `extra` notifications are taken out of the queue and not yet processed
record IsOwed (extra : ℕ) (q : NotificationQueue) : Type 0 where
  pub settled : q.enqueued ≡ q.sent + q.failed + length q.queue + extra
  pub dead : q.failed ≡ q.moved_to_dlq

module _ {Ext : Type 0} (send : QueuedNotification → Ext → Result ℕ Bool × Ext)
    (dlq_callback : Option (QueuedNotification → ℕ → Ext → Ext)) where
  not_sent-IsOwed :
      (extra message : ℕ) (n : QueuedNotification) (q : NotificationQueue) (ext : Ext)
      → IsOwed (suc extra) q
      → IsOwed extra (not_sent (some send) dlq_callback n message q ext).1
  not_sent-IsOwed extra message n q ext h =
      if_both (λ (r : NotificationResult × NotificationQueue × Ext). IsOwed extra r.1)
        (ltb (n.retry_count + 1) n.max_retries) _ _
        (record {
          settled = ground (arith, h.settled, length-append q.queue (counted_again n ∷ []));
          dead = h.dead;
        })
        (record { settled = ground (arith, h.settled); dead = ground (arith, h.dead) })

  after_send-IsOwed :
      (extra : ℕ) (n : QueuedNotification) (r : Result ℕ Bool × Ext) (q : NotificationQueue)
      → IsOwed (suc extra) q
      → IsOwed extra (after_send (some send) dlq_callback n r q).1
  after_send-IsOwed extra n (ok true, ext) q h = record {
    settled = ground (arith, h.settled);
    dead = h.dead;
  }
  after_send-IsOwed extra n (ok false, ext) q h = not_sent-IsOwed extra _ n q ext h
  after_send-IsOwed extra n (err message, ext) q h = not_sent-IsOwed extra message n q ext h

  process_each-IsOwed :
      (ns : List QueuedNotification) (q : NotificationQueue) (ext : Ext)
      → IsOwed (length ns) q
      → IsOwed 0 (process_each (some send) dlq_callback ns q ext).1
  unfolding process_each
  process_each-IsOwed [] q ext h = h
  process_each-IsOwed (n ∷ ns) q ext h =
      process_each-IsOwed ns _ _ (after_send-IsOwed (length ns) n (send n ext) q h)

  -- Processing the queue with a sending function keeps the balance, whatever the sends answer.
  pub process-IsBalanced :
      (q : NotificationQueue) (ext : Ext)
      → IsBalanced q
      → IsBalanced (process (some send) dlq_callback q ext).1
  unfolding process
  process-IsBalanced q ext h =
      let done =
        process_each-IsOwed q.queue (record q { queue = [] }) ext
          (record { settled = ground (arith, h.settled); dead = h.dead }) in
      record { settled = ground (arith, done.settled); dead = done.dead }

module _ {Ext : Type 0} (dlq_callback : Option (QueuedNotification → ℕ → Ext → Ext)) where
  unsent_each :
      (ns : List QueuedNotification) (q : NotificationQueue) (ext : Ext)
      → let (results, q', ext') = process_each none dlq_callback ns q ext in
        (length results ≡ length ns) × (q' ≡ q) × (ext' ≡ ext)
  unfolding process_each
  unsent_each [] q ext = (refl, refl, refl)
  unsent_each (n ∷ ns) q ext =
      let (count, same, still) = unsent_each ns q ext in (omega (arith, count), same, still)

  -- Without a sending function the queue is emptied, and no counter and no dead letter tells of the
  -- notifications that were in it.
  pub process-drops :
      (q : NotificationQueue) (ext : Ext)
      → let (results, q', ext') = process none dlq_callback q ext in
        (length results ≡ length q.queue) × (q' ≡ record q { queue = [] }) × (ext' ≡ ext)
  unfolding process
  process-drops q ext = unsent_each q.queue (record q { queue = [] }) ext
