-- ===== src/Scheduler/Tests.antt =====
-- The theorems on backend/engine/scheduler, at concrete jobs, entries, tasks and events.
use utos.Prelude.{◌≡◌, ◌+◌, refl, true, false, none, some, [], ◌∷◌, ◌++◌, ok, err, arith}
use utos.Prelude.Dict.{lookup, number_key}
use utos.Scheduler.Retry.{RetryJob, RetryWorker, process_queue}
use utos.Scheduler.Retry.Drain.{IsBalanced, process_queue-IsBalanced, rounds, rounds_drain}
use utos.Scheduler.Dlq.{DeadLetterEntry, DeadLetterQueue, replay}
use utos.Scheduler.Dlq.Account.{IsAccounted, replay-IsAccounted}
use utos.Scheduler.Bus.{EventBus, of_type, publish, get_subscribers}
use utos.Scheduler.Bus.Delivery.{quiet, publish_lem}

-- a job that never succeeds
abbrev hopeless : RetryJob
hopeless = record {
  task_id = 4;
  coroutine = λ n. err 8;
  retry_count = 0;
  max_retries = 2;
  last_error = none;
}

abbrev worker : RetryWorker
worker = record {
  max_retries = 2;
  backoff_base = 1;
  queue = hopeless ∷ [];
  jobs_submitted = 1;
  jobs_succeeded = 0;
  jobs_retried = 0;
  jobs_failed = 0;
  moved_to_dlq = 0;
  slept = 0;
  has_dlq_callback = true;
  dead_letters = [];
}

process_queue-IsBalanced_example : IsBalanced (process_queue worker).1
process_queue-IsBalanced_example =
    process_queue-IsBalanced worker (record { jobs = refl; letters = refl; moved = refl })

rounds_drain_example : (rounds 2 worker).queue ≡ []
rounds_drain_example = rounds_drain 1 worker (omega arith, tt)

abbrev letter : DeadLetterEntry
letter = record {
  id = 5;
  event_type = 1;
  content = 2;
  metadata = 0;
  reason = 3;
  created_at = 9;
  replay_count = 0;
}

abbrev letters : DeadLetterQueue
letters = record {
  entries = (5, letter) ∷ [];
  replay_handler = some (λ entry. ok true);
  entries_added = 1;
  entries_replayed = 0;
  entries_replay_succeeded = 0;
  entries_replay_failed = 0;
  entries_cleared = 0;
}

replay-IsAccounted_example : IsAccounted (replay 5 letters).1
unfolding lookup
replay-IsAccounted_example =
    replay-IsAccounted 5 letters (record { distinct = (refl, tt); added = refl })

-- two subscribers, the first of which raises
abbrev bus : EventBus
bus = record {
  subscribers =
      (
        1,
        record { id = 11; raises = λ event. true }
            ∷ record { id = 12; raises = λ event. false }
            ∷ [],
      )
      ∷ [];
  events_published = 0;
  events_delivered = 0;
  subscribers_added = 2;
  subscribers_removed = 0;
  called = [];
}

publish_lem_example :
    let b' = publish 1 40 bus in
    (b'.called ≡ [] ++ get_subscribers 1 bus)
    × (b'.events_delivered ≡ 0 + quiet (of_type 1 bus) 40)
    × (b'.events_published ≡ 0 + 1)
    × (b'.subscribers ≡ bus.subscribers)
publish_lem_example = publish_lem 1 40 bus
