-- ===== src/Scheduler/Retry.antt =====
-- backend/engine/scheduler/retry.py. The default worker has no dead-letter callback.
pub mod Drain
use utos.Prelude.{
  ℕ, zero, suc, ◌+◌, ◌-◌, ◌*◌, ◌^◌, Bool, true, false, Option, none, some, List, [], ◌∷◌, ◌++◌,
  Result, ok, err, ltb, leb, if◌then◌else◌, length,
}

-- The callable answers by how many attempts came before; an error is the message it raises.
pub record RetryJob : Type 0 where
  pub task_id : ℕ
  pub coroutine : ℕ → Result ℕ (Unit {0})
  pub retry_count : ℕ
  pub max_retries : ℕ
  pub last_error : Option ℕ

pub data Outcome : Type 0 where
  success retry failed : Outcome

-- the dict that `_process_job` returns
pub record JobReport : Type 0 where
  pub task_id : ℕ
  pub status : Outcome
  pub attempts : ℕ

-- `dead_letters` is what the DLQ callback has been given; an error in the callback is swallowed.
pub record RetryWorker : Type 0 where
  pub max_retries : ℕ
  pub backoff_base : ℕ
  pub queue : List RetryJob
  pub jobs_submitted : ℕ
  pub jobs_succeeded : ℕ
  pub jobs_retried : ℕ
  pub jobs_failed : ℕ
  pub moved_to_dlq : ℕ
  pub slept : ℕ
  pub has_dlq_callback : Bool
  pub dead_letters : List (ℕ × ℕ)

unfoldable pub get_backoff_seconds : RetryWorker → ℕ → ℕ
get_backoff_seconds w zero = 0
get_backoff_seconds w (suc n) = w.backoff_base * 2 ^ n

-- the job that `submit` makes
abbrev pub submitted : ℕ → (ℕ → Result ℕ (Unit {0})) → RetryWorker → RetryJob
submitted task_id coroutine w = record {
  task_id = task_id;
  coroutine = coroutine;
  retry_count = 0;
  max_retries = w.max_retries;
  last_error = none;
}

unfoldable pub submit : ℕ → (ℕ → Result ℕ (Unit {0})) → RetryWorker → RetryWorker
submit task_id coroutine w = record w {
  queue = w.queue ++ submitted task_id coroutine w ∷ [];
  jobs_submitted = w.jobs_submitted + 1;
}

-- the pause before an attempt that is not the first
abbrev pause : RetryJob → RetryWorker → RetryWorker
pause job w = record w { slept = w.slept + get_backoff_seconds w job.retry_count }

-- the job after a failed attempt
abbrev pub again : RetryJob → ℕ → RetryJob
again job message = record job { retry_count = job.retry_count + 1; last_error = some message }

-- the call of the callback, where there is one
abbrev pub handed : Bool → ℕ × ℕ → List (ℕ × ℕ) → List (ℕ × ℕ)
handed true letter letters = letters ++ letter ∷ []
handed false letter letters = letters

settle : Result ℕ (Unit {0}) → RetryJob → RetryWorker → JobReport × RetryWorker
settle (ok _) job w = (
  record { task_id = job.task_id; status = success; attempts = job.retry_count + 1 },
  record w { jobs_succeeded = w.jobs_succeeded + 1 },
)
settle (err message) job w =
    if ltb (job.retry_count + 1) job.max_retries
    then (
      record { task_id = job.task_id; status = retry; attempts = job.retry_count + 1 },
      record w { queue = w.queue ++ again job message ∷ []; jobs_retried = w.jobs_retried + 1 },
    )
    else (
      record { task_id = job.task_id; status = failed; attempts = job.retry_count + 1 },
      record w {
        jobs_failed = w.jobs_failed + 1;
        moved_to_dlq = w.moved_to_dlq + 1;
        dead_letters = handed w.has_dlq_callback (job.task_id, message) w.dead_letters;
      },
    )

unfoldable pub process_job : RetryJob → RetryWorker → JobReport × RetryWorker
unfolding settle
process_job job w = settle (job.coroutine job.retry_count) job (pause job w)

unfoldable pub process_each : List RetryJob → RetryWorker → List JobReport × RetryWorker
process_each [] w = ([], w)
process_each (job ∷ jobs) w =
    let (report, w') = process_job job w in
    let (reports, w'') = process_each jobs w' in (report ∷ reports, w'')

-- The queue is copied and emptied before its jobs are run.
unfoldable pub process_queue : RetryWorker → List JobReport × RetryWorker
process_queue w = process_each w.queue (record w { queue = [] })
