-- ===== src/Scheduler/Retry/Drain.antt =====
-- No job is lost, and every job is done with after as many rounds as it may be tried.
use native.Mathlib.Nat.{pow-suc}
use utos.Prelude.{
  Bool, true, false, ap, sym, ℕ, zero, suc, ◌+◌, ◌*◌, ◌≤◌, ◌≡◌, ◌∙◌, refl, List, [], ◌∷◌, Result,
  arith, length, length-append, All, All-append, ltb, Bool-cases, Result-cases, inl, inr,
}
use utos.Scheduler.Retry.{
  RetryJob, RetryWorker, again, settle, submit, submitted, process_job, process_each, process_queue,
  get_backoff_seconds,
}

-- what a worker with a callback has handed to it of `n` failures
abbrev pub to_callback : Bool → ℕ → ℕ
to_callback true n = n
to_callback false n = 0

-- Every job that was submitted is waiting, has succeeded or has failed, and each that failed has
-- gone to the dead letters, if the worker has a callback for them.
pub record IsBalanced (w : RetryWorker) : Type 0 where
  pub jobs : w.jobs_submitted ≡ length w.queue + w.jobs_succeeded + w.jobs_failed
  pub letters : length w.dead_letters ≡ to_callback w.has_dlq_callback w.jobs_failed
  pub moved : w.moved_to_dlq ≡ w.jobs_failed

pub submit-IsBalanced :
    (id : ℕ) (run : ℕ → Result ℕ Unit) (w : RetryWorker)
    → IsBalanced w
    → IsBalanced (submit id run w)
unfolding submit
submit-IsBalanced id run w h = ground (arith, length-append w.queue (submitted id run w ∷ []))

-- Each job ends up in one place.
process_job_counts :
    (b : Bool) (job : RetryJob) (w : RetryWorker)
    → w.has_dlq_callback ≡ b
    → let w' = (process_job job w).1 in
      (length w'.queue + w'.jobs_succeeded + w'.jobs_failed
        ≡ suc (length w.queue + w.jobs_succeeded + w.jobs_failed))
      × (w'.jobs_submitted ≡ w.jobs_submitted)
      × (length w'.dead_letters + to_callback b w.jobs_failed
          ≡ to_callback b w'.jobs_failed + length w.dead_letters)
      × (w'.has_dlq_callback ≡ b)
      × (w'.moved_to_dlq + w.jobs_failed ≡ w'.jobs_failed + w.moved_to_dlq)
unfolding process_job settle
process_job_counts true job w has = elim (Result-cases (job.coroutine job.retry_count)) [
  | inl (u, e) ↦ ground arith
  | inr (m, e) ↦ ground (
    arith,
    length-append w.queue (again job m ∷ []),
    length-append w.dead_letters ((job.task_id, m) ∷ []),
  )
]
process_job_counts false job w has = elim (Result-cases (job.coroutine job.retry_count)) [
  | inl (u, e) ↦ ground arith
  | inr (m, e) ↦ ground (arith, length-append w.queue (again job m ∷ []))
]

process_each_counts :
    (b : Bool) (jobs : List RetryJob) (w : RetryWorker)
    → w.has_dlq_callback ≡ b
    → let w' = (process_each jobs w).1 in
      (length w'.queue + w'.jobs_succeeded + w'.jobs_failed
        ≡ length jobs + length w.queue + w.jobs_succeeded + w.jobs_failed)
      × (w'.jobs_submitted ≡ w.jobs_submitted)
      × (length w'.dead_letters + to_callback b w.jobs_failed
          ≡ to_callback b w'.jobs_failed + length w.dead_letters)
      × (w'.has_dlq_callback ≡ b)
      × (w'.moved_to_dlq + w.jobs_failed ≡ w'.jobs_failed + w.moved_to_dlq)
unfolding process_each
process_each_counts b [] w has = ground (arith, has)
process_each_counts b (job ∷ jobs) w has =
    let once = process_job_counts b job w has in
    let rest = process_each_counts b jobs (process_job job w).1 once.3 in ground (arith, once, rest)

-- A round loses no job and counts each one once.
pub process_queue-IsBalanced : (w : RetryWorker) → IsBalanced w → IsBalanced (process_queue w).1
unfolding process_queue
process_queue-IsBalanced w h =
    let counts = process_each_counts w.has_dlq_callback w.queue (record w { queue = [] }) refl in
    let w' = (process_each w.queue (record w { queue = [] })).1 in
    let handed_on : length w'.dead_letters ≡ to_callback w.has_dlq_callback w'.jobs_failed =
      omega (arith, counts.2, h.letters) in
    record {
      jobs = omega (arith, counts.0, counts.1, h.jobs);
      letters = handed_on ∙ ap (λ b. to_callback b w'.jobs_failed) (sym counts.3);
      moved = omega (arith, counts.4, h.moved);
    }

-- Every job in the queue has at most `n` attempts left, and the worker's own limit does not matter.
abbrev pub LeftAtMost : ℕ → List RetryJob → Type 0
LeftAtMost n jobs = All (λ (job : RetryJob). job.max_retries ≤ job.retry_count + n) jobs

process_job_left :
    (n : ℕ) (job : RetryJob) (w : RetryWorker)
    → job.max_retries ≤ job.retry_count + suc n
    → LeftAtMost n w.queue
    → LeftAtMost n (process_job job w).1.queue
unfolding process_job settle
process_job_left n job w j h = elim (Result-cases (job.coroutine job.retry_count)) [
  | inl (u, e) ↦ rw e h
  | inr (m, e) ↦ rw e (elim (Bool-cases (ltb (job.retry_count + 1) job.max_retries)) [
    | inl more ↦ rw more (All-append _ w.queue (again job m ∷ []) h (omega arith, tt))
    | inr done ↦ rw done h
  ])
]

process_each_left :
    (n : ℕ) (jobs : List RetryJob) (w : RetryWorker)
    → LeftAtMost (suc n) jobs
    → LeftAtMost n w.queue
    → LeftAtMost n (process_each jobs w).1.queue
unfolding process_each
process_each_left n [] w j h = h
process_each_left n (job ∷ jobs) w j h =
    process_each_left n jobs (process_job job w).1 j.1 (process_job_left n job w j.0 h)

last_attempt :
    (job : RetryJob) (w : RetryWorker)
    → job.max_retries ≤ job.retry_count + 1
    → (process_job job w).1.queue ≡ w.queue
unfolding process_job settle
last_attempt job w h = elim (Result-cases (job.coroutine job.retry_count)) [
  | inl (u, e) ↦ ground arith
  | inr (m, e) ↦ ground arith
]

last_round :
    (jobs : List RetryJob) (w : RetryWorker)
    → LeftAtMost 1 jobs
    → (process_each jobs w).1.queue ≡ w.queue
unfolding process_each
last_round [] w h = refl
last_round (job ∷ jobs) w h = last_round jobs (process_job job w).1 h.1 ∙ last_attempt job w h.0

-- `process_queue` called n times, with nothing submitted in between.
pub rounds : ℕ → RetryWorker → RetryWorker
rounds zero w = w
rounds (suc n) w = rounds n (process_queue w).1

-- Whatever the jobs do, the queue is empty after as many rounds as any of its jobs may be tried.
pub rounds_drain :
    (n : ℕ) (w : RetryWorker) → LeftAtMost (suc n) w.queue → (rounds (suc n) w).queue ≡ []
unfolding rounds process_queue
rounds_drain zero w h = last_round w.queue (record w { queue = [] }) h
rounds_drain (suc n) w h =
    rounds_drain n (process_queue w).1
      (process_each_left (suc n) w.queue (record w { queue = [] }) h tt)

-- The pause before a further attempt doubles.
pub backoff_doubles :
    (w : RetryWorker) (n : ℕ)
    → get_backoff_seconds w (suc (suc n)) ≡ 2 * get_backoff_seconds w (suc n)
unfolding get_backoff_seconds
backoff_doubles w n = rw pow-suc (omega arith)
