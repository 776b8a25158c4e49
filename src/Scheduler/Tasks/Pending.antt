-- ===== src/Scheduler/Tasks/Pending.antt =====
-- What a run does to a task, and to the counters.
use utos.Prelude.{
  ℕ, ◌+◌, ◌≡◌, refl, true, Option, none, some, List, [], ◌∷◌, Result, ok, err, arith, length, leb,
  if_both, if_true, ◌&&◌,
}
use utos.Prelude.Dict.{number_key, lookup, lookup-insert_self}
use utos.Scheduler.Tasks.{
  ScheduledTask, JobScheduler, TaskReport, run_task, run_found, run_callable, task_answered,
  run_each, run_all, started, is_pending, collect_report,
}

-- The counters have moved by the reports that were made.
abbrev Counts : JobScheduler → Option TaskReport × JobScheduler → Type 0
Counts s (report, s') =
    s'.tasks_executed + s'.tasks_failed
    ≡ length (collect_report report []) + s.tasks_executed + s.tasks_failed

answered-Counts :
    (answer : Result ℕ ℕ) (task : ScheduledTask) (id : ℕ) (s : JobScheduler)
    → Counts s (task_answered answer task id s)
unfolding task_answered
answered-Counts (ok r) task id s = omega arith
answered-Counts (err m) task id s = omega arith

callable-Counts :
    (c : Option (ℕ → Result ℕ ℕ)) (task : ScheduledTask) (id now : ℕ) (s : JobScheduler)
    → Counts s (run_callable c task id now s)
unfolding run_callable
callable-Counts none task id now s = omega arith
callable-Counts (some f) task id now s = answered-Counts _ (started now task) id s

found-Counts :
    (o : Option ScheduledTask) (id now : ℕ) (s : JobScheduler) → Counts s (run_found o id now s)
unfolding run_found
found-Counts none id now s = omega arith
found-Counts (some task) id now s =
    if_both (Counts s) task.enabled (run_callable task.coroutine task id now s) (none, s)
      (callable-Counts task.coroutine task id now s) (omega arith)

run_task-Counts : (id now : ℕ) (s : JobScheduler) → Counts s (run_task id now s)
unfolding run_task
run_task-Counts id now s = found-Counts (lookup id s.tasks) id now s

length-collect_report :
    (r : Option TaskReport) (rs : List TaskReport)
    → length (collect_report r rs) ≡ length (collect_report r []) + length rs
length-collect_report none rs = omega arith
length-collect_report (some r) rs = omega arith

run_each_counts :
    (ids : List ℕ) (now : ℕ) (s : JobScheduler)
    → let (reports, s') = run_each ids now s in
      s'.tasks_executed + s'.tasks_failed ≡ length reports + s.tasks_executed + s.tasks_failed
unfolding run_each
run_each_counts [] now s = omega arith
run_each_counts (id ∷ ids) now s = omega (
  arith,
  run_task-Counts id now s,
  run_each_counts ids now (run_task id now s).1,
  length-collect_report (run_task id now s).0 (run_each ids now (run_task id now s).1).0,
)

-- `run_all` reports once for each run that the counters count.
pub run_all_counts :
    (now : ℕ) (s : JobScheduler)
    → let (reports, s') = run_all now s in
      s'.tasks_executed + s'.tasks_failed ≡ length reports + s.tasks_executed + s.tasks_failed
unfolding run_all
run_all_counts now s = run_each_counts _ now s

-- What a run leaves of a task: one more run or failure, and a wait of one interval.
abbrev pub Waits : ℕ → ScheduledTask → ScheduledTask → Type 0
Waits now task after =
    (after.run_count + after.failure_count ≡ task.run_count + task.failure_count + 1)
    × (after.enabled ≡ task.enabled)
    × ((later : ℕ)
        → is_pending later after ≡ task.enabled && leb (now + task.interval_seconds) later)

answered-Waits :
    (answer : Result ℕ ℕ) (now id : ℕ) (task : ScheduledTask) (s : JobScheduler)
    → (after : ScheduledTask) × (lookup id (task_answered answer (started now task) id s).1.tasks
        ≡ some after)
      × Waits now task after
unfolding task_answered
answered-Waits (ok r) now id task s = (
  record (started now task) { run_count = task.run_count + 1 },
  lookup-insert_self id _ s.tasks,
  (omega arith, refl, λ later. refl),
)
answered-Waits (err m) now id task s = (
  record (started now task) { failure_count = task.failure_count + 1 },
  lookup-insert_self id _ s.tasks,
  (omega arith, refl, λ later. refl),
)

callable-Waits :
    (c : Option (ℕ → Result ℕ ℕ)) (f : ℕ → Result ℕ ℕ) (now id : ℕ) (task : ScheduledTask)
    (s : JobScheduler)
    → c ≡ some f
    → (after : ScheduledTask) × (lookup id (run_callable c task id now s).1.tasks ≡ some after)
      × Waits now task after
unfolding run_callable
callable-Waits none f now id task s h = absurd (ground arith)
callable-Waits (some g) f now id task s h = answered-Waits _ now id task s

-- A task that is enabled and has a callable waits for its interval after a run, whether the run
-- succeeded or failed: it is pending again exactly from then on, and it has run once more.
pub run_task-Waits :
    (id now : ℕ) (task : ScheduledTask) (f : ℕ → Result ℕ ℕ) (s : JobScheduler)
    → lookup id s.tasks ≡ some task
    → task.enabled ≡ true
    → task.coroutine ≡ some f
    → (after : ScheduledTask) × (lookup id (run_task id now s).1.tasks ≡ some after)
      × Waits now task after
unfolding run_task
run_task-Waits id now task f s e on callable =
    rw (e, run_found)
      (rw (if_true task.enabled _ _ on) (callable-Waits task.coroutine f now id task s callable))
