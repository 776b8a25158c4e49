-- ===== src/Scheduler/Tasks.antt =====
-- backend/engine/scheduler/scheduler.py
pub mod Pending
use utos.Prelude.{
  ℕ, suc, ◌+◌, ◌==◌, Bool, true, false, not, Option, none, some, List, [], ◌∷◌, ◌&&◌, Result, ok,
  err, leb, is_some, if◌then◌else◌, length, filter,
}
use utos.Prelude.Dict.{Dict, number_key, lookup, insert, erase, values, keys}

-- The callable answers by how often the task has run or failed before; results and messages are
-- only passed on. Times are in seconds.
pub record ScheduledTask : Type 0 where
  pub id : ℕ
  pub name : ℕ
  pub task_type : ℕ
  pub interval_seconds : ℕ
  pub coroutine : Option (ℕ → Result ℕ ℕ)
  pub last_run : Option ℕ
  pub next_run : Option ℕ
  pub enabled : Bool
  pub run_count : ℕ
  pub failure_count : ℕ

pub record JobScheduler : Type 0 where
  pub tasks : Dict ℕ ScheduledTask
  pub tasks_added : ℕ
  pub tasks_removed : ℕ
  pub tasks_executed : ℕ
  pub tasks_failed : ℕ

-- the dict that `run_task` returns: the task's id and what the callable did
abbrev pub TaskReport : Type 0
TaskReport = ℕ × Result ℕ ℕ

unfoldable pub add_task :
    ℕ → ℕ → ℕ → ℕ → ℕ → Option (ℕ → Result ℕ ℕ) → Bool → JobScheduler → JobScheduler
add_task task_id now name task_type interval coroutine enabled s = record s {
  tasks =
      insert task_id
        (record {
          id = task_id;
          name = name;
          task_type = task_type;
          interval_seconds = interval;
          coroutine = coroutine;
          last_run = none;
          next_run = some (now + interval);
          enabled = enabled;
          run_count = 0;
          failure_count = 0;
        })
        s.tasks;
  tasks_added = s.tasks_added + 1;
}

unfoldable pub remove_task : ℕ → JobScheduler → Bool × JobScheduler
remove_task task_id s =
    if is_some (lookup task_id s.tasks)
    then (true, record s { tasks = erase task_id s.tasks; tasks_removed = s.tasks_removed + 1 })
    else (false, s)

set_enabled : Option ScheduledTask → ℕ → Bool → JobScheduler → Bool × JobScheduler
set_enabled none task_id flag s = (false, s)
set_enabled (some task) task_id flag s =
    (true, record s { tasks = insert task_id (record task { enabled = flag }) s.tasks })

unfoldable pub enable_task : ℕ → JobScheduler → Bool × JobScheduler
unfolding set_enabled
enable_task task_id s = set_enabled (lookup task_id s.tasks) task_id true s

unfoldable pub disable_task : ℕ → JobScheduler → Bool × JobScheduler
unfolding set_enabled
disable_task task_id s = set_enabled (lookup task_id s.tasks) task_id false s

-- last_run and next_run are set before the callable is run
abbrev pub started : ℕ → ScheduledTask → ScheduledTask
started now task = record task {
  last_run = some now;
  next_run = some (now + task.interval_seconds);
}

task_answered : Result ℕ ℕ → ScheduledTask → ℕ → JobScheduler → Option TaskReport × JobScheduler
task_answered (ok result) task task_id s = (
  some (task_id, ok result),
  record s {
    tasks = insert task_id (record task { run_count = task.run_count + 1 }) s.tasks;
    tasks_executed = s.tasks_executed + 1;
  },
)
task_answered (err message) task task_id s = (
  some (task_id, err message),
  record s {
    tasks = insert task_id (record task { failure_count = task.failure_count + 1 }) s.tasks;
    tasks_failed = s.tasks_failed + 1;
  },
)

run_callable :
    Option (ℕ → Result ℕ ℕ)
    → ScheduledTask
    → ℕ
    → ℕ
    → JobScheduler
    → Option TaskReport × JobScheduler
unfolding task_answered
run_callable none task task_id now s = (none, s)
run_callable (some f) task task_id now s =
    task_answered (f (task.run_count + task.failure_count)) (started now task) task_id s

run_found : Option ScheduledTask → ℕ → ℕ → JobScheduler → Option TaskReport × JobScheduler
unfolding run_callable
run_found none task_id now s = (none, s)
run_found (some task) task_id now s =
    if task.enabled then run_callable task.coroutine task task_id now s else (none, s)

unfoldable pub run_task : ℕ → ℕ → JobScheduler → Option TaskReport × JobScheduler
unfolding run_found
run_task task_id now s = run_found (lookup task_id s.tasks) task_id now s

abbrev pub collect_report : Option TaskReport → List TaskReport → List TaskReport
collect_report none reports = reports
collect_report (some report) reports = report ∷ reports

unfoldable pub run_each : List ℕ → ℕ → JobScheduler → List TaskReport × JobScheduler
run_each [] now s = ([], s)
run_each (task_id ∷ ids) now s =
    let (report, s') = run_task task_id now s in
    let (reports, s'') = run_each ids now s' in (collect_report report reports, s'')

unfoldable pub run_all : ℕ → JobScheduler → List TaskReport × JobScheduler
run_all now s = run_each (keys s.tasks) now s

-- t.next_run is None or t.next_run <= now
abbrev pub is_due : ℕ → Option ℕ → Bool
is_due now none = true
is_due now (some t) = leb t now

abbrev pub is_pending : ℕ → ScheduledTask → Bool
is_pending now task = task.enabled && is_due now task.next_run

unfoldable pub get_pending_tasks : ℕ → JobScheduler → List ScheduledTask
get_pending_tasks now s = filter (is_pending now) (values s.tasks)

unfoldable pub get_tasks_by_type : ℕ → JobScheduler → List ScheduledTask
get_tasks_by_type task_type s = filter (λ t. t.task_type == task_type) (values s.tasks)
