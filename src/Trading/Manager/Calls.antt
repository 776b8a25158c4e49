-- ===== src/Trading/Manager/Calls.antt =====
-- The calls of the users, in any order.
use utos.Prelude.{
  Bool, if◌then◌else◌, ℕ, ◌==◌, ◌≡◌, refl, ◌∙◌, subst, false, Option, none, some, List, [], ◌∷◌, ok,
  err, ◌>>=◌, bind_err, Bool-cases, inl, inr, ==_iff,
}
use utos.Prelude.Dict.{Dict, lookup, number_key}
use utos.Grid.Engine.{Ids, GridEngine}
use utos.Trading.StateMachine.{TradingInstanceStatus, validate_process_transition}
use utos.Trading.StateMachine.Lifecycle.{Lifecycle, here, next}
use utos.Trading.Process.{TradingProcess}
use utos.Trading.Services.{Services, System, Action, ProcessFault, TradingInstance}
use utos.Trading.Manager.{instance_for, with_changes}
use utos.Trading.Manager.Lifecycle.{
  prepare, start, pause, resume, stop, run_process, move_process, process_of, found_or_built,
  persist_state, end_process,
}
use utos.Trading.Manager.Quiet.{
  Quiet, step_rules, Quiet-get_account, Quiet-check_duplicate_running, Quiet-set_state,
  Quiet-acquire_lock, Quiet-release_lock, Quiet-validate_account, Quiet-authenticate_adapter,
  Quiet-validate_symbol, Quiet-build_process, Quiet-wire_grid_and_market,
  Quiet-unwire_grid_and_market,
}
use utos.Trading.Manager.Progress.{
  Moves, Advancing, Moves-Quiet, Moves-bind, Moves-then, Moves-persist, Moves-persist_then,
  Advancing-instance_for, instance_for-foreign, Lifecycle-append,
}

ruleset call_rules = (
  step_rules, Quiet-get_account, Quiet-check_duplicate_running, Quiet-set_state, Quiet-acquire_lock,
  Quiet-release_lock, Quiet-validate_account, Quiet-authenticate_adapter, Quiet-validate_symbol,
  Quiet-build_process, Quiet-wire_grid_and_market, Quiet-unwire_grid_and_market,
)

one_step :
    {p : TradingInstanceStatus} (q : TradingInstanceStatus)
    → validate_process_transition p q ≡ ok tt
    → Lifecycle p q
one_step q valid = next q here valid

module _ {E : Type 0} (sv : Services E) (worker_id : ℕ) (now : ℕ) where
  Quiet-persist_state : (p : TradingProcess) → Quiet (persist_state sv worker_id now p)
  unfolding persist_state
  Quiet-persist_state p = search call_rules

  Quiet-found_or_built :
      (id : ℕ) (row : TradingInstance) (found : Option TradingProcess)
      → Quiet (found_or_built sv worker_id now id row found)
  Quiet-found_or_built id row none = search call_rules
  Quiet-found_or_built id row (some p) = search call_rules

  Quiet-process_of : (id : ℕ) (row : TradingInstance) → Quiet (process_of sv worker_id now id row)
  unfolding process_of
  Quiet-process_of id row = search (call_rules, Quiet-found_or_built)

  Quiet-end_process :
      (id : ℕ) (p : Option TradingProcess) → Quiet (end_process sv worker_id now id p)
  Quiet-end_process id none = search call_rules
  Quiet-end_process id (some p) = search call_rules

  ruleset move_rules = (
    call_rules, Quiet-persist_state, Quiet-process_of, Quiet-end_process, Moves-bind, Moves-then,
    Moves-persist, Moves-Quiet, one_step, Advancing-instance_for,
  )

  prepare-Advancing : (id user_id : ℕ) → Advancing id (prepare sv worker_id now id user_id)
  unfolding prepare
  prepare-Advancing id user_id = search move_rules depth 20

  run_process-Moves :
      (ids : Ids) (id : ℕ) (row : TradingInstance) (p : TradingProcess)
      → validate_process_transition row.status TradingInstanceStatus.running ≡ ok tt
      → Moves id row (run_process sv worker_id now ids id row p)
  unfolding run_process
  run_process-Moves ids id row p valid = search move_rules depth 14

  move_process-Moves :
      (id : ℕ) (row : TradingInstance) (status : TradingInstanceStatus) (p : TradingProcess)
      → validate_process_transition row.status status ≡ ok tt
      → Moves id row (move_process sv worker_id now status id p)
  unfolding move_process
  move_process-Moves id row status p valid = search move_rules depth 14

  start-Advancing :
      (ids : Ids) (id user_id : ℕ) → Advancing id (start sv worker_id now ids id user_id)
  unfolding start
  start-Advancing ids id user_id = search (move_rules, run_process-Moves) depth 20

  pause-Advancing : (id user_id : ℕ) → Advancing id (pause sv worker_id now id user_id)
  unfolding pause
  pause-Advancing id user_id = search (move_rules, move_process-Moves) depth 20

  resume-Advancing : (id user_id : ℕ) → Advancing id (resume sv worker_id now id user_id)
  unfolding resume
  resume-Advancing id user_id = search (move_rules, move_process-Moves) depth 20

  stopping_stops :
      validate_process_transition TradingInstanceStatus.stopping TradingInstanceStatus.stopped
      ≡ ok tt
  unfolding validate_process_transition
  stopping_stops = refl

  stop-Advancing : (id user_id : ℕ) → Advancing id (stop sv worker_id now id user_id)
  unfolding stop with_changes
  stop-Advancing id user_id = search (move_rules, Moves-persist_then, stopping_stops) depth 20

-- the call raises where the user does not own the process, and changes nothing
record Refuses {E A : Type 0} (id user_id : ℕ) (m : Action E A) : Type 0 where
  at :
      (row : TradingInstance) (s : System E)
      → lookup id s.rows ≡ some row
      → (row.user_id == user_id) ≡ false
      → m s ≡ (err ProcessFault.not_owner, s)

Refuses-instance_for :
    {E B : Type 0} (id user_id : ℕ) (t : TradingInstanceStatus) (f : TradingInstance → Action E B)
    → Refuses id user_id (instance_for id user_id t >>= f)
Refuses-instance_for id user_id t f = record {
  at = λ row s found other.
      bind_err (instance_for id user_id t) f s s ProcessFault.not_owner
        (instance_for-foreign id user_id t s row found other);
}

-- The calls that change something.
pub data Call : Type 0 where
  prepare_call : Call
  start_call : Ids → Call
  pause_call resume_call stop_call : Call

-- a call with the worker, the instant, the process and the user
pub record Request : Type 0 where
  pub call : Call
  pub worker_id : ℕ
  pub now : ℕ
  pub id : ℕ
  pub user_id : ℕ

-- what a worker has of its own
pub record WorkerMemory : Type 0 where
  pub registry : Dict ℕ TradingProcess
  pub grid_engine : Option GridEngine
  pub hub_ready : Bool
  pub redis_ready : Bool

-- All workers: what they have of their own, and what is common, whose own parts are those of the
-- worker that was the last to be called.
pub record Workers (E : Type 0) : Type 0 where
  pub common : System E
  pub memories : ℕ → WorkerMemory

-- what the worker sees
abbrev pub seen_by : {E : Type 0} → ℕ → Workers E → System E
seen_by worker_id ws = record ws.common {
  registry = (ws.memories worker_id).registry;
  grid_engine = (ws.memories worker_id).grid_engine;
  hub_ready = (ws.memories worker_id).hub_ready;
  redis_ready = (ws.memories worker_id).redis_ready;
}

abbrev pub own_part : {E : Type 0} → System E → WorkerMemory
own_part s = record {
  registry = s.registry;
  grid_engine = s.grid_engine;
  hub_ready = s.hub_ready;
  redis_ready = s.redis_ready;
}

-- the workers after a call by one of them
abbrev pub left_by : {E : Type 0} → ℕ → Workers E → System E → Workers E
left_by worker_id ws s = record {
  common = s;
  memories = λ w. if w == worker_id then own_part s else ws.memories w;
}

module _ {E : Type 0} (sv : Services E) where
  abbrev pub run_call : Call → ℕ → ℕ → ℕ → ℕ → Action E (Unit {0})
  run_call Call.prepare_call w now id user_id = prepare sv w now id user_id
  run_call (Call.start_call ids) w now id user_id = start sv w now ids id user_id
  run_call Call.pause_call w now id user_id = pause sv w now id user_id
  run_call Call.resume_call w now id user_id = resume sv w now id user_id
  run_call Call.stop_call w now id user_id = stop sv w now id user_id

  abbrev pub run_request : Request → Action E (Unit {0})
  run_request r = run_call r.call r.worker_id r.now r.id r.user_id

  abbrev pub run_at : Request → Workers E → Workers E
  run_at r ws = left_by r.worker_id ws (run_request r (seen_by r.worker_id ws)).1

  abbrev pub run_requests : List Request → Workers E → Workers E
  run_requests [] ws = ws
  run_requests (r ∷ rs) ws = run_requests rs (run_at r ws)

  call-Advancing : (c : Call) (w now id user_id : ℕ) → Advancing id (run_call c w now id user_id)
  call-Advancing Call.prepare_call w now id user_id = prepare-Advancing sv w now id user_id
  call-Advancing (Call.start_call ids) w now id user_id = start-Advancing sv w now ids id user_id
  call-Advancing Call.pause_call w now id user_id = pause-Advancing sv w now id user_id
  call-Advancing Call.resume_call w now id user_id = resume-Advancing sv w now id user_id
  call-Advancing Call.stop_call w now id user_id = stop-Advancing sv w now id user_id

  -- a row stays, and its status has moved along the table
  abbrev pub Lives : ℕ → TradingInstance → System E → Type 0
  Lives j row s =
      (row' : TradingInstance) × (lookup j s.rows ≡ some row') × Lifecycle row.status row'.status

  request-Lives :
      (r : Request) (j : ℕ) (row : TradingInstance) (s : System E)
      → lookup j s.rows ≡ some row
      → Lives j row (run_request r s).1
  request-Lives r j row s found =
      let moved = (call-Advancing r.call r.worker_id r.now r.id r.user_id).at s in
      elim (Bool-cases (r.id == j)) [
        | inl same ↦
            subst (λ i. lookup i s.rows ≡ some row → Lives i row (run_request r s).1)
              ((==_iff r.id j).0 same) (moved.along row) found
        | inr other ↦ (row, moved.others j other ∙ found, here)
      ]

  -- Whatever users call, in any order, for any processes and at any workers, each with processes and
  -- a grid engine of its own, with any answers of Redis, the exchanges and the market hub: a row
  -- stays, and its status moves only along the table of transitions.
  pub requests-Lives :
      (rs : List Request) (j : ℕ) (row : TradingInstance) (ws : Workers E)
      → lookup j ws.common.rows ≡ some row
      → Lives j row (run_requests rs ws).common
  requests-Lives [] j row ws found = (row, found, here)
  requests-Lives (r ∷ rs) j row ws found =
      let (row', found', first) = request-Lives r j row (seen_by r.worker_id ws) found in
      let (row'', found'', rest) = requests-Lives rs j row' (run_at r ws) found' in
      (row'', found'', Lifecycle-append first rest)

  call-Refuses :
      (c : Call) (w now id user_id : ℕ) → Refuses id user_id (run_call c w now id user_id)
  unfolding prepare start pause resume stop
  call-Refuses Call.prepare_call w now id user_id = search (Refuses-instance_for)
  call-Refuses (Call.start_call ids) w now id user_id = search (Refuses-instance_for)
  call-Refuses Call.pause_call w now id user_id = search (Refuses-instance_for)
  call-Refuses Call.resume_call w now id user_id = search (Refuses-instance_for)
  call-Refuses Call.stop_call w now id user_id = search (Refuses-instance_for)

  -- A call for a process of another user raises, and neither changes anything nor calls Redis, an
  -- exchange or the market hub.
  pub foreign_refused :
      (c : Call) (w now id user_id : ℕ) (row : TradingInstance) (s : System E)
      → lookup id s.rows ≡ some row
      → (row.user_id == user_id) ≡ false
      → run_call c w now id user_id s ≡ (err ProcessFault.not_owner, s)
  foreign_refused c w now id user_id = (call-Refuses c w now id user_id).at
