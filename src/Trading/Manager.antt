-- ===== src/Trading/Manager.antt =====
-- backend/engine/trading/process_manager.py: `TradingProcessManager`, and what its methods share. A
-- method reads the clock once, `now`; `worker_id` is the manager's; `ids` are the uuids of the
-- orders that a start places. The session of the database and the object of a row are the rows
-- themselves.
mod Tests
pub mod Build
pub mod Wire
pub mod Lifecycle
pub mod Recover
pub mod Quiet
pub mod Progress
pub mod Calls
pub mod Yields
pub mod Locks
pub mod Keeping
pub mod Parked
pub mod Settled
pub mod Rescue
pub mod Recovered
use utos.Prelude.{
  ℕ, ◌==◌, Bool, true, false, not, ◌&&◌, Option, none, some, is_some, List, [], ◌∷◌, Result, ok,
  err, pure, raise, gets, modify, lift, or_raise, catch, ◌>>=◌, ◌>>◌, if◌then◌else◌, length,
}
use utos.Prelude.Text.{Text, codes, upper, text_eq}
use utos.Prelude.Decimal.{Decimal, whole}
use utos.Prelude.Dict.{Dict, lookup, insert, erase, number_key}
use utos.Grid.Calculator.{AveragingStep}
use utos.Grid.Engine
use utos.Grid.Engine.{GridEngine, EngineFault, Ids, pause_grid, activate_grid}
use utos.Grid.Engine.Setup.{initialize_grid, configure_circuit_breaker}
use utos.Trading.StateMachine.{
  TradingInstanceStatus, TransitionFault, validate_process_transition, same_status,
}
use utos.Trading.Process.{
  ProcessMemory, MemoryDict, TradingProcess, to_dict, from_dict, set_status, snapshot, status_value,
}
use utos.Trading.Services.{
  Services, System, Action, ProcessFault, TradingInstance, ExchangeAccount, Strategy, GridProfile,
  StateDocument, LockAnswer, ErrorMessage, BreakerConfig, is_registered, text_member,
}
use utos.Trading.Store.{
  attempt, call, own_lock, acquire_lock, release_lock, set_state, with_client, succeeded,
}
use utos.Trading.Averaging.{get_default_averaging_template}

-- the keyword arguments of `_persist_instance`
pub record Changes : Type 0 where
  pub status : Option TradingInstanceStatus
  pub error_message : Option ErrorMessage
  pub started_at : Option ℕ
  pub stopped_at : Option ℕ
  pub memory_snapshot : Option MemoryDict
  pub memory_version : Option ℕ
  pub worker_id : Option ℕ

abbrev pub no_changes : Changes
no_changes = record {
  status = none;
  error_message = none;
  started_at = none;
  stopped_at = none;
  memory_snapshot = none;
  memory_version = none;
  worker_id = none;
}

abbrev pub given : {A : Type 0} → Option A → A → A
given none old = old
given (some new) old = new

abbrev pub given_or_kept : {A : Type 0} → Option A → Option A → Option A
given_or_kept none old = old
given_or_kept (some new) old = some new

unfoldable pub with_changes : Changes → TradingInstance → TradingInstance
with_changes c row = record row {
  status = given c.status row.status;
  error_message = given_or_kept c.error_message row.error_message;
  started_at = given_or_kept c.started_at row.started_at;
  stopped_at = given_or_kept c.stopped_at row.stopped_at;
  memory_snapshot = given_or_kept c.memory_snapshot row.memory_snapshot;
  memory_version = given c.memory_version row.memory_version;
  worker_id = given_or_kept c.worker_id row.worker_id;
}

abbrev pub row_changed :
    Option TradingInstance → ℕ → Changes → Dict ℕ TradingInstance → Dict ℕ TradingInstance
row_changed none id c rows = rows
row_changed (some row) id c rows = insert id (with_changes c row) rows

-- `_persist_instance`
unfoldable pub persist_instance : {E : Type 0} → ℕ → Changes → Action E (Unit {0})
unfolding with_changes
persist_instance id c = modify (λ s. record s { rows = row_changed (lookup id s.rows) id c s.rows })

-- `_get_instance`
unfoldable pub get_instance : {E : Type 0} → ℕ → Action E TradingInstance
get_instance id = do
  found ← gets (λ s. lookup id s.rows)
  or_raise found ProcessFault.instance_not_found

abbrev pub require : {E : Type 0} → Bool → ProcessFault → Action E (Unit {0})
require true fault = pure tt
require false fault = raise fault

-- `_validate_ownership`
unfoldable pub validate_ownership : {E : Type 0} → TradingInstance → ℕ → Action E (Unit {0})
validate_ownership row user_id = require (row.user_id == user_id) ProcessFault.not_owner

abbrev pub transition_result : Result TransitionFault (Unit {0}) → Result ProcessFault (Unit {0})
transition_result (ok u) = ok tt
transition_result (err x) = err (ProcessFault.transition_fault x)

-- the call of `ProcessStateMachine.validate_transition`
unfoldable pub validate_transition :
    {E : Type 0} → TradingInstanceStatus → TradingInstanceStatus → Action E (Unit {0})
validate_transition current target =
    lift (transition_result (validate_process_transition current target))

-- the row, where the user owns it and its status may move to the target
unfoldable pub instance_for :
    {E : Type 0} → ℕ → ℕ → TradingInstanceStatus → Action E TradingInstance
unfolding get_instance validate_ownership validate_transition
instance_for id user_id target = do
  row ← get_instance id
  validate_ownership row user_id
  validate_transition row.status target
  pure row

-- the registry of processes: `_get_process`, `_register`, `_unregister`
unfoldable pub get_process : {E : Type 0} → ℕ → Action E (Option TradingProcess)
get_process id = gets (λ s. lookup id s.registry)

unfoldable pub register : {E : Type 0} → TradingProcess → Action E (Unit {0})
register p = modify (λ s. record s { registry = insert p.instance_id p s.registry })

unfoldable pub unregister : {E : Type 0} → ℕ → Action E (Unit {0})
unregister id = modify (λ s. record s { registry = erase id s.registry })

-- the test of `_check_duplicate_running`
unfoldable pub is_twin : TradingInstance → TradingInstance → Bool
unfolding upper
is_twin row other =
    text_eq (upper other.symbol) (upper row.symbol)
    && (other.exchange_account_id == row.exchange_account_id
        && other.strategy_id == row.strategy_id)

unfoldable pub is_running_twin : ℕ → TradingInstance → ℕ → TradingInstance → Bool
unfolding is_twin
is_running_twin id row i other =
    same_status other.status TradingInstanceStatus.running && (not (i == id) && is_twin row other)

unfoldable pub has_running_twin : ℕ → TradingInstance → Dict ℕ TradingInstance → Bool
has_running_twin id row [] = false
has_running_twin id row ((i, other) ∷ rows) =
    if is_running_twin id row i other then true else has_running_twin id row rows

unfoldable pub check_duplicate_running : {E : Type 0} → ℕ → TradingInstance → Action E (Unit {0})
check_duplicate_running id row = do
  twin ← gets (λ s. has_running_twin id row s.rows)
  require (not twin) ProcessFault.duplicate_running

abbrev pub fresh_memory : ℕ → TradingInstanceStatus → ℕ → ProcessMemory
fresh_memory id status now = record {
  instance_id = id;
  status = status_value status;
  current_price = none;
  last_price_update = none;
  grid_state = none;
  current_position = none;
  unrealized_pnl = whole 0;
  active_orders = codes "{}";
  order_history = codes "[]";
  total_cycles = 0;
  total_profit = whole 0;
  total_fees = whole 0;
  risk_metrics = codes "{}";
  strategy_state = codes "{}";
  market_connected = false;
  account_connected = false;
  last_error = none;
  error_count = 0;
  last_updated = now;
  version = 1;
}
