-- ===== src/Trading/Manager/Recover.antt =====
-- process_manager.py: `recover` and `_recover_instance`, at the start of the application.
use utos.Prelude.{
  ℕ, Bool, true, false, not, Option, none, some, List, [], ◌∷◌, ◌++◌, Result, ok, err, pure, raise,
  ◌>>=◌, ◌>>◌, if◌then◌else◌,
}
use utos.Prelude.Dict.{Dict, lookup, number_key}
use utos.Trading.StateMachine.{TradingInstanceStatus, same_status}
use utos.Trading.Process.{TradingProcess, to_dict, set_status}
use utos.Trading.Services.{
  Services, System, Action, ProcessFault, TradingInstance, LockAnswer, ErrorMessage,
}
use utos.Trading.Store.{call, own_lock, acquire_lock, with_client}
use utos.Trading.Manager.{persist_instance, no_changes, validate_transition, register}
use utos.Trading.Manager.Build.{build_process, validate_symbol}
use utos.Trading.Manager.Lifecycle.{persist_state}

-- the ids of the rows of a status: `get_by_status`
unfoldable pub ids_in_status : TradingInstanceStatus → Dict ℕ TradingInstance → List ℕ
ids_in_status status [] = []
ids_in_status status ((i, row) ∷ rows) =
    let rest = ids_in_status status rows in if same_status row.status status then i ∷ rest else rest

-- the status that a process returns to
abbrev pub final_status : TradingInstanceStatus → TradingInstanceStatus
final_status TradingInstanceStatus.running = TradingInstanceStatus.running
final_status TradingInstanceStatus.recovering = TradingInstanceStatus.running
final_status _ = TradingInstanceStatus.paused

module _ {E : Type 0} where
  unfoldable pub fail_with : ℕ → ErrorMessage → Action E (Unit {0})
  fail_with id message = persist_instance id (record no_changes {
    status = some TradingInstanceStatus.error;
    error_message = some message;
  })

  -- `current_lock and not current_lock.startswith(bytes)`: startswith of a text raises for bytes
  abbrev pub held_by_other : ℕ → Option LockAnswer → Action E Bool
  held_by_other worker_id none = pure false
  held_by_other worker_id (some (LockAnswer.decoded value)) = raise ProcessFault.lock_type_error
  held_by_other worker_id (some (LockAnswer.bytes value)) = pure (not (own_lock worker_id value))

module _ {E : Type 0} (sv : Services E) (worker_id : ℕ) (now : ℕ) where
  -- whether another worker holds the lock that was refused
  unfoldable pub is_split : ℕ → Bool → Action E Bool
  unfolding call
  is_split id true = pure false
  is_split id false =
      with_client false
        do current_lock ← call (sv.redis.get_lock id); held_by_other worker_id current_lock

  -- `_validate_symbol`, where the SymbolNotSupported of it is caught
  abbrev pub symbol_answer :
      Result ProcessFault (Unit {0}) × System E → Result ProcessFault Bool × System E
  symbol_answer (ok u, s) = (ok true, s)
  symbol_answer (err ProcessFault.symbol_not_supported, s) = (ok false, s)
  symbol_answer (err fault, s) = (err fault, s)

  -- the last part of `_recover_instance`
  unfoldable pub settle : ℕ → TradingInstanceStatus → TradingProcess → Action E (Unit {0})
  settle id previous process = do
    persist_instance id (record no_changes {
      status = some TradingInstanceStatus.recovering;
      worker_id = some worker_id;
      memory_snapshot =
          some (to_dict sv.floats (set_status TradingInstanceStatus.recovering now process).memory);
    })
    persist_instance id (record no_changes {
      status = some (final_status previous);
      memory_snapshot =
          some (to_dict sv.floats (set_status (final_status previous) now process).memory);
    })
    persist_state sv worker_id now (set_status (final_status previous) now process)
    register (set_status (final_status previous) now process)

  abbrev pub if_supported : Bool → ℕ → TradingInstance → TradingProcess → Action E (Unit {0})
  if_supported false id row process = fail_with id ErrorMessage.symbol_gone
  if_supported true id row process = settle id row.status process

  abbrev pub if_healthy : Bool → ℕ → TradingInstance → TradingProcess → Action E (Unit {0})
  if_healthy false id row process = fail_with id ErrorMessage.health_check_failed
  if_healthy true id row process = do
    supported ← λ s. symbol_answer (validate_symbol sv process.adapter row.symbol s)
    if_supported supported id row process

  abbrev pub if_single : Bool → ℕ → TradingInstance → Action E (Unit {0})
  if_single true id row = fail_with id ErrorMessage.split_brain
  if_single false id row = do
    process ← build_process sv id row worker_id now
    healthy ← call (sv.adapter.health_check process.adapter)
    if_healthy healthy id row process

  -- `_recover_instance`
  unfoldable pub recover_instance : ℕ → TradingInstance → Action E (Unit {0})
  unfolding is_split fail_with build_process call settle validate_symbol
  recover_instance id row = do
    validate_transition row.status TradingInstanceStatus.recovering
    granted ← acquire_lock sv id worker_id now
    split ← is_split id granted
    if_single split id row

  abbrev pub outcome_of : ℕ → Result ProcessFault (Unit {0}) × System E → Bool × System E
  outcome_of id (ok u, s) = (true, s)
  outcome_of id (err fault, s) = (false, (fail_with id ErrorMessage.raised s).1)

  abbrev pub recover_row : ℕ → Option TradingInstance → System E → Bool × System E
  recover_row id none s = (false, s)
  recover_row id (some row) s = outcome_of id (recover_instance id row s)

  -- one instance of the loop of `recover`: whether it is appended to the result, and the system
  unfoldable pub recover_one : ℕ → System E → Bool × System E
  unfolding recover_instance fail_with
  recover_one id s = recover_row id (lookup id s.rows) s

  abbrev pub and_id : ℕ → Bool → List ℕ → List ℕ
  and_id id true ids = id ∷ ids
  and_id id false ids = ids

  unfoldable pub recover_each : List ℕ → System E → List ℕ × System E
  recover_each [] s = ([], s)
  recover_each (id ∷ ids) s =
      let (done, s') = recover_one id s in
      let (recovered, s'') = recover_each ids s' in (and_id id done recovered, s'')

  unfoldable pub recover_status : TradingInstanceStatus → System E → List ℕ × System E
  unfolding ids_in_status
  recover_status status s = recover_each (ids_in_status status s.rows) s

  -- `recover`: the ids of the instances that it returns, and the system
  unfoldable pub recover : System E → List ℕ × System E
  recover s =
      let (running, s') = recover_status TradingInstanceStatus.running s in
      let (paused, s'') = recover_status TradingInstanceStatus.paused s' in
      let (recovering, s''') = recover_status TradingInstanceStatus.recovering s'' in
      (running ++ (paused ++ recovering), s''')
