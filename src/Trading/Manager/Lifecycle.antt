-- ===== src/Trading/Manager/Lifecycle.antt =====
-- process_manager.py: the methods that a user calls for a process: create_process, prepare, start,
-- pause, resume, stop and get_status. A method gives no result where the source gives the row.
use utos.Prelude.{
  ℕ, ◌==◌, Bool, true, false, not, ◌&&◌, ◌||◌, Option, none, some, is_some, List, [], ◌∷◌, pure,
  gets, modify, or_raise, ◌>>=◌, ◌>>◌, if◌then◌else◌,
}
use utos.Prelude.Text.{Text, upper, text_eq}
use utos.Prelude.Decimal.{Decimal}
use utos.Prelude.Dict.{Dict, lookup, insert, number_key}
use utos.Grid.Engine.{Ids}
use utos.Trading.StateMachine.{TradingInstanceStatus}
use utos.Trading.Process.{TradingProcess, MemoryDict, to_dict, set_status, snapshot}
use utos.Trading.Services.{
  Services, Action, ProcessFault, TradingInstance, ExchangeAccount, Strategy, GridProfile,
  StateDocument, is_registered,
}
use utos.Trading.Store.{attempt, acquire_lock, release_lock, set_state}
use utos.Trading.Manager.{
  persist_instance, no_changes, instance_for, require, check_duplicate_running, get_process,
  register, unregister, get_instance, validate_ownership,
}
use utos.Trading.Manager.Build.{
  get_account, build_process, validate_account, authenticate_adapter, validate_symbol,
}
use utos.Trading.Manager.Wire.{wire_grid_and_market, unwire_grid_and_market, write_process}

abbrev pub is_active_strategy : Option Strategy → Bool
is_active_strategy none = false
is_active_strategy (some strategy) = strategy.is_active

-- the statuses of get_active_by_symbol_and_account
abbrev pub counts_as_active : TradingInstanceStatus → Bool
counts_as_active TradingInstanceStatus.running = true
counts_as_active TradingInstanceStatus.paused = true
counts_as_active TradingInstanceStatus.recovering = true
counts_as_active TradingInstanceStatus.stopping = true
counts_as_active _ = false

unfoldable pub is_active_on : Text → ℕ → TradingInstance → Bool
unfolding upper
is_active_on symbol account_id row =
    text_eq row.symbol (upper symbol)
    && (row.exchange_account_id == account_id
        && (counts_as_active row.status && not (is_some row.deleted_at)))

-- whether get_active_by_symbol_and_account finds a row
unfoldable pub has_active : Text → ℕ → Dict ℕ TradingInstance → Bool
unfolding is_active_on
has_active symbol account_id [] = false
has_active symbol account_id ((i, row) ∷ rows) =
    is_active_on symbol account_id row || has_active symbol account_id rows

abbrev pub owned_account : Option ExchangeAccount → ℕ → Option ExchangeAccount
owned_account none user_id = none
owned_account (some account) user_id = if account.user_id == user_id then some account else none

abbrev pub owned_profile : Option GridProfile → ℕ → Bool
owned_profile none user_id = false
owned_profile (some profile) user_id = profile.user_id == user_id

-- the row that create_process makes
abbrev pub created_row : ℕ → ℕ → ℕ → ℕ → Text → Option Decimal → Bool → TradingInstance
created_row user_id account_id strategy_id profile_id symbol continuation_rate breaker_enabled =
    record {
      user_id = user_id;
      exchange_account_id = account_id;
      strategy_id = strategy_id;
      grid_profile_id = profile_id;
      symbol = upper symbol;
      status = TradingInstanceStatus.created;
      continuation_rate = continuation_rate;
      breaker_enabled = breaker_enabled;
      worker_id = none;
      memory_snapshot = none;
      memory_version = 0;
      error_message = none;
      started_at = none;
      stopped_at = none;
      deleted_at = none;
    }

unfoldable pub create_process :
    {E : Type 0} → ℕ → ℕ → ℕ → ℕ → ℕ → Text → Option Decimal → Bool → Action E (Unit {0})
unfolding is_registered has_active upper
create_process new_id user_id account_id strategy_id profile_id symbol continuation_rate
      breaker_enabled =
    do
      found ← gets (λ s. owned_account (lookup account_id s.accounts) user_id)
      account ← or_raise found ProcessFault.account_not_found
      strategy ← gets (λ s. is_some (lookup strategy_id s.strategies))
      require strategy ProcessFault.strategy_error
      profile ← gets (λ s. owned_profile (lookup profile_id s.profiles) user_id)
      require profile ProcessFault.profile_not_found
      known ← gets (λ s. is_registered account.exchange_name s.adapters)
      require known ProcessFault.no_adapter
      existing ← gets (λ s. has_active symbol account_id s.rows)
      require (not existing) ProcessFault.active_exists
      modify (λ s. record s {
        rows =
            insert new_id
              (created_row user_id account_id strategy_id profile_id symbol continuation_rate
                breaker_enabled)
              s.rows;
      })

module _ {E : Type 0} (sv : Services E) (worker_id : ℕ) (now : ℕ) where
  unfoldable pub prepare : ℕ → ℕ → Action E (Unit {0})
  prepare id user_id = do
    row ← instance_for id user_id TradingInstanceStatus.ready
    account ← get_account row.exchange_account_id
    strategy ← gets (λ s. is_active_strategy (lookup row.strategy_id s.strategies))
    require strategy ProcessFault.strategy_error
    adapter ← validate_account sv account
    authenticate_adapter sv adapter account
    validate_symbol sv adapter row.symbol
    persist_instance id (record no_changes { status = some TradingInstanceStatus.ready })

  -- `_persist_state`
  unfoldable pub persist_state : TradingProcess → Action E Bool
  unfolding set_state
  persist_state p = set_state sv p.instance_id (StateDocument.of_process (snapshot sv.floats p))

  -- from the process on: it runs, is registered and wired, and the row says so
  unfoldable pub run_process : Ids → ℕ → TradingInstance → TradingProcess → Action E (Unit {0})
  run_process ids id row process = do
    register process
    wire_grid_and_market sv ids id row process.exchange_name
    persist_instance id (record no_changes {
      status = some TradingInstanceStatus.running;
      started_at = some now;
      worker_id = some worker_id;
      memory_snapshot = some (to_dict sv.floats process.memory);
      memory_version = some 1;
    })
    persist_state process
    pure tt

  unfoldable pub start : Ids → ℕ → ℕ → Action E (Unit {0})
  start ids id user_id = do
    row ← instance_for id user_id TradingInstanceStatus.running
    check_duplicate_running id row
    granted ← acquire_lock sv id worker_id now
    require granted ProcessFault.locked
    process ← build_process sv id row worker_id now
    run_process ids id row (set_status TradingInstanceStatus.running now process)

  abbrev pub found_or_built : ℕ → TradingInstance → Option TradingProcess → Action E TradingProcess
  found_or_built id row (some process) = pure process
  found_or_built id row none = do
    process ← build_process sv id row worker_id now
    register process
    pure process

  -- the registered process, or one that is built and registered
  unfoldable pub process_of : ℕ → TradingInstance → Action E TradingProcess
  unfolding get_process register
  process_of id row = do found ← get_process id; found_or_built id row found

  -- the new status of the process goes to its memory, to the row and to Redis
  unfoldable pub move_process : TradingInstanceStatus → ℕ → TradingProcess → Action E (Unit {0})
  unfolding persist_state write_process
  move_process status id process = do
    write_process id (set_status status now)
    persist_instance id (record no_changes {
      status = some status;
      memory_snapshot = some (to_dict sv.floats (set_status status now process).memory);
    })
    persist_state (set_status status now process)
    pure tt

  unfoldable pub pause : ℕ → ℕ → Action E (Unit {0})
  pause id user_id = do
    row ← instance_for id user_id TradingInstanceStatus.paused
    process ← process_of id row
    unwire_grid_and_market sv id process.subscription_id
    move_process TradingInstanceStatus.paused id process
    release_lock sv id
    pure tt

  unfoldable pub resume : ℕ → ℕ → Action E (Unit {0})
  resume id user_id = do
    row ← instance_for id user_id TradingInstanceStatus.running
    release_lock sv id
    granted ← acquire_lock sv id worker_id now
    require granted ProcessFault.locked
    process ← process_of id row
    move_process TradingInstanceStatus.running id process

  abbrev pub memory_at_stop : Option TradingProcess → TradingInstance → Option MemoryDict
  memory_at_stop none row = row.memory_snapshot
  memory_at_stop (some process) row =
      some (to_dict sv.floats (set_status TradingInstanceStatus.stopping now process).memory)

  abbrev pub end_process : ℕ → Option TradingProcess → Action E (Unit {0})
  end_process id none = pure tt
  end_process id (some process) = do
    write_process id (set_status TradingInstanceStatus.stopping now)
    unwire_grid_and_market sv id process.subscription_id
    attempt (sv.adapter.disconnect process.adapter)
    pure tt

  unfoldable pub stop : ℕ → ℕ → Action E (Unit {0})
  stop id user_id = do
    row ← instance_for id user_id TradingInstanceStatus.stopping
    persist_instance id (record no_changes { status = some TradingInstanceStatus.stopping })
    process ← get_process id
    end_process id process
    release_lock sv id
    unregister id
    persist_instance id (record no_changes {
      status = some TradingInstanceStatus.stopped;
      stopped_at = some now;
      memory_snapshot = memory_at_stop process row;
    })
    set_state sv id (StateDocument.of_stop id worker_id now)
    pure tt

-- get_status
unfoldable pub get_status : {E : Type 0} → ℕ → ℕ → Action E TradingInstance
get_status id user_id = do row ← get_instance id; validate_ownership row user_id; pure row

-- list_by_user, by the ids of the rows
unfoldable pub list_by_user : ℕ → Dict ℕ TradingInstance → List ℕ
list_by_user user_id [] = []
list_by_user user_id ((i, row) ∷ rows) =
    let rest = list_by_user user_id rows in if row.user_id == user_id then i ∷ rest else rest
