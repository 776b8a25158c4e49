-- ===== src/Recovery/Coordinator.antt =====
-- backend/engine/recovery: coordinator.py with state.py and persistence.py. What loads and checks
-- is an argument, `Sources`; the loaded texts come parsed. The coordinator's parts share one
-- portfolio. The checkpoints are known by their phase.
pub mod Outcome
pub mod Positions
use utos.Prelude.{
  ℕ, ◌+◌, ◌<◌, ltb, ◌==◌, Bool, true, false, not, ◌&&◌, Option, none, some, is_some, List, [], ◌∷◌,
  ◌++◌, Result, ok, err, if◌then◌else◌, length,
}
use utos.Prelude.Text.{Text, codes}
use utos.Prelude.Dict.{Dict, lookup, insert, erase, keys, values, text_key}
use utos.Grid.Models.{GridLevel}
use utos.Risk.Portfolio.{Portfolio, Position, PortfolioFault, register_position, get_positions}
use utos.Recovery.Connection.{ConnectionRecovery, recover_redis, recover_postgres}
use utos.Recovery.Reconciler.{
  PositionEntry, ReconciliationResult, reconcile_grid, reconcile_portfolio,
}

pub record InstanceContext : Type 0 where
  pub account_id : Text
  pub exchange : Text
  pub symbol : Text
  pub has_grid : Bool
  pub has_profit_lock : Bool

pub data RecoveryState : Type 0 where
  idle recovering completed failed : RecoveryState

pub data RecoveryIssue : Type 0 where
  connection_partial process_failed : RecoveryIssue

pub record RecoveryStatus : Type 0 where
  pub state : RecoveryState
  pub started_at : Option ℕ
  pub completed_at : Option ℕ
  pub last_error : Option RecoveryIssue

pub record RecoveryReport : Type 0 where
  pub connection_ok : Bool
  pub state_ok : Bool
  pub errors : List RecoveryIssue
  pub reconciliation_results : List ReconciliationResult

pub data Phase : Type 0 where
  connection state reconciliation : Phase

-- the functions that the recovery was given; the grid is loaded twice
pub record Sources : Type 0 where
  pub redis_check : Option (Result ℕ Bool)
  pub postgres_check : Option (Result ℕ Bool)
  pub load_instance : Option (Text → Result ℕ Bool)
  pub load_grid : Option (ℕ → Text → Result ℕ (Option (List GridLevel)))
  pub fetch_positions : Option (Text → Result ℕ (List PositionEntry))

-- `portfolio` is the one of the state recovery; the reconciler has one of its own, which is the default,
-- or, where `reconciler_portfolio` is none, was given the same object.
pub record RecoveryCoordinator : Type 0 where
  pub instances : Dict Text InstanceContext
  pub statuses : Dict Text RecoveryStatus
  pub checkpoints : Dict Text Phase
  pub connections : ConnectionRecovery
  pub portfolio : Portfolio
  pub reconciler_portfolio : Option Portfolio
  pub recoveries_started : ℕ
  pub recoveries_completed : ℕ
  pub recoveries_failed : ℕ

abbrev pub idle_status : RecoveryStatus
idle_status = record {
  state = RecoveryState.idle;
  started_at = none;
  completed_at = none;
  last_error = none;
}

unfoldable pub register_instance :
    Text → InstanceContext → RecoveryCoordinator → RecoveryCoordinator
register_instance id context c = record c {
  instances = insert id context c.instances;
  statuses = insert id idle_status c.statuses;
}

-- save_checkpoint, whose instance is the one of the checkpoint
abbrev pub save_checkpoint : Text → Phase → Dict Text Phase → Dict Text Phase
save_checkpoint id phase checkpoints = insert id phase checkpoints

-- StateRecovery.recover_trading_process: no instance and an exception are failures
abbrev pub process_answer : Result ℕ Bool → Bool
process_answer (ok found) = found
process_answer (err x) = false

unfoldable pub recover_trading_process : Option (Text → Result ℕ Bool) → Text → Bool
recover_trading_process none id = true
recover_trading_process (some load) id = process_answer (load id)

abbrev pub grid_answer : Result ℕ (Option (List GridLevel)) → Option (List GridLevel)
grid_answer (ok levels) = levels
grid_answer (err x) = none

-- StateRecovery.recover_grid, of the n-th call
unfoldable pub recover_grid :
    Option (ℕ → Text → Result ℕ (Option (List GridLevel))) → ℕ → Text → Option (List GridLevel)
recover_grid none n id = none
recover_grid (some load) n id = grid_answer (load n id)

abbrev pub unless_refused : Result PortfolioFault Position → Portfolio → Portfolio → Portfolio
unless_refused (ok position) rest p = rest
unless_refused (err x) rest p = p

-- the loop of recover_portfolio, which a position that is refused ends
unfoldable pub rebuild : Text → List PositionEntry → Portfolio → Portfolio
rebuild id [] p = p
rebuild id (entry ∷ entries) p =
    let (r, p') =
      register_position id (codes "recovered-" ++ id) (codes "recovered") entry.symbol entry.side
        entry.entry_price entry.quantity p in
    let rest = rebuild id entries p' in unless_refused r rest p'

abbrev pub fetched : Text → Result ℕ (List PositionEntry) → Portfolio → Portfolio
fetched id (ok entries) p = rebuild id entries p
fetched id (err x) p = p

-- StateRecovery.recover_portfolio
unfoldable pub recover_portfolio :
    Option (Text → Result ℕ (List PositionEntry)) → Text → Portfolio → Portfolio
recover_portfolio none id p = p
recover_portfolio (some fetch) id p = fetched id (fetch id) p

abbrev pub issue_unless : Bool → RecoveryIssue → List RecoveryIssue
issue_unless true issue = []
issue_unless false issue = issue ∷ []

-- the reconciliation of the grid, against no orders
abbrev pub grid_results : Bool → Option (List GridLevel) → List ReconciliationResult
grid_results false levels = []
grid_results true none = []
grid_results true (some levels) = (reconcile_grid [] levels).1 ∷ []

-- "failed" with more than two errors
abbrev pub state_for : List RecoveryIssue → RecoveryState
state_for errors = if ltb 2 (length errors) then RecoveryState.failed else RecoveryState.completed

abbrev pub first : List RecoveryIssue → Option RecoveryIssue
first [] = none
first (issue ∷ issues) = some issue

abbrev pub cleared : List RecoveryIssue → Text → Dict Text Phase → Dict Text Phase
cleared [] id checkpoints = erase id checkpoints
cleared (issue ∷ issues) id checkpoints = checkpoints

abbrev pub completed_one : RecoveryState → ℕ → ℕ
completed_one RecoveryState.failed n = n
completed_one _ n = n + 1

abbrev pub failed_one : RecoveryState → ℕ → ℕ
failed_one RecoveryState.failed n = n + 1
failed_one _ n = n

-- the last part of recover_instance
abbrev pub finish : Text → ℕ → ℕ → List RecoveryIssue → RecoveryCoordinator → RecoveryCoordinator
finish id started now errors c = record c {
  statuses =
      insert id
        (record {
          state = state_for errors;
          started_at = some started;
          completed_at = some now;
          last_error = first errors;
        })
        c.statuses;
  checkpoints = cleared errors id c.checkpoints;
  recoveries_completed = completed_one (state_for errors) c.recoveries_completed;
  recoveries_failed = failed_one (state_for errors) c.recoveries_failed;
}

-- the portfolio that the reconciler acts on, where that of the state recovery is `p`
abbrev pub reconcilers : Option Portfolio → Portfolio → Portfolio
reconcilers none p = p
reconcilers (some own) p = own

-- the portfolio of the state recovery after the reconciler has made `after` of its own
abbrev pub state_after : Option Portfolio → Portfolio → Portfolio → Portfolio
state_after none p after = after
state_after (some own) p after = p

abbrev pub own_after : Option Portfolio → Portfolio → Option Portfolio
own_after none after = none
own_after (some own) after = some after

-- recover_instance of a registered instance: the layers, none of which raises
unfoldable pub recover_registered :
    Sources
    → ℕ
    → ℕ
    → Text
    → InstanceContext
    → RecoveryCoordinator
    → RecoveryReport × RecoveryCoordinator
recover_registered src started now id context c =
    let (redis_ok, connections) = recover_redis src.redis_check c.connections in
    let (postgres_ok, connections') = recover_postgres src.postgres_check connections in
    let process_ok = recover_trading_process src.load_instance id in
    let rebuilt = recover_portfolio src.fetch_positions id c.portfolio in
    let errors =
      issue_unless (redis_ok && postgres_ok) connection_partial
      ++ issue_unless process_ok process_failed in
    let (result, portfolio') =
      reconcile_portfolio now id (get_positions none none none none rebuilt) []
        (reconcilers c.reconciler_portfolio rebuilt) in
    (
      record {
        connection_ok = redis_ok && postgres_ok;
        state_ok = process_ok;
        errors = errors;
        reconciliation_results =
            grid_results context.has_grid (recover_grid src.load_grid 1 id) ++ result ∷ [];
      },
      finish id started now errors (record c {
        connections = connections';
        portfolio = state_after c.reconciler_portfolio rebuilt portfolio';
        reconciler_portfolio = own_after c.reconciler_portfolio portfolio';
        checkpoints =
            save_checkpoint id Phase.reconciliation
              (save_checkpoint id Phase.state (save_checkpoint id Phase.connection c.checkpoints));
        recoveries_started = c.recoveries_started + 1;
      }),
    )

abbrev pub reported :
    RecoveryReport × RecoveryCoordinator → Option RecoveryReport × RecoveryCoordinator
reported (report, c) = (some report, c)

abbrev pub recover_known :
    Sources
    → ℕ
    → ℕ
    → Text
    → Option InstanceContext
    → RecoveryCoordinator
    → Option RecoveryReport × RecoveryCoordinator
recover_known src started now id none c = (none, c)
recover_known src started now id (some context) c =
    reported (recover_registered src started now id context c)

-- recover_instance; `none` is the RecoveryError of an instance that is not registered
unfoldable pub recover_instance :
    Sources → ℕ → ℕ → Text → RecoveryCoordinator → Option RecoveryReport × RecoveryCoordinator
unfolding recover_registered
recover_instance src started now id c = recover_known src started now id (lookup id c.instances) c

unfoldable pub recover_each :
    Sources → ℕ → ℕ → List Text → RecoveryCoordinator → RecoveryCoordinator
recover_each src started now [] c = c
recover_each src started now (id ∷ ids) c =
    recover_each src started now ids (recover_instance src started now id c).1

-- recover_all, without the reports
unfoldable pub recover_all : Sources → ℕ → ℕ → RecoveryCoordinator → RecoveryCoordinator
recover_all src started now c = recover_each src started now (keys c.instances) c

abbrev pub or_idle : Option RecoveryStatus → RecoveryStatus
or_idle none = idle_status
or_idle (some status) = status

unfoldable pub get_recovery_status : Text → RecoveryCoordinator → RecoveryStatus
get_recovery_status id c = or_idle (lookup id c.statuses)
