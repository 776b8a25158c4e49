-- ===== src/ProfitLock/State.antt =====
-- backend/engine/profit_lock/state.py. Instances, accounts and orders are known by numbers; the
-- decision times of the metrics are not modelled.
pub mod Machine
use utos.Prelude.{
  ℕ, ◌+◌, ◌==◌, Bool, true, false, ◌||◌, Option, none, some, List, [], ◌∷◌, Result, ok, err,
  if◌then◌else◌, is_some,
}
use utos.Prelude.Text.{Text}
use utos.Prelude.Decimal.{Decimal}
use utos.Prelude.Dict.{Dict, number_key, lookup, insert, erase}
use utos.Execution.Models.{Failure}

pub data ProfitLockStatus : Type 0 where
  disabled monitoring triggered executing locked cancelled error : ProfitLockStatus

-- `other_side` is any text but the two.
pub data PositionSide : Type 0 where
  long short other_side : PositionSide

pub record ProfitLockState : Type 0 where
  pub status : ProfitLockStatus
  pub enabled : Bool
  pub trigger_percentage : Decimal
  pub trail_percentage : Decimal
  pub max_profit_percentage : Decimal
  pub entry_price : Decimal
  pub quantity : Decimal
  pub side : PositionSide
  pub highest_price : Option Decimal
  pub lock_price : Option Decimal
  pub is_triggered : Bool
  pub is_executed : Bool
  pub lock_order_id : Option ℕ
  pub exchange_account_id : ℕ
  pub symbol : Text

pub record ProfitLockMetrics : Type 0 where
  pub decisions_made : ℕ
  pub errors_count : ℕ
  pub retries_count : ℕ
  pub events_processed : ℕ
  pub locks_triggered : ℕ
  pub locks_executed : ℕ

abbrev pub no_metrics : ProfitLockMetrics
no_metrics = record {
  decisions_made = 0;
  errors_count = 0;
  retries_count = 0;
  events_processed = 0;
  locks_triggered = 0;
  locks_executed = 0;
}

abbrev pub record_decision : ProfitLockMetrics → ProfitLockMetrics
record_decision m = record m { decisions_made = m.decisions_made + 1 }

abbrev pub record_processed : ProfitLockMetrics → ProfitLockMetrics
record_processed m = record m { events_processed = m.events_processed + 1 }

abbrev pub record_error : ProfitLockMetrics → ProfitLockMetrics
record_error m = record m { errors_count = m.errors_count + 1 }

abbrev record_retry : ProfitLockMetrics → ProfitLockMetrics
record_retry m = record m { retries_count = m.retries_count + 1 }

abbrev pub record_lock_triggered : ProfitLockMetrics → ProfitLockMetrics
record_lock_triggered m = record m { locks_triggered = m.locks_triggered + 1 }

abbrev pub record_lock_executed : ProfitLockMetrics → ProfitLockMetrics
record_lock_executed m = record m { locks_executed = m.locks_executed + 1 }

-- ProfitLockError, InvalidStateTransition and the two sources of ValidationError
pub data LockFailure : Type 0 where
  lock_not_found : LockFailure
  lock_order_failed : Failure → LockFailure
  invalid_lock_transition : ProfitLockStatus → ProfitLockStatus → LockFailure
  bad_position bad_settings : LockFailure

abbrev lock_ordinal : ProfitLockStatus → ℕ
lock_ordinal ProfitLockStatus.disabled = 0
lock_ordinal ProfitLockStatus.monitoring = 1
lock_ordinal ProfitLockStatus.triggered = 2
lock_ordinal ProfitLockStatus.executing = 3
lock_ordinal ProfitLockStatus.locked = 4
lock_ordinal ProfitLockStatus.cancelled = 5
lock_ordinal ProfitLockStatus.error = 6

-- the rows of TRANSITIONS
unfoldable pub lock_transitions : ProfitLockStatus → List ProfitLockStatus
lock_transitions ProfitLockStatus.disabled =
    ProfitLockStatus.monitoring ∷ ProfitLockStatus.cancelled ∷ []
lock_transitions ProfitLockStatus.monitoring =
    ProfitLockStatus.triggered ∷ ProfitLockStatus.disabled ∷ ProfitLockStatus.cancelled
    ∷ ProfitLockStatus.error ∷ []
lock_transitions ProfitLockStatus.triggered =
    ProfitLockStatus.triggered ∷ ProfitLockStatus.executing ∷ ProfitLockStatus.disabled
    ∷ ProfitLockStatus.cancelled ∷ ProfitLockStatus.error ∷ []
lock_transitions ProfitLockStatus.executing =
    ProfitLockStatus.locked ∷ ProfitLockStatus.triggered ∷ ProfitLockStatus.disabled
    ∷ ProfitLockStatus.cancelled ∷ ProfitLockStatus.error ∷ []
lock_transitions ProfitLockStatus.locked =
    ProfitLockStatus.monitoring ∷ ProfitLockStatus.disabled ∷ ProfitLockStatus.cancelled ∷ []
lock_transitions ProfitLockStatus.cancelled =
    ProfitLockStatus.disabled ∷ ProfitLockStatus.monitoring ∷ []
lock_transitions ProfitLockStatus.error =
    ProfitLockStatus.monitoring ∷ ProfitLockStatus.triggered ∷ ProfitLockStatus.disabled ∷ []

unfoldable pub lock_member : ProfitLockStatus → List ProfitLockStatus → Bool
lock_member s [] = false
lock_member s (t ∷ ts) = lock_ordinal t == lock_ordinal s || lock_member s ts

unfoldable pub validate_lock_transition :
    ProfitLockStatus → ProfitLockStatus → Result LockFailure (Unit {0})
unfolding lock_transitions lock_member
validate_lock_transition from_status to_status =
    if lock_member to_status (lock_transitions from_status)
    then ok tt
    else err (LockFailure.invalid_lock_transition from_status to_status)

unfoldable pub is_lock_terminal : ProfitLockStatus → Bool
is_lock_terminal status =
    lock_ordinal status == lock_ordinal ProfitLockStatus.locked
    || lock_ordinal status == lock_ordinal ProfitLockStatus.disabled

pub record ProfitLockStore : Type 0 where
  pub states : Dict ℕ ProfitLockState
  pub metrics : Dict ℕ ProfitLockMetrics

unfoldable pub put : ℕ → ProfitLockState → ProfitLockStore → ProfitLockStore
put id state s = record {
  states = insert id state s.states;
  metrics = (if is_some (lookup id s.metrics) then s.metrics else insert id no_metrics s.metrics);
}

unfoldable pub remove : ℕ → ProfitLockStore → Option ProfitLockState × ProfitLockStore
remove id s =
    (lookup id s.states, record { states = erase id s.states; metrics = erase id s.metrics })

-- A state that the store hands out is the stored object: a write to its attributes is `change`.
abbrev change_found :
    Option ProfitLockState
    → ℕ
    → (ProfitLockState → ProfitLockState)
    → ProfitLockStore
    → ProfitLockStore
change_found none id f s = s
change_found (some state) id f s = record s { states = insert id (f state) s.states }

unfoldable pub change : ℕ → (ProfitLockState → ProfitLockState) → ProfitLockStore → ProfitLockStore
change id f s = change_found (lookup id s.states) id f s

-- with the fields to set given as a function
unfoldable pub update :
    ℕ
    → (ProfitLockState → ProfitLockState)
    → ProfitLockStore
    → Result LockFailure (Unit {0}) × ProfitLockStore
update id f s = (
  (if is_some (lookup id s.states) then ok tt else err LockFailure.lock_not_found),
  change_found (lookup id s.states) id f s,
)

abbrev pub with_lock_status : ProfitLockStatus → ProfitLockState → ProfitLockState
with_lock_status status state = record state { status = status }

move_lock :
    Result LockFailure (Unit {0})
    → ℕ
    → ProfitLockState
    → ProfitLockStatus
    → ProfitLockStore
    → Result LockFailure (Unit {0}) × ProfitLockStore
move_lock (err e) id state to_status s = (err e, s)
move_lock (ok _) id state to_status s =
    (ok tt, record s { states = insert id (with_lock_status to_status state) s.states })

move_found_lock :
    Option ProfitLockState
    → ℕ
    → ProfitLockStatus
    → ProfitLockStore
    → Result LockFailure (Unit {0}) × ProfitLockStore
unfolding move_lock
move_found_lock none id to_status s = (err LockFailure.lock_not_found, s)
move_found_lock (some state) id to_status s =
    move_lock (validate_lock_transition state.status to_status) id state to_status s

unfoldable pub transition :
    ℕ → ProfitLockStatus → ProfitLockStore → Result LockFailure (Unit {0}) × ProfitLockStore
unfolding move_found_lock
transition id to_status s = move_found_lock (lookup id s.states) id to_status s

abbrev metrics_or_new : Option ProfitLockMetrics → ProfitLockMetrics
metrics_or_new none = no_metrics
metrics_or_new (some m) = m

-- get_metrics(id).record_...()
unfoldable pub count :
    ℕ → (ProfitLockMetrics → ProfitLockMetrics) → ProfitLockStore → ProfitLockStore
count id f s = record s { metrics = insert id (f (metrics_or_new (lookup id s.metrics))) s.metrics }

unfoldable pub clear : ProfitLockStore → ProfitLockStore
clear s = record { states = []; metrics = [] }
