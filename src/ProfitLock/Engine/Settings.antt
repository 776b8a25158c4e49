-- ===== src/ProfitLock/Engine/Settings.antt =====
-- `enable` and `disable` of backend/engine/profit_lock/engine.py.
use utos.Prelude.{
  ℕ, Bool, true, false, Option, none, some, Result, ok, err, pure, or_raise, lift, ◌>>=◌, ◌>>◌,
  if◌then◌else◌,
}
use utos.Prelude.Text.{Text}
use utos.Prelude.Decimal.{Decimal, whole, le_dec}
use utos.Prelude.Dict.{number_key}
use utos.Execution.Engine
use utos.ProfitLock.State
use utos.ProfitLock.State.{
  ProfitLockStatus, ProfitLockState, ProfitLockMetrics, ProfitLockStore, PositionSide, LockFailure,
  record_decision, record_processed, record_error, record_lock_triggered, record_lock_executed,
}
use utos.ProfitLock.Engine.{Action, move, write, tell, find, in_store, is_executing}

-- the guards of `enable`
unfoldable pub valid_settings : Decimal → Decimal → Result LockFailure (Unit {0})
valid_settings trigger_percentage trail_percentage =
    if le_dec trigger_percentage (whole 0)
    then err LockFailure.bad_settings
    else if le_dec trail_percentage (whole 0)
    then err LockFailure.bad_settings
    else if le_dec (whole 100) trail_percentage
    then err LockFailure.bad_settings
    else ok tt

-- the state that `enable` makes
abbrev pub enabled_state :
    ℕ → Text → Decimal → Decimal → PositionSide → Decimal → Decimal → Decimal → ProfitLockState
enabled_state account symbol entry_price quantity side trigger trail cap = record {
  status = ProfitLockStatus.monitoring;
  enabled = true;
  trigger_percentage = trigger;
  trail_percentage = trail;
  max_profit_percentage = cap;
  entry_price = entry_price;
  quantity = quantity;
  side = side;
  highest_price = some entry_price;
  lock_price = none;
  is_triggered = false;
  is_executed = false;
  lock_order_id = none;
  exchange_account_id = account;
  symbol = symbol;
}

unfoldable pub enable :
    ℕ → ℕ → Text → Decimal → Decimal → PositionSide → Decimal → Decimal → Decimal → Action Bool
enable id account symbol entry_price quantity side trigger trail cap = do
  lift (valid_settings trigger trail)
  in_store (State.put id (enabled_state account symbol entry_price quantity side trigger trail cap))
  pure true

-- the order is cancelled if there is one; a failure is counted and swallowed
abbrev cancel_lock_order : ℕ → ProfitLockState → Option ℕ → Action (Unit {0})
cancel_lock_order id state none e = (ok tt, e)
cancel_lock_order id state (some order_id) e =
    let (r, w) = Engine.cancel_order state.exchange_account_id order_id e.exec in
    elim r [
      | ok result ↦ (ok tt, record e { exec = w })
      | err x ↦ tell id record_error (record e { exec = w })
    ]

abbrev switched_off : ProfitLockState → ProfitLockState
switched_off state = record state { enabled = false; is_triggered = false; lock_order_id = none }

unfoldable pub disable : ℕ → Action Bool
disable id = do
  found ← find id
  state ← or_raise found LockFailure.lock_not_found
  if is_executing state.status then cancel_lock_order id state state.lock_order_id else pure tt
  move id ProfitLockStatus.disabled
  write id switched_off
  pure true
