-- ===== src/ProfitLock/Tests.antt =====
-- The theorems on backend/engine/profit_lock, at a concrete position and exchange.
use utos.Prelude.{
  ℕ, ◌≡◌, refl, Bool, true, false, Option, none, some, List, [], ◌∷◌, Result, ok, err, arith, ◌+◌,
  ◌⊎◌,
}
use utos.Prelude.Text.{codes}
use utos.Prelude.Decimal.{Decimal, whole, le_dec, lt_dec}
use utos.Prelude.Dict.{lookup, number_key}
use utos.Execution.Models.{OrderSide, OrderType, OrderResult, Status}
use utos.Execution.Tracker.{OrderTracker, fresh_order}
use utos.Execution.Executor.{Adapter, RetryPolicy}
use utos.Execution.Engine
use utos.ProfitLock.State.{ProfitLockStatus, ProfitLockState, PositionSide, LockFailure}
use utos.ProfitLock.Policy.{Division, ProfitResult, profit_of, calculate}
use utos.ProfitLock.Engine.{ProfitLockEngine, Given, on_price_update, executed, lock_request}
use utos.ProfitLock.Engine.Settings.{enable, enabled_state}
use utos.ProfitLock.Engine.Events.{LockEvent, Holds, run, given}
use utos.ProfitLock.Engine.Trail.{LocksAbove, lock_never_falls, IsTrailing, lock_trails}
use utos.ProfitLock.Engine.Execute.{closing_order, Outcome, seen, sent, fall_executes}
use utos.ProfitLock.Engine.Cap.{cap_raises}

-- exact for the divisor 100, the only one of the examples
abbrev by_hundred : Division
by_hundred a b = record { coefficient = a.coefficient; places = a.places + 2 }

abbrev policy : RetryPolicy
policy = record { max_retries = 3; base_delay = 1; max_delay = 60; backoff_multiplier = 2 }

abbrev open_result : OrderResult
open_result = record {
  order_id = 55;
  exchange_order_id = 55;
  symbol = codes "BTCUSDT";
  side = OrderSide.sell;
  order_type = OrderType.limit;
  quantity = whole 1;
  price = some (whole 108);
  filled_quantity = whole 0;
  average_fill_price = none;
  status = codes "open";
  created_at = 1;
  updated_at = 1;
}

abbrev opening : Adapter
opening = record {
  place_order = λ n r. ok open_result;
  cancel_order = λ n s i. ok true;
  get_order = λ n s i. ok open_result;
  get_open_orders = λ n s. ok [];
}

abbrev empty_tracker : OrderTracker
empty_tracker = record {
  objects = λ ref. fresh_order 0 0 open_result Status.pending 0;
  next = 0;
  orders = [];
  request_index = [];
}

-- a long position of 1 at 100: it triggers at 5 %, trails by 10 % and is capped at 50 %
abbrev monitored : ProfitLockState
monitored =
    enabled_state 7 (codes "BTCUSDT") (whole 100) (whole 1) PositionSide.long (whole 5) (whole 10)
      (whole 50)

abbrev triggered : ProfitLockState
triggered = record monitored {
  status = ProfitLockStatus.triggered;
  highest_price = some (whole 120);
  lock_price = some (whole 108);
  is_triggered = true;
}

abbrev engine_with : ProfitLockState → ProfitLockEngine
engine_with s = record {
  store = record { states = (3, s) ∷ []; metrics = [] };
  exec = record { tracker = empty_tracker; adapters = (7, opening) ∷ []; log = []; clock = 3 };
}

abbrev profit_at : ℕ → ℕ → ProfitResult
profit_at c profit = profit_of by_hundred (whole 100) (whole c) (whole 1) (whole profit)

abbrev prices : List LockEvent
prices =
    LockEvent.price 1 800 (whole 110)
    ∷ LockEvent.price 2 801 (whole 130)
    ∷ LockEvent.price 3 802 (whole 115)
    ∷ LockEvent.filled 55
    ∷ []

lock_never_falls_example :
    Holds (LocksAbove (whole 108)) 3 (run by_hundred policy 3 prices (engine_with triggered))
unfolding lookup
lock_never_falls_example =
    lock_never_falls by_hundred policy 3 prices triggered (whole 108) (engine_with triggered) refl
      refl refl

lock_trails_example : Holds (IsTrailing by_hundred) 3 (
    run by_hundred policy 3 prices
      (enable 3 7
        (codes "BTCUSDT")
        (whole 100)
        (whole 1)
        PositionSide.long
        (whole 5)
        (whole 10)
        (whole 50)
        (engine_with monitored)).1)
unfolding le_dec utos.ProfitLock.Engine.Settings.valid_settings
lock_trails_example =
    lock_trails by_hundred policy 3 7 (codes "BTCUSDT") (whole 100) (whole 1) PositionSide.long
      (whole 5) (whole 10) (whole 50) prices (engine_with monitored) refl refl

fall_executes_example :
    let g = given by_hundred policy 1 800 in
    let e = engine_with triggered in
    let answer = Engine.place_order policy (closing_order 1 (whole 108) triggered) 800 e.exec in
    Outcome (seen answer.0) answer.1 (sent answer.0 triggered) 3 (on_price_update g 3 (whole 107) e)
unfolding lookup calculate utos.ProfitLock.Policy.valid_position le_dec utos.Prelude.Decimal.mul_dec
    utos.Prelude.Decimal.sub_dec profit_of
fall_executes_example =
    fall_executes (given by_hundred policy 1 800) 3 (whole 107) (whole 108) (whole 120)
      (profit_at 107 7) triggered (engine_with triggered) refl refl refl refl refl refl refl refl
      refl

cap_raises_example :
    let after =
      on_price_update (given by_hundred policy 1 800) 3 (whole 150) (engine_with monitored) in
    ((after.0
        ≡ err (
            LockFailure.invalid_lock_transition ProfitLockStatus.monitoring
              ProfitLockStatus.executing))
      × (after.1.exec ≡ (engine_with monitored).exec))
    × (after.1.store.states ≡ (engine_with monitored).store.states)
unfolding lookup calculate utos.ProfitLock.Policy.valid_position le_dec utos.Prelude.Decimal.mul_dec
    utos.Prelude.Decimal.sub_dec profit_of
cap_raises_example =
    cap_raises (given by_hundred policy 1 800) 3 (whole 150) (profit_at 150 50) monitored
      (engine_with monitored) refl refl refl refl refl
