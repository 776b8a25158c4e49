-- ===== src/ProfitLock/Engine.antt =====
-- backend/engine/profit_lock/engine.py, over the model of the execution engine. A method runs to its
-- end with no other task between its awaits. The uuids that an order takes are arguments.
pub mod Settings
pub mod Events
pub mod Trail
pub mod Cap
pub mod Execute
use utos.Prelude.{
  ℕ, ◌==◌, Bool, true, false, not, ◌&&◌, Option, none, some, Result, ok, err, Exec, pure, raise,
  gets, modify, or_raise, lift, ◌>>=◌, ◌>>◌, if◌then◌else◌,
}
use utos.Prelude.Text.{Text}
use utos.Prelude.Decimal.{Decimal, whole, le_dec, lt_dec}
use utos.Prelude.Dict.{lookup, number_key}
use utos.Execution.Models.{OrderRequest, OrderResult, OrderSide, OrderType, Failure}
use utos.Execution.Executor.{World, RetryPolicy}
use utos.Execution.Engine
use utos.ProfitLock.State
use utos.ProfitLock.State.{
  ProfitLockStatus, ProfitLockState, ProfitLockMetrics, ProfitLockStore, PositionSide, LockFailure,
  record_decision, record_processed, record_error, record_lock_triggered, record_lock_executed,
}
use utos.ProfitLock.Policy.{
  Division, ProfitResult, PolicyDecision, LockAction, calculate, evaluate, is_watching,
}

pub record ProfitLockEngine : Type 0 where
  pub store : ProfitLockStore
  pub exec : World

-- what the methods are given besides: the division, the retry policy of the execution engine, and
-- the two ids of an order that the call may place
pub record Given : Type 0 where
  pub divide : Division
  pub policy : RetryPolicy
  pub request_id : ℕ
  pub local_id : ℕ

abbrev pub Action : Type 0 → Type 0
Action A = Exec ProfitLockEngine LockFailure A

abbrev pub in_store : (ProfitLockStore → ProfitLockStore) → Action (Unit {0})
in_store f = modify (λ e. record e { store = f e.store })

-- self._store.transition(instance_id, status)
unfoldable pub move : ℕ → ProfitLockStatus → Action (Unit {0})
move id status e = let (r, s) = State.transition id status e.store in (r, record e { store = s })

-- a write to attributes of the stored state
unfoldable pub write : ℕ → (ProfitLockState → ProfitLockState) → Action (Unit {0})
write id f = in_store (State.change id f)

-- self._store.get_metrics(instance_id).record_...()
unfoldable pub tell : ℕ → (ProfitLockMetrics → ProfitLockMetrics) → Action (Unit {0})
tell id f = in_store (State.count id f)

abbrev pub find : ℕ → Action (Option ProfitLockState)
find id = gets (λ e. lookup id e.store.states)

abbrev pub is_executing : ProfitLockStatus → Bool
is_executing ProfitLockStatus.executing = true
is_executing _ = false

abbrev pub lock_side : PositionSide → OrderSide
lock_side PositionSide.long = OrderSide.sell
lock_side _ = OrderSide.buy

-- the request of `_place_lock_order`
abbrev pub lock_request : Given → ProfitLockState → Decimal → OrderRequest
lock_request g state lock_price = record {
  request_id = g.request_id;
  exchange_account_id = state.exchange_account_id;
  symbol = state.symbol;
  side = lock_side state.side;
  order_type = OrderType.limit;
  quantity = state.quantity;
  price = some lock_price;
  stop_price = none;
  client_order_id = none;
}

abbrev pub with_order : ℕ → ProfitLockState → ProfitLockState
with_order order_id state = record state { lock_order_id = some order_id }

-- what follows the answer of the execution engine
unfoldable pub lock_answered : ℕ → Result Failure OrderResult → Action Bool
lock_answered id (ok result) = do write id (with_order result.order_id); pure true
lock_answered id (err x) = do
  move id ProfitLockStatus.error
  tell id record_error
  raise (LockFailure.lock_order_failed x)

-- the `try` block and its handler
unfoldable pub send_lock_order : Given → ℕ → OrderRequest → Action Bool
unfolding lock_answered
send_lock_order g id request e =
    let (r, w) = Engine.place_order g.policy request g.local_id e.exec in
    lock_answered id r (record e { exec = w })

unfoldable pub place_lock_order : Given → ℕ → Decimal → Action Bool
place_lock_order g id lock_price = do
  found ← find id
  state ← or_raise found LockFailure.lock_not_found
  move id ProfitLockStatus.executing
  send_lock_order g id (lock_request g state lock_price)

unfoldable pub get_state : ℕ → Action ProfitLockState
get_state id = do found ← find id; or_raise found LockFailure.lock_not_found

-- the manual `execute_lock`
unfoldable pub execute_lock : Given → ℕ → Decimal → Action Bool
execute_lock g id lock_price = do
  found ← find id
  or_raise found LockFailure.lock_not_found
  place_lock_order g id lock_price

-- state.highest_price or current_price; a highest price of zero counts as none
abbrev pub highest_or : Decimal → Option Decimal → Decimal
highest_or current_price none = current_price
highest_or current_price (some highest) =
    if le_dec highest (whole 0) && le_dec (whole 0) highest then current_price else highest

-- max(state.highest_price or current_price, current_price)
abbrev pub raised_highest : Decimal → Option Decimal → Decimal
raised_highest current_price highest =
    if lt_dec (highest_or current_price highest) current_price
    then current_price
    else highest_or current_price highest

abbrev pub locked_at : Decimal → Decimal → ProfitLockState → ProfitLockState
locked_at current_price lock_price state = record state {
  highest_price = some (raised_highest current_price state.highest_price);
  lock_price = some lock_price;
}

abbrev pub triggered_at : Decimal → Decimal → ProfitLockState → ProfitLockState
triggered_at current_price lock_price state = record (locked_at current_price lock_price state) {
  is_triggered = true;
}

abbrev is_monitoring : ProfitLockStatus → Bool
is_monitoring ProfitLockStatus.monitoring = true
is_monitoring _ = false

abbrev trigger_found : Option ProfitLockState → ℕ → Decimal → Option Decimal → Action (Unit {0})
trigger_found none id current_price lock_price = pure tt
trigger_found (some state) id current_price none = pure tt
trigger_found (some state) id current_price (some lock_price) = do
  if is_monitoring state.status then move id ProfitLockStatus.triggered else pure tt
  write id (triggered_at current_price lock_price)
  tell id record_lock_triggered

unfoldable pub handle_trigger : ℕ → Decimal → Option Decimal → Action (Unit {0})
handle_trigger id current_price lock_price e =
    trigger_found (lookup id e.store.states) id current_price lock_price e

abbrev update_found : Option ProfitLockState → ℕ → Decimal → Option Decimal → Action (Unit {0})
update_found none id current_price new_lock_price = pure tt
update_found (some state) id current_price none = pure tt
update_found (some state) id current_price (some lock_price) =
    write id (locked_at current_price lock_price)

unfoldable pub handle_update : ℕ → Decimal → Option Decimal → Action (Unit {0})
handle_update id current_price new_lock_price e =
    update_found (lookup id e.store.states) id current_price new_lock_price e

unfoldable pub handle_execute : Given → ℕ → Option Decimal → Action (Unit {0})
handle_execute g id none = pure tt
handle_execute g id (some lock_price) = do place_lock_order g id lock_price; pure tt

unfoldable pub act : Given → ℕ → Decimal → LockAction → Option Decimal → Action (Unit {0})
act g id current_price LockAction.no_action price = pure tt
act g id current_price LockAction.trigger_lock price = handle_trigger id current_price price
act g id current_price LockAction.update_lock price = handle_update id current_price price
act g id current_price LockAction.execute_lock price = handle_execute g id price

-- the part of `on_price_update` behind its guards
unfoldable pub watch : Given → ℕ → Decimal → ProfitLockState → Action (Unit {0})
watch g id current_price state = do
  tell id record_processed
  profit ← lift (calculate g.divide state.entry_price current_price state.quantity state.side)
  let decision = evaluate g.divide current_price profit state
  tell id record_decision
  act g id current_price decision.action decision.new_lock_price

abbrev watch_found : Option ProfitLockState → Given → ℕ → Decimal → Action (Unit {0})
watch_found none g id current_price = pure tt
watch_found (some state) g id current_price =
    if state.enabled && is_watching state.status then watch g id current_price state else pure tt

unfoldable pub on_price_update : Given → ℕ → Decimal → Action (Unit {0})
on_price_update g id current_price e = watch_found (lookup id e.store.states) g id current_price e

abbrev repositioned : Decimal → Decimal → ProfitLockState → ProfitLockState
repositioned entry_price quantity state = record state {
  entry_price = entry_price;
  quantity = quantity;
}

abbrev position_found : Option ProfitLockState → ℕ → Decimal → Decimal → Action (Unit {0})
position_found none id entry_price quantity e = (ok tt, e)
position_found (some state) id entry_price quantity e =
    let (r, s) = State.update id (repositioned entry_price quantity) e.store in
    (r, record e { store = s })

unfoldable pub on_position_update : ℕ → Decimal → Decimal → Action (Unit {0})
on_position_update id entry_price quantity e =
    position_found (lookup id e.store.states) id entry_price quantity e

-- state.lock_order_id == order_id
abbrev pub is_order : ℕ → Option ℕ → Bool
is_order order_id none = false
is_order order_id (some lock_order_id) = lock_order_id == order_id

abbrev pub executed : ProfitLockState → ProfitLockState
executed state = record state { is_executed = true; lock_order_id = none }

abbrev pub filled_found : Option ProfitLockState → ℕ → ℕ → Action (Unit {0})
filled_found none id order_id = pure tt
filled_found (some state) id order_id =
    if is_order order_id state.lock_order_id && is_executing state.status
    then (do move id ProfitLockStatus.locked; write id executed; tell id record_lock_executed)
    else pure tt

unfoldable pub on_order_filled : ℕ → ℕ → Action (Unit {0})
on_order_filled id order_id e = filled_found (lookup id e.store.states) id order_id e

abbrev without_order : ProfitLockState → ProfitLockState
without_order state = record state { lock_order_id = none }

abbrev pub cancelled_found : Option ProfitLockState → ℕ → ℕ → Action (Unit {0})
cancelled_found none id order_id = pure tt
cancelled_found (some state) id order_id =
    if is_order order_id state.lock_order_id && is_executing state.status
    then (do move id ProfitLockStatus.triggered; write id without_order)
    else pure tt

unfoldable pub on_order_cancelled : ℕ → ℕ → Action (Unit {0})
on_order_cancelled id order_id e = cancelled_found (lookup id e.store.states) id order_id e
