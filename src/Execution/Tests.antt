-- ===== src/Execution/Tests.antt =====
-- The theorems on backend/engine/execution, at concrete orders and exchanges.
use utos.Prelude.{
  ℕ, zero, suc, ◌≡◌, ◌≢◌, ◌≤◌, ◌<◌, refl, Bool, true, false, Option, none, some, List, [], ◌∷◌,
  Result, ok, err, arith, ◌⊎◌, ◌+◌, ◌*◌, ◌↔◌,
}
use utos.Prelude.Text.{Text, codes}
use utos.Prelude.Decimal.{whole}
use utos.Prelude.Dict.{lookup, number_key, pair_key}
use utos.Execution.Models.{
  OrderSide, OrderType, OrderRequest, OrderResult, TrackedOrder, Status, Failure,
}
use utos.Execution.OrderState.{validate_transition, is_terminal}
use utos.Execution.Validator.{validate}
use utos.Execution.Validator.Accepts.{validate_iff, IsWellFormed}
use utos.Execution.Tracker
use utos.Execution.Tracker.{OrderTracker, Ref, fresh_order, map_exchange_status}
use utos.Execution.Tracker.Index.{IsConsistent, track-IsConsistent, re_key_moves}
use utos.Execution.Executor.{Adapter, World, RetryPolicy, Event, execute, is_transient, sent}
use utos.Execution.Executor.Retry.{placements, execute_first_success}
use utos.Execution.Engine.{place_order, place_new, sync_order, cancel_order}
use utos.Execution.Engine.Once.{
  Settled, place_new-records, place_order_idempotent, failed_not_resent,
}
use utos.Execution.Engine.Sync.{sync_order_stores, sync_open_raises, cancel_order_settles}

abbrev request : OrderRequest
request = record {
  request_id = 1;
  exchange_account_id = 7;
  symbol = codes "btcusdt";
  side = OrderSide.buy;
  order_type = OrderType.limit;
  quantity = whole 2;
  price = some (whole 100);
  stop_price = none;
  client_order_id = none;
}

abbrev result_as : Text → OrderResult
result_as status = record {
  order_id = 55;
  exchange_order_id = 55;
  symbol = codes "BTCUSDT";
  side = OrderSide.buy;
  order_type = OrderType.limit;
  quantity = whole 2;
  price = some (whole 100);
  filled_quantity = whole 0;
  average_fill_price = none;
  status = status;
  created_at = 1;
  updated_at = 1;
}

abbrev open_result : OrderResult
open_result = result_as (codes "open")

-- an exchange that is out of reach for its first call, and then opens every order and reports it so
abbrev flaky_place : ℕ → Result Failure OrderResult
flaky_place zero = err Failure.exchange_connection
flaky_place (suc n) = ok open_result

abbrev flaky : Adapter
flaky = record {
  place_order = λ n r. flaky_place n;
  cancel_order = λ n s i. ok true;
  get_order = λ n s i. ok open_result;
  get_open_orders = λ n s. ok [];
}

-- an exchange that refuses every order and reports the others as filled
abbrev refusing : Adapter
refusing = record {
  place_order = λ n r. err Failure.exchange;
  cancel_order = λ n s i. ok true;
  get_order = λ n s i. ok (result_as (codes "filled"));
  get_open_orders = λ n s. ok [];
}

abbrev empty_tracker : OrderTracker
empty_tracker = record {
  objects = λ ref. fresh_order 0 0 open_result Status.pending 0;
  next = 0;
  orders = [];
  request_index = [];
}

abbrev world_with : Adapter → World
world_with a = record { tracker = empty_tracker; adapters = (7, a) ∷ []; log = []; clock = 3 }

abbrev policy : RetryPolicy
policy = record { max_retries = 3; base_delay = 1; max_delay = 60; backoff_multiplier = 2 }

place_order_idempotent_example :
    place_order policy request 900 (place_order policy request 800 (world_with flaky)).1
    ≡ (ok open_result, (place_order policy request 800 (world_with flaky)).1)
unfolding place_order Tracker.get_by_request_id lookup place_new utos.Execution.Engine.submit
    utos.Execution.Engine.get_adapter validate utos.Prelude.Text.is_blank
    utos.Execution.Validator.is_not_positive utos.Prelude.Decimal.le_dec
    utos.Execution.Engine.create_pending utos.Execution.Engine.transition validate_transition
    Tracker.track execute utos.Execution.Executor.attempts utos.Execution.Engine.settle
    Tracker.set_status utos.Execution.Engine.fail utos.Execution.Engine.refresh map_exchange_status
    Tracker.re_key Tracker.update utos.Prelude.Dict.erase utos.Prelude.Dict.insert
    utos.Prelude.Text.lower utos.Prelude.Text.text_eq utos.Prelude.Text.to_lower
    utos.Prelude.Text.upper
place_order_idempotent_example =
    place_order_idempotent policy policy request request 800 900 (world_with flaky) open_result refl
      refl

place_new-records_example : Settled request 0 (place_new policy request 800 (world_with flaky))
unfolding lookup validate utos.Prelude.Text.is_blank utos.Execution.Validator.is_not_positive
    utos.Prelude.Decimal.le_dec
place_new-records_example = place_new-records policy request 800 flaky (world_with flaky) refl refl

-- the request was sent to the refusing exchange before
failed_not_resent_example :
    let w' = (place_order policy request 800 (world_with refusing)).1 in
    ((w'.tracker.objects 0).status ≡ Status.failed)
    × (place_order policy request 900 w' ≡ (ok (w'.tracker.objects 0).result, w'))
unfolding place_order Tracker.get_by_request_id lookup place_new utos.Execution.Engine.submit
    utos.Execution.Engine.get_adapter validate utos.Prelude.Text.is_blank
    utos.Execution.Validator.is_not_positive utos.Prelude.Decimal.le_dec
    utos.Execution.Engine.create_pending utos.Execution.Engine.transition validate_transition
    Tracker.track execute utos.Execution.Executor.attempts utos.Execution.Engine.settle
    Tracker.set_status utos.Execution.Engine.fail utos.Execution.Engine.refresh map_exchange_status
    Tracker.re_key Tracker.update utos.Prelude.Dict.erase utos.Prelude.Dict.insert
    utos.Prelude.Text.lower utos.Prelude.Text.text_eq utos.Prelude.Text.to_lower
    utos.Prelude.Text.upper
failed_not_resent_example =
    failed_not_resent policy policy request request 800 900 refusing (world_with refusing)
      Failure.order_execution refl refl refl refl refl

abbrev open_order : TrackedOrder
open_order = fresh_order 1 7 open_result Status.opened 0

-- the tracker with one open order
abbrev one_order : OrderTracker
one_order = record {
  objects = λ ref. open_order;
  next = 1;
  orders = ((7, 55), 0) ∷ [];
  request_index = (1, (7, 55)) ∷ [];
}

abbrev trading_at : Adapter → World
trading_at a = record { tracker = one_order; adapters = (7, a) ∷ []; log = []; clock = 3 }

sync_order_stores_example :
    let (result, w') = sync_order 7 55 (trading_at refusing) in
    (result ≡ ok (result_as (codes "filled")))
    × ((w'.tracker.objects 0).result ≡ result_as (codes "filled"))
    × ((w'.tracker.objects 0).status ≡ map_exchange_status (codes "filled"))
unfolding Tracker.get lookup validate_transition map_exchange_status utos.Prelude.Text.text_eq
    utos.Prelude.Text.lower
sync_order_stores_example =
    sync_order_stores 7 55 0 refusing (trading_at refusing) refl refl (result_as (codes "filled"))
      refl refl

sync_open_raises_example :
    let (result, w') = sync_order 7 55 (trading_at flaky) in
    (result ≡ err (Failure.invalid_transition Status.opened Status.opened))
    × (w'.tracker ≡ one_order)
unfolding Tracker.get lookup map_exchange_status utos.Prelude.Text.text_eq utos.Prelude.Text.lower
sync_open_raises_example =
    sync_open_raises 7 55 0 flaky (trading_at flaky) open_result refl refl refl refl refl

abbrev cancelled_open : OrderResult
cancelled_open = record open_result { status = codes "cancelled"; updated_at = 3 }

cancel_order_settles_example :
    let s = ((cancel_order 7 55 (trading_at flaky)).1.tracker.objects 0).status in
    (is_terminal s ≡ true) ⊎ (s ≡ Status.partially_filled)
unfolding Tracker.get lookup cancel_order is_terminal utos.Execution.Engine.cancel_live
    utos.Execution.Engine.get_adapter utos.Execution.Engine.transition validate_transition
    utos.Execution.Engine.cancel_accepted utos.Execution.Executor.cancel Tracker.set_status
    utos.Execution.Engine.refresh
cancel_order_settles_example =
    cancel_order_settles 7 55 0 (trading_at flaky) cancelled_open refl refl

connection_lost :
    (i : ℕ)
    → i < 1
    → (e : Failure) × (flaky.place_order (0 + 2 * i) (sent request) ≡ err e)
      × (is_transient e ≡ true)
connection_lost zero h = (Failure.exchange_connection, refl, refl)
connection_lost (suc i) h = absurd (omega arith)

execute_first_success_example :
    let (answer, w') = execute policy request flaky (world_with flaky) in
    (answer ≡ ok open_result) × (placements w'.log ≡ 2)
execute_first_success_example =
    execute_first_success policy request flaky 1 (world_with flaky) open_result (omega arith)
      connection_lost refl

validate_iff_example : (validate request ≡ ok tt) ↔ IsWellFormed request
validate_iff_example = validate_iff request

empty-IsConsistent : IsConsistent empty_tracker
unfolding lookup
empty-IsConsistent key ref h = absurd (ground arith)

abbrev tracked : OrderTracker
tracked = (Tracker.track 1 7 open_result Status.opened 0 empty_tracker).1

tracked-IsConsistent : IsConsistent tracked
unfolding lookup
tracked-IsConsistent =
    track-IsConsistent 1 7 open_result Status.opened 0 empty_tracker empty-IsConsistent refl

re_key_moves_example :
    let (moved, t') = Tracker.re_key 7 55 56 tracked in
    (moved ≡ some 0)
    × (Tracker.get 7 56 t' ≡ some 0)
    × (Tracker.get 7 55 t' ≡ none)
    × (Tracker.get_by_request_id 1 t' ≡ some 0)
    × (t'.objects ≡ tracked.objects)
unfolding Tracker.get lookup Tracker.track utos.Prelude.Dict.insert
re_key_moves_example =
    re_key_moves 7 55 56 0 tracked tracked-IsConsistent (λ e. absurd (omega arith)) refl
