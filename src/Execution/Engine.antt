-- ===== src/Execution/Engine.antt =====
-- backend/engine/execution/execution_engine.py. A method runs to its end with no other task between
-- its awaits, except that `place_order` is cut at its await: `submit` is what runs before the
-- exchange is called, and `settle` what runs with its answer.
pub mod Place
pub mod Once
pub mod Sync
use utos.Prelude.{
  ℕ, ◌==◌, Bool, true, false, not, Option, none, some, List, [], ◌∷◌, Result, ok, err, Exec, pure,
  raise, gets, lift, or_raise, catch, modify, ◌>>=◌, ◌>>◌, if◌then◌else◌, map,
}
use utos.Prelude.Text.{Text, codes, upper}
use utos.Prelude.Decimal.{whole}
use utos.Prelude.Dict.{lookup, insert, erase, number_key}
use utos.Execution.Models.{
  OrderRequest, OrderResult, TrackedOrder, Status, Failure, no_id, is_exchange_error,
}
use utos.Execution.OrderState.{validate_transition, is_terminal}
use utos.Execution.Validator.{validate}
use utos.Execution.Tracker
use utos.Execution.Tracker.{Ref, OrderTracker, map_exchange_status}
use utos.Execution.Executor
use utos.Execution.Executor.{Adapter, World, RetryPolicy}

abbrev pub Action : Type 0 → Type 0
Action A = Exec World Failure A

pub register_adapter : ℕ → Adapter → Action (Unit {0})
register_adapter account a = modify (λ w. record w { adapters = insert account a w.adapters })

pub unregister_adapter : ℕ → Action (Unit {0})
unregister_adapter account = modify (λ w. record w { adapters = erase account w.adapters })

unfoldable pub get_adapter : ℕ → Action Adapter
get_adapter account w = or_raise (lookup account w.adapters) Failure.order_execution w

-- tracked.result, tracked.status
abbrev deref : Ref → Action TrackedOrder
deref ref = gets (λ w. w.tracker.objects ref)

abbrev transition_checked : Result Failure (Unit {0}) → Ref → Status → Action (Unit {0})
transition_checked (ok _) ref target =
    modify (λ w. record w { tracker = Tracker.set_status ref target w.clock w.tracker })
transition_checked (err e) ref target = raise e

unfoldable pub transition : Ref → Status → Action (Unit {0})
transition ref target w =
    transition_checked (validate_transition (w.tracker.objects ref).status target) ref target w

-- self.tracker.update(account, order_id, result, status=status), its result dropped
unfoldable pub refresh : ℕ → ℕ → OrderResult → Status → Action (Unit {0})
refresh account order_id result status = modify (λ w. record w {
  tracker = (Tracker.update account order_id result (some status) false w.clock w.tracker).1;
})

-- the placeholder of `_create_pending`; `local` is the id that `_local_order_id` makes up
abbrev pub placeholder : OrderRequest → ℕ → ℕ → OrderResult
placeholder request local now = record {
  order_id = local;
  exchange_order_id = no_id;
  symbol = upper request.symbol;
  side = request.side;
  order_type = request.order_type;
  quantity = request.quantity;
  price = request.price;
  filled_quantity = whole 0;
  average_fill_price = none;
  status = codes "pending";
  created_at = now;
  updated_at = now;
}

unfoldable pub create_pending : OrderRequest → ℕ → Action Ref
create_pending request local w =
    let (ref, t) =
      Tracker.track request.request_id request.exchange_account_id
        (placeholder request local w.clock) Status.pending w.clock w.tracker in
    (ok ref, record w { tracker = t })

-- the result that records a failure
abbrev pub result_from_error : OrderRequest → TrackedOrder → ℕ → OrderResult
result_from_error request tracked now = record {
  order_id = tracked.result.order_id;
  exchange_order_id = tracked.result.exchange_order_id;
  symbol = upper request.symbol;
  side = request.side;
  order_type = request.order_type;
  quantity = request.quantity;
  price = request.price;
  filled_quantity = tracked.result.filled_quantity;
  average_fill_price = tracked.result.average_fill_price;
  status = codes "rejected";
  created_at = tracked.result.created_at;
  updated_at = now;
}

-- Re-key the tracker if the exchange returned a different order_id.
abbrev re_key_if_new : OrderRequest → ℕ → ℕ → Action (Unit {0})
re_key_if_new request old new = modify (λ w.
    if new == old
    then w
    else record w { tracker = (Tracker.re_key request.exchange_account_id old new w.tracker).1 })

-- the rest of the `try` block, after the await
unfoldable pub settle : OrderRequest → Ref → OrderResult → Action OrderResult
settle request ref result = do
  let status = map_exchange_status result.status
  tracked ← deref ref
  re_key_if_new request tracked.result.order_id result.order_id
  transition ref status
  refresh request.exchange_account_id result.order_id result status
  pure result

-- the `except` block
unfoldable pub fail : OrderRequest → Ref → Failure → Action OrderResult
fail request ref e = do
  transition ref Status.failed
  tracked ← deref ref
  now ← gets (λ w. w.clock)
  refresh request.exchange_account_id tracked.result.order_id
      (result_from_error request tracked now) Status.failed
  raise e

-- the part that ends with the order tracked as pending
unfoldable pub submit : OrderRequest → ℕ → Action (Adapter × Ref)
submit request local = do
  a ← get_adapter request.exchange_account_id
  lift (validate request)
  ref ← create_pending request local
  pure (a, ref)

-- a request whose id is not known yet
unfoldable pub place_new : RetryPolicy → OrderRequest → ℕ → Action OrderResult
place_new p request local = do
  (a, ref) ← submit request local
  catch
      (do
        transition ref Status.submitting
        result ← Executor.execute p request a
        settle request ref result)
      (fail request ref)

abbrev cached_or : Option Ref → Action OrderResult → Action OrderResult
cached_or none m = m
cached_or (some ref) m = do tracked ← deref ref; pure tracked.result

unfoldable pub place_order : RetryPolicy → OrderRequest → ℕ → Action OrderResult
place_order p request local w =
    cached_or (Tracker.get_by_request_id request.request_id w.tracker) (place_new p request local) w

-- the OrderResult that `cancel_order` writes
abbrev cancelled_result : OrderResult → ℕ → OrderResult
cancelled_result r now = record r { status = codes "cancelled"; updated_at = now }

-- except (OrderExecutionError, OrderAlreadyFilled)
abbrev asks_exchange : Failure → Bool
asks_exchange Failure.order_execution = true
asks_exchange Failure.order_already_filled = true
asks_exchange _ = false

-- fetch the order, move it to the exchange's status, store both
unfoldable pub sync_from : ℕ → ℕ → Ref → Adapter → Action OrderResult
sync_from account order_id ref a = do
  tracked ← deref ref
  result ← Executor.get_order tracked.result.symbol tracked.result.exchange_order_id a
  let status = map_exchange_status result.status
  transition ref status
  refresh account order_id result status
  pure result

-- the `try` block of `cancel_order`
unfoldable pub cancel_accepted : ℕ → ℕ → Ref → Adapter → Action OrderResult
cancel_accepted account order_id ref a = do
  tracked ← deref ref
  Executor.cancel tracked.result.symbol tracked.result.exchange_order_id a
  transition ref Status.cancelled
  now ← gets (λ w. w.clock)
  refresh account order_id (cancelled_result tracked.result now) Status.cancelled
  pure (cancelled_result tracked.result now)

-- its `except` block, for the exceptions that it catches
unfoldable pub cancel_refused : ℕ → ℕ → Ref → Adapter → Failure → Action OrderResult
cancel_refused account order_id ref a e =
    if asks_exchange e then sync_from account order_id ref a else raise e

unfoldable pub cancel_live : ℕ → ℕ → Ref → Action OrderResult
cancel_live account order_id ref = do
  a ← get_adapter account
  transition ref Status.cancelling
  catch (cancel_accepted account order_id ref a) (cancel_refused account order_id ref a)

abbrev require : Option Ref → Action Ref
require found = or_raise found Failure.order_not_found

unfoldable pub cancel_order : ℕ → ℕ → Action OrderResult
cancel_order account order_id = do
  found ← gets (λ w. Tracker.get account order_id w.tracker)
  ref ← require found
  tracked ← deref ref
  if is_terminal tracked.status then pure tracked.result else cancel_live account order_id ref

unfoldable pub sync_order : ℕ → ℕ → Action OrderResult
sync_order account order_id = do
  found ← gets (λ w. Tracker.get account order_id w.tracker)
  ref ← require found
  a ← get_adapter account
  sync_from account order_id ref a

abbrev cancel_tracked : Option Ref → Action (Unit {0})
cancel_tracked none = pure tt
cancel_tracked (some ref) = transition ref Status.cancelled

abbrev is_order_execution : Failure → Bool
is_order_execution Failure.order_execution = true
is_order_execution _ = false

-- one round of the loop of `cancel_all_orders`: whether the result is kept
unfoldable pub cancel_one : ℕ → Adapter → OrderResult → Action Bool
cancel_one account a result w =
    let (r, w') = Executor.cancel result.symbol result.exchange_order_id a w in
    elim r [
      | ok accepted ↦
          (cancel_tracked (Tracker.get account result.order_id w'.tracker) >> pure true) w'
      | err e ↦ if is_order_execution e then (ok false, w') else (err e, w')
    ]

unfoldable pub cancel_each : ℕ → Adapter → List OrderResult → Action (List OrderResult)
cancel_each account a [] = pure []
cancel_each account a (result ∷ rest) = do
  kept ← cancel_one account a result
  results ← cancel_each account a rest
  pure (if kept then result ∷ results else results)

unfoldable pub cancel_all_orders : ℕ → Option Text → Action (List OrderResult)
cancel_all_orders account symbol = do
  a ← get_adapter account
  open_results ← Executor.get_open_orders symbol a
  cancel_each account a open_results

unfoldable pub get_order : ℕ → ℕ → World → Option OrderResult
get_order account order_id w = elim (Tracker.get account order_id w.tracker) [
  | none ↦ none
  | some ref ↦ some (w.tracker.objects ref).result
]

unfoldable pub list_active_orders : Option ℕ → World → List OrderResult
list_active_orders account w = map (λ order. order.result) (Tracker.list_active account w.tracker)
