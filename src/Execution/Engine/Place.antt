-- ===== src/Execution/Engine/Place.antt =====
-- `place_order` sends a request once: after it has been sent, its id answers from the tracker.
use utos.Prelude.{ℕ, ◌≡◌, some, ok, err, catch, ◌>>=◌, arith}
use utos.Prelude.Dict.{lookup, erase, number_key, pair_key, lookup-insert}
use utos.Execution.Models.{OrderRequest, OrderResult, Status, Failure}
use utos.Execution.OrderState.{validate_transition}
use utos.Execution.Validator.{validate}
use utos.Execution.Tracker
use utos.Execution.Tracker.{Ref, OrderTracker, map_exchange_status, get_by_request_id}
use utos.Execution.Executor
use utos.Execution.Executor.{Adapter, World, RetryPolicy}
use utos.Execution.Engine.{
  settle, fail, submit, place_new, transition, refresh, create_pending, get_adapter, placeholder,
}

-- The request is in the hands of the exchange: it is filed under its made-up id.
pub record IsInFlight (request : OrderRequest) (local : ℕ) (ref : Ref) (t : OrderTracker)
    : Type 0 where
  pub stored : lookup (request.exchange_account_id, local) t.orders ≡ some ref
  pub found : lookup request.request_id t.request_index ≡ some (request.exchange_account_id, local)
  pub by_request : (t.objects ref).request_id ≡ request.request_id
  pub by_id : (t.objects ref).result.order_id ≡ local
  pub status : (t.objects ref).status ≡ Status.submitting

module _ (request : OrderRequest) (local : ℕ) (ref : Ref) (result : OrderResult) (w : World)
    (flight : IsInFlight request local ref w.tracker) where
  pub settle_stores :
      validate_transition Status.submitting (map_exchange_status result.status) ≡ ok tt
      → let (answer, w') = settle request ref result w in
        (answer ≡ ok result)
        × (get_by_request_id request.request_id w'.tracker ≡ some ref)
        × ((w'.tracker.objects ref).result ≡ result)
        × ((w'.tracker.objects ref).status ≡ map_exchange_status result.status)
        × (w'.log ≡ w.log)
  unfolding settle transition refresh get_by_request_id Tracker.re_key Tracker.set_status
      Tracker.update
  settle_stores allowed = ground (
    arith,
    flight,
    lookup-insert (request.exchange_account_id, result.order_id)
        (request.exchange_account_id, result.order_id) ref
        (erase (request.exchange_account_id, local) w.tracker.orders),
    lookup-insert request.request_id request.request_id
        (request.exchange_account_id, result.order_id) w.tracker.request_index,
  )

  -- A status that a submitting order cannot take: the answer of the exchange is not stored.
  pub settle_refuses :
      (e : Failure)
      → validate_transition Status.submitting (map_exchange_status result.status) ≡ err e
      → let (answer, w') = settle request ref result w in
        (answer ≡ err e)
        × (get_by_request_id request.request_id w'.tracker ≡ some ref)
        × ((w'.tracker.objects ref) ≡ (w.tracker.objects ref))
        × (w'.log ≡ w.log)
  unfolding settle transition get_by_request_id Tracker.re_key
  settle_refuses e refused = ground (
    arith,
    flight,
    lookup-insert (request.exchange_account_id, result.order_id)
        (request.exchange_account_id, result.order_id) ref
        (erase (request.exchange_account_id, local) w.tracker.orders),
    lookup-insert request.request_id request.request_id
        (request.exchange_account_id, result.order_id) w.tracker.request_index,
  )

-- The except block marks the order as failed and raises what it was given.
pub fail_marks :
    (request : OrderRequest) (ref : Ref) (e : Failure) (w : World)
    → (w.tracker.objects ref).status ≡ Status.submitting
    → get_by_request_id request.request_id w.tracker ≡ some ref
    → let (answer, w') = fail request ref e w in
      (answer ≡ err e)
      × (get_by_request_id request.request_id w'.tracker ≡ some ref)
      × ((w'.tracker.objects ref).status ≡ Status.failed)
      × (w'.log ≡ w.log)
unfolding fail transition refresh Tracker.set_status Tracker.update get_by_request_id
    validate_transition
fail_marks request ref e w s found = ground arith

-- The world in which the exchange is called.
abbrev pub sending : OrderRequest → ℕ → World → World
sending request local w =
    let (ref, t) =
      Tracker.track request.request_id request.exchange_account_id
        (placeholder request local w.clock) Status.pending w.clock w.tracker in
    record w { tracker = Tracker.set_status ref Status.submitting w.clock t }

pub sending-IsInFlight :
    (request : OrderRequest) (local : ℕ) (w : World)
    → IsInFlight request local w.tracker.next (sending request local w).tracker
unfolding Tracker.track Tracker.set_status
sending-IsInFlight request local w = ground (
  arith,
  lookup-insert (request.exchange_account_id, local) (request.exchange_account_id, local)
      w.tracker.next w.tracker.orders,
  lookup-insert request.request_id request.request_id (request.exchange_account_id, local)
      w.tracker.request_index,
)

-- the world after `_create_pending`
abbrev filed : OrderRequest → ℕ → World → World
filed request local w = record w {
  tracker =
      (Tracker.track request.request_id request.exchange_account_id
        (placeholder request local w.clock) Status.pending w.clock w.tracker).1;
}

submit_lem :
    (request : OrderRequest) (local : ℕ) (a : Adapter) (w : World)
    → lookup request.exchange_account_id w.adapters ≡ some a
    → validate request ≡ ok tt
    → submit request local w ≡ (ok (a, w.tracker.next), filed request local w)
unfolding submit get_adapter create_pending Tracker.track
submit_lem request local a w known valid = ground arith

transition_submitting :
    (request : OrderRequest) (local : ℕ) (w : World)
    → transition w.tracker.next Status.submitting (filed request local w)
      ≡ (ok tt, sending request local w)
unfolding transition validate_transition Tracker.track
transition_submitting request local w = ground arith

pub place_new_lem :
    (p : RetryPolicy) (request : OrderRequest) (local : ℕ) (a : Adapter) (w : World)
    → lookup request.exchange_account_id w.adapters ≡ some a
    → validate request ≡ ok tt
    → place_new p request local w
      ≡ catch
          (Executor.execute p request a >>= settle request w.tracker.next)
          (fail request w.tracker.next)
          (sending request local w)
unfolding place_new
place_new_lem p request local a w known valid =
    ground (arith, submit_lem request local a w known valid, transition_submitting request local w)
