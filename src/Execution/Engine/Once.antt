-- ===== src/Execution/Engine/Once.antt =====
-- A request is sent once: a repetition is answered from the tracker.
use utos.Prelude.{
  ℕ, ◌≡◌, ◌∙◌, ap, none, some, Result, ok, err, catch, ◌>>=◌, arith, inl, inr, Option-cases,
  Result-cases,
}
use utos.Prelude.Dict.{lookup, number_key}
use utos.Execution.Models.{OrderRequest, OrderResult, TrackedOrder, Status, Failure}
use utos.Execution.OrderState.{validate_transition}
use utos.Execution.Validator.{validate}
use utos.Execution.Tracker.{Ref, OrderTracker, map_exchange_status, get_by_request_id}
use utos.Execution.Executor.{Adapter, World, RetryPolicy, execute}
use utos.Execution.Executor.Retry.{execute_frame}
use utos.Execution.Engine.{settle, fail, submit, place_new, place_order, get_adapter}
use utos.Execution.Engine.Place.{
  IsInFlight, settle_stores, settle_refuses, fail_marks, sending, sending-IsInFlight, place_new_lem,
}

-- How the tracker has recorded what the caller was told.
abbrev pub Recorded : OrderTracker → Ref → Result Failure OrderResult → Type 0
Recorded t ref (ok r) = (t.objects ref).result ≡ r
Recorded t ref (err e) = (t.objects ref).status ≡ Status.failed

abbrev pub Settled : OrderRequest → Ref → Result Failure OrderResult × World → Type 0
Settled request ref (answer, w) =
    (get_by_request_id request.request_id w.tracker ≡ some ref) × Recorded w.tracker ref answer

-- what follows the answer of the exchange
abbrev finish :
    OrderRequest
    → Ref
    → Result Failure OrderResult × World
    → World
    → Result Failure OrderResult × World
finish request ref x = catch ((λ _. x) >>= settle request ref) (fail request ref)

flight_found :
    (request : OrderRequest) (local : ℕ) (ref : Ref) (t : OrderTracker)
    → IsInFlight request local ref t
    → get_by_request_id request.request_id t ≡ some ref
unfolding get_by_request_id
flight_found request local ref t flight = rw flight.found flight.stored

-- what `settle` has to leave behind for the except block to do the rest
Handled : OrderRequest → Ref → Result Failure OrderResult × World → Type 0
Handled request ref (ok r, w) = Settled request ref (ok r, w)
Handled request ref (err e, w) =
    ((w.tracker.objects ref).status ≡ Status.submitting)
    × (get_by_request_id request.request_id w.tracker ≡ some ref)

caught-Settled :
    (request : OrderRequest) (ref : Ref) (s : Result Failure OrderResult × World) (w : World)
    → Handled request ref s
    → Settled request ref (catch (λ _. s) (fail request ref) w)
unfolding Handled
caught-Settled request ref (ok r, v) w h = h
caught-Settled request ref (err e, v) w h =
    let m = fail_marks request ref e v h.0 h.1 in rw m.0 (m.1, m.2)

stored-Handled :
    (request : OrderRequest) (ref : Ref) (s : Result Failure OrderResult × World) (r : OrderResult)
    → s.0 ≡ ok r
    → get_by_request_id request.request_id s.1.tracker ≡ some ref
    → (s.1.tracker.objects ref).result ≡ r
    → Handled request ref s
unfolding Handled
stored-Handled request ref (ok q, v) r e f g = (f, ground arith)
stored-Handled request ref (err x, v) r e f g = cc

refused-Handled :
    (request : OrderRequest) (ref : Ref) (s : Result Failure OrderResult × World) (x : Failure)
    → s.0 ≡ err x
    → get_by_request_id request.request_id s.1.tracker ≡ some ref
    → (s.1.tracker.objects ref).status ≡ Status.submitting
    → Handled request ref s
unfolding Handled
refused-Handled request ref (ok q, v) x e f g = cc
refused-Handled request ref (err y, v) x e f g = (g, f)

settle-Handled :
    (request : OrderRequest) (local : ℕ) (ref : Ref) (r : OrderResult) (v : World)
    → IsInFlight request local ref v.tracker
    → Handled request ref (settle request ref r v)
settle-Handled request local ref r v flight =
    elim (Result-cases (validate_transition Status.submitting (map_exchange_status r.status))) [
      | inl (u, allowed) ↦
          let m = settle_stores request local ref r v flight allowed in
          stored-Handled request ref (settle request ref r v) r m.0 m.1 m.2
      | inr (e, refused) ↦
          let m = settle_refuses request local ref r v flight e refused in
          refused-Handled request ref (settle request ref r v) e m.0 m.1
            (ap (λ (o : TrackedOrder). o.status) m.2 ∙ flight.status)
    ]

finish-Settled :
    (request : OrderRequest) (local : ℕ) (ref : Ref) (answer : Result Failure OrderResult)
    (v w : World)
    → IsInFlight request local ref v.tracker
    → Settled request ref (finish request ref (answer, v) w)
unfolding Handled
finish-Settled request local ref (err e) v w flight =
    caught-Settled request ref (err e, v) w
      (flight.status, flight_found request local ref v.tracker flight)
finish-Settled request local ref (ok r) v w flight =
    caught-Settled request ref (settle request ref r v) w
      (settle-Handled request local ref r v flight)

-- A request that was not known, to an account that is, and that the validator lets pass, is
-- tracked afterwards, and the tracker records the answer that the caller was given.
pub place_new-records :
    (p : RetryPolicy) (request : OrderRequest) (local : ℕ) (a : Adapter) (w : World)
    → lookup request.exchange_account_id w.adapters ≡ some a
    → validate request ≡ ok tt
    → Settled request w.tracker.next (place_new p request local w)
place_new-records p request local a w known valid =
    rw (place_new_lem p request local a w known valid) (
      finish-Settled request local w.tracker.next (execute p request a (sending request local w)).0
        (execute p request a (sending request local w)).1 (sending request local w)
        (rw ((execute_frame p request a (sending request local w)).0)
          (sending-IsInFlight request local w)))

-- A known request id is answered from the tracker, and the world stays as it is.
repeats :
    (p : RetryPolicy) (again : OrderRequest) (local : ℕ) (ref : Ref) (w : World)
    → get_by_request_id again.request_id w.tracker ≡ some ref
    → place_order p again local w ≡ (ok (w.tracker.objects ref).result, w)
unfolding place_order
repeats p again local ref w h = rw (h, place_order)

unknown_goes_on :
    (p : RetryPolicy) (request : OrderRequest) (local : ℕ) (w : World)
    → get_by_request_id request.request_id w.tracker ≡ none
    → place_order p request local w ≡ place_new p request local w
unfolding place_order
unknown_goes_on p request local w h = rw (h, place_order)

Settled-repeats :
    (p : RetryPolicy) (request again : OrderRequest) (local : ℕ) (ref : Ref)
    (s : Result Failure OrderResult × World) (r : OrderResult)
    → again.request_id ≡ request.request_id
    → Settled request ref s
    → s.0 ≡ ok r
    → place_order p again local s.1 ≡ (ok r, s.1)
Settled-repeats p request again local ref (ok q, v) r same h e =
    repeats p again local ref v (rw same h.0) ∙ ground arith
Settled-repeats p request again local ref (err x, v) r same h e = cc

unregistered :
    (p : RetryPolicy) (request : OrderRequest) (local : ℕ) (w : World)
    → lookup request.exchange_account_id w.adapters ≡ none
    → place_new p request local w ≡ (err Failure.order_execution, w)
unfolding place_new submit get_adapter
unregistered p request local w h = ground arith

invalid :
    (p : RetryPolicy) (request : OrderRequest) (local : ℕ) (a : Adapter) (e : Failure) (w : World)
    → lookup request.exchange_account_id w.adapters ≡ some a
    → validate request ≡ err e
    → place_new p request local w ≡ (err e, w)
unfolding place_new submit get_adapter
invalid p request local a e w h k = ground arith

place_new_repeats :
    (p q : RetryPolicy) (request again : OrderRequest) (local local' : ℕ) (w : World)
    (r : OrderResult)
    → again.request_id ≡ request.request_id
    → (place_new p request local w).0 ≡ ok r
    → place_order q again local' (place_new p request local w).1
      ≡ (ok r, (place_new p request local w).1)
place_new_repeats p q request again local local' w r same e =
    elim (Option-cases (lookup request.exchange_account_id w.adapters)) [
      | inl missing ↦ absurd (ground (arith, unregistered p request local w missing))
      | inr (a, known) ↦ elim (Result-cases (validate request)) [
        | inl (u, valid) ↦
            Settled-repeats q request again local' w.tracker.next (place_new p request local w) r
              same (place_new-records p request local a w known valid) e
        | inr (x, refused) ↦ absurd (ground (arith, invalid p request local a x w known refused))
      ]
    ]

failed_Settled :
    (p : RetryPolicy) (request again : OrderRequest) (local : ℕ) (ref : Ref)
    (s : Result Failure OrderResult × World) (e : Failure)
    → again.request_id ≡ request.request_id
    → Settled request ref s
    → s.0 ≡ err e
    → ((s.1.tracker.objects ref).status ≡ Status.failed)
      × (place_order p again local s.1 ≡ (ok (s.1.tracker.objects ref).result, s.1))
failed_Settled p request again local ref (ok q, v) e same h f = absurd (ground arith)
failed_Settled p request again local ref (err x, v) e same h f =
    (h.1, repeats p again local ref v (rw same h.0))

-- Once `place_order` has returned a result, a call made next with the same request id, whatever else
-- it asks for and under whatever retry policy, returns that result and leaves the world as it is:
-- no order is placed and nothing is written.
pub place_order_idempotent :
    (p q : RetryPolicy) (request again : OrderRequest) (local local' : ℕ) (w : World)
    (r : OrderResult)
    → again.request_id ≡ request.request_id
    → (place_order p request local w).0 ≡ ok r
    → place_order q again local' (place_order p request local w).1
      ≡ (ok r, (place_order p request local w).1)
place_order_idempotent p q request again local local' w r same e =
    elim (Option-cases (get_by_request_id request.request_id w.tracker)) [
      | inl new ↦ rw (unknown_goes_on p request local w new) (
          place_new_repeats p q request again local local' w r same
            (rw (unknown_goes_on p request local w new) at e))
      | inr (ref, known) ↦
          rw (repeats p request local ref w known)
            (ground (arith, repeats q again local' ref w, repeats p request local ref w known))
    ]

-- A request that was sent and failed is not sent again: its order is left as failed, and a later
-- call with its id returns the recorded result without an exception and changes nothing.
pub failed_not_resent :
    (p q : RetryPolicy) (request again : OrderRequest) (local local' : ℕ) (a : Adapter) (w : World)
    (e : Failure)
    → get_by_request_id request.request_id w.tracker ≡ none
    → lookup request.exchange_account_id w.adapters ≡ some a
    → validate request ≡ ok tt
    → again.request_id ≡ request.request_id
    → (place_order p request local w).0 ≡ err e
    → let w' = (place_order p request local w).1 in
      ((w'.tracker.objects w.tracker.next).status ≡ Status.failed)
      × (place_order q again local' w' ≡ (ok (w'.tracker.objects w.tracker.next).result, w'))
failed_not_resent p q request again local local' a w e new known valid same failed =
    rw (unknown_goes_on p request local w new) (
      failed_Settled q request again local' w.tracker.next (place_new p request local w) e same
        (place_new-records p request local a w known valid)
        (rw (unknown_goes_on p request local w new) at failed))
