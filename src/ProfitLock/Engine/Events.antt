-- ===== src/ProfitLock/Engine/Events.antt =====
-- The events that reach a profit lock, one after another, and the steps of its methods.
pub mod Steps
pub mod Prices
pub mod Keeps
use utos.Prelude.{
  ℕ, ◌≡◌, ap, refl, sym, ◌∙◌, Bool, true, false, ◌&&◌, Option, none, some, List, [], ◌∷◌, Result,
  ok, err, arith, if◌then◌else◌, if_both, pure, raise, ◌>>=◌, ◌>>◌, bind_ok, bind_err, bind_keeps,
  Bool-cases, Option-cases, Result-cases, inl, inr, subst,
}
use utos.Prelude.Decimal.{Decimal, whole, le_dec}
use utos.Prelude.Dict.{lookup, insert, number_key, lookup-insert_self}
use utos.Execution.Models.{OrderRequest, OrderResult, Failure}
use utos.Execution.Executor.{RetryPolicy}
use utos.Execution.Engine
use utos.ProfitLock.State
use utos.ProfitLock.State.{
  ProfitLockStatus, ProfitLockState, ProfitLockMetrics, ProfitLockStore, PositionSide, LockFailure,
  validate_lock_transition, with_lock_status, record_error, record_processed, record_decision,
  record_lock_triggered, record_lock_executed,
}
use utos.ProfitLock.State.Machine.{executing_from_triggered}
use utos.ProfitLock.Policy.{
  Division, ProfitResult, PolicyDecision, LockAction, calculate, evaluate, decide, is_watching,
}
use utos.ProfitLock.Policy.Decisions.{trigger_from_monitoring, calculate_price}
use utos.ProfitLock.Engine.{
  ProfitLockEngine, Given, Action, move, write, tell, on_price_update, on_order_filled,
  on_order_cancelled, on_position_update, watch, act, handle_trigger, handle_update, handle_execute,
  place_lock_order, send_lock_order, lock_answered, locked_at, triggered_at, is_order, is_executing,
  filled_found, cancelled_found, is_monitoring, repositioned, executed, without_order, with_order,
  lock_request,
}

-- a price with the two ids of the order that it may cause to be placed
pub data LockEvent : Type 0 where
  price : ℕ → ℕ → Decimal → LockEvent
  position : Decimal → Decimal → LockEvent
  filled cancelled : ℕ → LockEvent

abbrev pub given : Division → RetryPolicy → ℕ → ℕ → Given
given divide policy request_id local_id = record {
  divide = divide;
  policy = policy;
  request_id = request_id;
  local_id = local_id;
}

unfoldable pub handle : Division → RetryPolicy → ℕ → LockEvent → Action (Unit {0})
handle divide policy id (LockEvent.price request_id local_id current_price) =
    on_price_update (given divide policy request_id local_id) id current_price
handle divide policy id (LockEvent.position entry_price quantity) =
    on_position_update id entry_price quantity
handle divide policy id (LockEvent.filled order_id) = on_order_filled id order_id
handle divide policy id (LockEvent.cancelled order_id) = on_order_cancelled id order_id

-- an exception that a handler raises is the caller's, who goes on with the next event
unfoldable pub run :
    Division → RetryPolicy → ℕ → List LockEvent → ProfitLockEngine → ProfitLockEngine
run divide policy id [] e = e
run divide policy id (event ∷ events) e =
    run divide policy id events (handle divide policy id event e).1

-- The instance is known, and its state satisfies `P`.
abbrev pub Meets : (ProfitLockState → Type 0) → Option ProfitLockState → Type 0
Meets P none = ⊥
Meets P (some state) = P state

abbrev pub Holds : (ProfitLockState → Type 0) → ℕ → ProfitLockEngine → Type 0
Holds P id e = Meets P (lookup id e.store.states)

-- the engine in which the state of an instance has a status
abbrev pub in_status : ℕ → ProfitLockStatus → ProfitLockState → ProfitLockEngine → ProfitLockEngine
in_status id status s e = record e {
  store = record e.store { states = insert id (with_lock_status status s) e.store.states };
}

pub move_ok :
    (id : ℕ) (status : ProfitLockStatus) (s : ProfitLockState) (e : ProfitLockEngine)
    → lookup id e.store.states ≡ some s
    → validate_lock_transition s.status status ≡ ok tt
    → move id status e ≡ (ok tt, in_status id status s e)
unfolding move State.transition
move_ok id status s e found allowed = rw (found, allowed)

pub move_err :
    (id : ℕ) (status : ProfitLockStatus) (s : ProfitLockState) (x : LockFailure)
    (e : ProfitLockEngine)
    → lookup id e.store.states ≡ some s
    → validate_lock_transition s.status status ≡ err x
    → move id status e ≡ (err x, e)
unfolding move State.transition
move_err id status s x e found refused = rw (found, refused)

pub place_lock_order_ok :
    (g : Given) (id : ℕ) (lock_price : Decimal) (s : ProfitLockState) (e : ProfitLockEngine)
    → lookup id e.store.states ≡ some s
    → validate_lock_transition s.status ProfitLockStatus.executing ≡ ok tt
    → place_lock_order g id lock_price e
      ≡ send_lock_order g id
          (lock_request g s lock_price)
          (in_status id ProfitLockStatus.executing s e)
unfolding place_lock_order
place_lock_order_ok g id lock_price s e found allowed = rw found (
    bind_ok (move id ProfitLockStatus.executing)
      (λ u. send_lock_order g id (lock_request g s lock_price)) e
      (in_status id ProfitLockStatus.executing s e) tt
      (move_ok id ProfitLockStatus.executing s e found allowed))

pub place_lock_order_err :
    (g : Given) (id : ℕ) (lock_price : Decimal) (s : ProfitLockState) (x : LockFailure)
    (e : ProfitLockEngine)
    → lookup id e.store.states ≡ some s
    → validate_lock_transition s.status ProfitLockStatus.executing ≡ err x
    → place_lock_order g id lock_price e ≡ (err x, e)
unfolding place_lock_order
place_lock_order_err g id lock_price s x e found refused = rw found (
    bind_err (move id ProfitLockStatus.executing)
      (λ u. send_lock_order g id (lock_request g s lock_price)) e e x
      (move_err id ProfitLockStatus.executing s x e found refused))

-- the engine after the counts of a price that reaches the policy
abbrev pub counted : ℕ → ProfitLockEngine → ProfitLockEngine
counted id e = (tell id record_decision (tell id record_processed e).1).1

pub on_price_update_acts :
    (g : Given) (id : ℕ) (c : Decimal) (profit : ProfitResult) (s : ProfitLockState)
    (e : ProfitLockEngine) (decision : PolicyDecision)
    → lookup id e.store.states ≡ some s
    → s.enabled && is_watching s.status ≡ true
    → calculate g.divide s.entry_price c s.quantity s.side ≡ ok profit
    → evaluate g.divide c profit s ≡ decision
    → on_price_update g id c e ≡ act g id c decision.action decision.new_lock_price (counted id e)
unfolding on_price_update watch tell
on_price_update_acts g id c profit s e decision found watched calculated decided =
    rw (found, watched, calculated)
      (ap (λ d. act g id c d.action d.new_lock_price (counted id e)) decided)

-- a decision to execute
pub act_execute_ok :
    (g : Given) (id : ℕ) (c l : Decimal) (s : ProfitLockState) (e : ProfitLockEngine)
    → lookup id e.store.states ≡ some s
    → validate_lock_transition s.status ProfitLockStatus.executing ≡ ok tt
    → act g id c LockAction.execute_lock (some l) e
      ≡ (send_lock_order g id (lock_request g s l) >> pure tt)
          (in_status id ProfitLockStatus.executing s e)
unfolding act handle_execute
act_execute_ok g id c l s e found allowed =
    ap (λ (x : Result LockFailure Bool × ProfitLockEngine). ((λ _. x) >> pure tt) e)
      (place_lock_order_ok g id l s e found allowed)

pub act_execute_err :
    (g : Given) (id : ℕ) (c l : Decimal) (s : ProfitLockState) (x : LockFailure)
    (e : ProfitLockEngine)
    → lookup id e.store.states ≡ some s
    → validate_lock_transition s.status ProfitLockStatus.executing ≡ err x
    → act g id c LockAction.execute_lock (some l) e ≡ (err x, e)
unfolding act handle_execute
act_execute_err g id c l s x e found refused =
    bind_err (place_lock_order g id l) (λ b. pure tt) e e x
      (place_lock_order_err g id l s x e found refused)
