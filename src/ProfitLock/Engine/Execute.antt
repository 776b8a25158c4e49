-- ===== src/ProfitLock/Engine/Execute.antt =====
-- A triggered lock whose price falls to it: the order is placed, and its fill locks the instance,
-- backend/engine/profit_lock/engine.py.
use utos.Prelude.{
  ℕ, ◌≡◌, ◌∙◌, ap, refl, Bool, true, false, none, some, Result, ok, err, arith, pure, raise,
  bind_ok, subst, sym, ◌>>◌, ==_iff,
}
use utos.Prelude.Decimal.{Decimal, le_dec, lt_dec}
use utos.Prelude.Dict.{lookup, number_key, lookup-insert_self, insert}
use utos.Execution.Models.{OrderResult, OrderRequest, OrderSide, OrderType, Failure}
use utos.Execution.Executor.{World}
use utos.Execution.Engine
use utos.ProfitLock.State
use utos.ProfitLock.State.{
  ProfitLockStatus, ProfitLockState, PositionSide, LockFailure, record_error, record_lock_executed,
  validate_lock_transition, with_lock_status,
}
use utos.ProfitLock.Policy.{
  Division, ProfitResult, LockAction, calculate, evaluate, evaluate_triggered, decide, reaches_cap,
}
use utos.ProfitLock.Engine.{
  ProfitLockEngine, Given, tell, write, move, on_price_update, lock_request, with_order, lock_side,
  send_lock_order, lock_answered, on_order_filled, executed,
}
use utos.ProfitLock.Engine.Events.{
  counted, on_price_update_acts, act_execute_ok, in_status, move_ok,
}

fall_decides :
    (divide : Division) (c l h : Decimal) (profit : ProfitResult) (s : ProfitLockState)
    → s.enabled ≡ true
    → s.status ≡ ProfitLockStatus.triggered
    → reaches_cap profit.profit_percentage s ≡ false
    → s.highest_price ≡ some h
    → lt_dec h c ≡ false
    → s.lock_price ≡ some l
    → le_dec c l ≡ true
    → evaluate divide c profit s ≡ decide LockAction.execute_lock l
unfolding evaluate evaluate_triggered le_dec
fall_decides divide c l h profit s on status uncapped highest below locked fallen = ground arith

-- what the caller sees of the answer of the execution engine
abbrev pub seen : Result Failure OrderResult → Result LockFailure (Unit {0})
seen (ok result) = ok tt
seen (err x) = err (LockFailure.lock_order_failed x)

-- the state that the answer leaves
abbrev pub sent : Result Failure OrderResult → ProfitLockState → ProfitLockState
sent (ok result) s = record s {
  status = ProfitLockStatus.executing;
  lock_order_id = some result.order_id;
}
sent (err x) s = record s { status = ProfitLockStatus.error }

-- A long position is sold, any other is bought back.
abbrev pub closing_side : PositionSide → OrderSide
closing_side PositionSide.long = OrderSide.sell
closing_side PositionSide.short = OrderSide.buy
closing_side PositionSide.other_side = OrderSide.buy

-- the limit order that closes the whole position at a price
abbrev pub closing_order : ℕ → Decimal → ProfitLockState → OrderRequest
closing_order request_id price s = record {
  request_id = request_id;
  exchange_account_id = s.exchange_account_id;
  symbol = s.symbol;
  side = closing_side s.side;
  order_type = OrderType.limit;
  quantity = s.quantity;
  price = some price;
  stop_price = none;
  client_order_id = none;
}

closing_side_lem : (side : PositionSide) → lock_side side ≡ closing_side side
closing_side_lem PositionSide.long = refl
closing_side_lem PositionSide.short = refl
closing_side_lem PositionSide.other_side = refl

lock_request_lem :
    (g : Given) (s : ProfitLockState) (l : Decimal)
    → lock_request g s l ≡ closing_order g.request_id l s
lock_request_lem g s l =
    λ i. record (closing_order g.request_id l s) { side = closing_side_lem s.side i }

-- an outcome of a price: its result, the execution engine and the state of the instance
abbrev pub Outcome :
    Result LockFailure (Unit {0})
    → World
    → ProfitLockState
    → ℕ
    → Result LockFailure (Unit {0}) × ProfitLockEngine
    → Type 0
Outcome r w s id after =
    ((after.0 ≡ r) × (after.1.exec ≡ w)) × (lookup id after.1.store.states ≡ some s)

answered_ends :
    (id : ℕ) (r : Result Failure OrderResult) (s : ProfitLockState) (e : ProfitLockEngine)
    → Outcome
        (seen r)
        e.exec
        (sent r s)
        id
        ((lock_answered id r >> pure tt) (in_status id ProfitLockStatus.executing s e))
unfolding lock_answered write tell State.change State.count validate_lock_transition
answered_ends id (ok result) s e =
    let t : ProfitLockState = with_lock_status ProfitLockStatus.executing s in
    let found = lookup-insert_self id t e.store.states in
    rw found (
      (refl, refl),
      lookup-insert_self id (with_order result.order_id t) (insert id t e.store.states),
    )
answered_ends id (err x) s e =
    let t : ProfitLockState = with_lock_status ProfitLockStatus.executing s in
    let e' : ProfitLockEngine = in_status id ProfitLockStatus.executing s e in
    let found = lookup-insert_self id t e.store.states in
    subst
      (λ (y : Result LockFailure (Unit {0}) × ProfitLockEngine).
        Outcome (seen (err x)) e.exec (sent (err x) s) id y)
      (sym (
        ap (λ (y : Result LockFailure Bool × ProfitLockEngine). ((λ _. y) >> pure tt) e')
          (bind_ok (move id ProfitLockStatus.error)
            (λ u. tell id record_error >> raise (LockFailure.lock_order_failed x)) e'
            (in_status id ProfitLockStatus.error t e') tt
            (move_ok id ProfitLockStatus.error t e' found refl))))
      (
        (refl, refl),
        lookup-insert_self id (with_lock_status ProfitLockStatus.error s) e'.store.states,
      )

executes :
    (g : Given) (id : ℕ) (c l h : Decimal) (profit : ProfitResult) (s : ProfitLockState)
    (e : ProfitLockEngine)
    → lookup id e.store.states ≡ some s
    → s.enabled ≡ true
    → s.status ≡ ProfitLockStatus.triggered
    → calculate g.divide s.entry_price c s.quantity s.side ≡ ok profit
    → reaches_cap profit.profit_percentage s ≡ false
    → s.highest_price ≡ some h
    → lt_dec h c ≡ false
    → s.lock_price ≡ some l
    → le_dec c l ≡ true
    → let answer = Engine.place_order g.policy (lock_request g s l) g.local_id e.exec in
      Outcome (seen answer.0) answer.1 (sent answer.0 s) id (on_price_update g id c e)
unfolding validate_lock_transition send_lock_order tell State.count
executes g id c l h profit s e found on status calculated uncapped highest below locked fallen =
    let answer : Result Failure OrderResult × World =
      Engine.place_order g.policy (lock_request g s l) g.local_id e.exec in
    subst (Outcome (seen answer.0) answer.1 (sent answer.0 s) id)
      (sym (
        on_price_update_acts g id c profit s e (decide LockAction.execute_lock l) found
          (rw (on, status) refl) calculated
          (fall_decides g.divide c l h profit s on status uncapped highest below locked fallen)
        ∙ act_execute_ok g id c l s (counted id e) found (rw status refl)))
      (answered_ends id answer.0 s (record (counted id e) { exec = answer.1 }))

-- A price at or below the lock price of an enabled, triggered instance, which is no new high and
-- reaches no cap, sends a limit order over the whole position at the lock price, a sell for a long
-- and a buy for any other position, to the execution engine. Where that answers with a result, the
-- instance is executing and holds the id of the order; where it raises, the instance is in error and
-- the price update raises. The execution engine is as its call leaves it.
pub fall_executes :
    (g : Given) (id : ℕ) (c l h : Decimal) (profit : ProfitResult) (s : ProfitLockState)
    (e : ProfitLockEngine)
    → lookup id e.store.states ≡ some s
    → s.enabled ≡ true
    → s.status ≡ ProfitLockStatus.triggered
    → calculate g.divide s.entry_price c s.quantity s.side ≡ ok profit
    → reaches_cap profit.profit_percentage s ≡ false
    → s.highest_price ≡ some h
    → lt_dec h c ≡ false
    → s.lock_price ≡ some l
    → le_dec c l ≡ true
    → let answer = Engine.place_order g.policy (closing_order g.request_id l s) g.local_id e.exec in
      Outcome (seen answer.0) answer.1 (sent answer.0 s) id (on_price_update g id c e)
fall_executes g id c l h profit s e found on status calculated uncapped highest below locked
      fallen =
    subst
      (λ r.
        let answer = Engine.place_order g.policy r g.local_id e.exec in
        Outcome (seen answer.0) answer.1 (sent answer.0 s) id (on_price_update g id c e))
      (lock_request_lem g s l)
      (executes g id c l h profit s e found on status calculated uncapped highest below locked
        fallen)

-- The fill of the lock order locks an executing instance: it is executed, and holds no order.
pub fill_locks :
    (id order_id : ℕ) (s : ProfitLockState) (e : ProfitLockEngine)
    → lookup id e.store.states ≡ some s
    → s.status ≡ ProfitLockStatus.executing
    → s.lock_order_id ≡ some order_id
    → Outcome
        (ok tt)
        e.exec
        (executed (with_lock_status ProfitLockStatus.locked s))
        id
        (on_order_filled id order_id e)
unfolding on_order_filled write tell State.change State.count validate_lock_transition
fill_locks id order_id s e found status own =
    let t : ProfitLockState = with_lock_status ProfitLockStatus.locked s in
    let e' : ProfitLockEngine = in_status id ProfitLockStatus.locked s e in
    rw (found, status, own, (==_iff order_id order_id).1 refl)
      (subst (Outcome (ok tt) e.exec (executed t) id)
        (sym (
          bind_ok (move id ProfitLockStatus.locked)
            (λ u. write id executed >> tell id record_lock_executed) e e' tt
            (move_ok id ProfitLockStatus.locked s e found (rw status refl))))
        (rw (lookup-insert_self id t e.store.states)
          ((refl, refl), lookup-insert_self id (executed t) e'.store.states)))
