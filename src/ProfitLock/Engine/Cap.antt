-- ===== src/ProfitLock/Engine/Cap.antt =====
-- A monitoring lock that reaches its profit cap, backend/engine/profit_lock/engine.py.
use utos.Prelude.{ℕ, ◌≡◌, ◌∙◌, ap, refl, true, some, ok, err, arith}
use utos.Prelude.Decimal.{Decimal}
use utos.Prelude.Dict.{lookup, number_key}
use utos.ProfitLock.State
use utos.ProfitLock.State.{
  ProfitLockStatus, ProfitLockState, LockFailure, record_processed, record_decision,
  validate_lock_transition,
}
use utos.ProfitLock.Policy.{
  ProfitResult, LockAction, calculate, evaluate, decide, reaches_cap, is_watching,
}
use utos.ProfitLock.Engine.{ProfitLockEngine, Given, tell, on_price_update}
use utos.ProfitLock.Engine.Events.{counted, on_price_update_acts, act_execute_err}

cap_decides :
    (g : Given) (c : Decimal) (profit : ProfitResult) (s : ProfitLockState)
    → s.enabled ≡ true
    → is_watching s.status ≡ true
    → reaches_cap profit.profit_percentage s ≡ true
    → evaluate g.divide c profit s ≡ decide LockAction.execute_lock c
unfolding evaluate
cap_decides g c profit s on watched reached = ground arith

-- A price at which an enabled, monitoring instance reaches its profit cap makes the price update
-- raise: the lock is not executed. No order is placed, and the state of no instance changes.
pub cap_raises :
    (g : Given) (id : ℕ) (c : Decimal) (profit : ProfitResult) (s : ProfitLockState)
    (e : ProfitLockEngine)
    → lookup id e.store.states ≡ some s
    → s.enabled ≡ true
    → s.status ≡ ProfitLockStatus.monitoring
    → calculate g.divide s.entry_price c s.quantity s.side ≡ ok profit
    → reaches_cap profit.profit_percentage s ≡ true
    → let after = on_price_update g id c e in
      ((after.0
          ≡ err (
              LockFailure.invalid_lock_transition ProfitLockStatus.monitoring
                ProfitLockStatus.executing))
        × (after.1.exec ≡ e.exec))
      × (after.1.store.states ≡ e.store.states)
unfolding validate_lock_transition tell State.count
cap_raises g id c profit s e found on status calculated reached =
    let x : LockFailure =
      LockFailure.invalid_lock_transition ProfitLockStatus.monitoring ProfitLockStatus.executing in
    let raised : on_price_update g id c e ≡ (err x, counted id e) =
      on_price_update_acts g id c profit s e (decide LockAction.execute_lock c) found
        (rw (on, status) refl) calculated (cap_decides g c profit s on (rw status refl) reached)
      ∙ act_execute_err g id c c s x (counted id e) found (rw status refl) in
    ((ap (λ y. y.0) raised, ap (λ y. y.1.exec) raised), ap (λ y. y.1.store.states) raised)
