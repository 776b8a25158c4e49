-- ===== src/ProfitLock/Engine/Events/Prices.antt =====
-- A price update keeps what every event keeps.
use utos.Prelude.{
  ℕ, ◌≡◌, refl, sym, false, ◌&&◌, Option, none, some, Result, if_both, pure, ◌>>◌, bind_ok,
  bind_keeps, Result-cases, inl, inr, subst,
}
use utos.Prelude.Decimal.{Decimal, whole, le_dec}
use utos.Prelude.Dict.{lookup, number_key, lookup-insert_self}
use utos.Execution.Executor.{RetryPolicy}
use utos.ProfitLock.State
use utos.ProfitLock.State.{
  ProfitLockStatus, ProfitLockState, ProfitLockMetrics, ProfitLockStore, PositionSide, LockFailure,
  validate_lock_transition, with_lock_status, record_error, record_processed, record_decision,
  record_lock_triggered, record_lock_executed,
}
use utos.ProfitLock.Policy.{
  Division, ProfitResult, LockAction, calculate, evaluate, decide, is_watching,
}
use utos.ProfitLock.Policy.Decisions.{trigger_from_monitoring, calculate_price}
use utos.ProfitLock.Engine.{
  ProfitLockEngine, Action, move, write, tell, on_price_update, watch, act, handle_trigger,
  handle_update, handle_execute, place_lock_order, locked_at, triggered_at,
}
use utos.ProfitLock.Engine.Events.{given, Meets, Holds, in_status, move_ok}
use utos.ProfitLock.Engine.Events.Steps.{IsKept, write_lem, tell_keeps, place_keeps}

module _ (divide : Division) (P : ProfitLockState → Type 0) (kept : IsKept divide P) (id : ℕ) where
  triggered_keeps :
      (c l : Decimal) (profit : ProfitResult) (s : ProfitLockState) (e : ProfitLockEngine)
      → lookup id e.store.states ≡ some s
      → le_dec c (whole 0) ≡ false
      → evaluate divide c profit s ≡ decide LockAction.trigger_lock l
      → P s
      → Holds P id (handle_trigger id c (some l) e).1
  unfolding handle_trigger validate_lock_transition
  triggered_keeps c l profit s e found positive decided h =
      let t : ProfitLockState = with_lock_status ProfitLockStatus.triggered s in
      let e' : ProfitLockEngine = in_status id ProfitLockStatus.triggered s e in
      let monitoring = trigger_from_monitoring divide c l profit s decided in
      let written =
        write_lem P id (triggered_at c l) t e' (lookup-insert_self id t e.store.states)
          (kept.triggers c l profit s positive decided h) in
      rw (found, monitoring)
        (subst (λ (x : Result LockFailure (Unit {0}) × ProfitLockEngine). Holds P id x.1)
          (sym (
            bind_ok (move id ProfitLockStatus.triggered)
              (λ u. write id (triggered_at c l) >> tell id record_lock_triggered) e e' tt
              (move_ok id ProfitLockStatus.triggered s e found (rw monitoring refl))))
          (bind_keeps (Holds P id) (write id (triggered_at c l) e')
            (λ u. tell id record_lock_triggered) e' written
            (λ u eq.
              tell_keeps divide P kept id record_lock_triggered (write id (triggered_at c l) e').1
                written)))

  price_acts :
      (policy : RetryPolicy) (request_id local_id : ℕ) (c : Decimal) (profit : ProfitResult)
      (s : ProfitLockState) (action : LockAction) (l : Option Decimal) (e : ProfitLockEngine)
      → lookup id e.store.states ≡ some s
      → le_dec c (whole 0) ≡ false
      → evaluate divide c profit s ≡ record { action = action; new_lock_price = l }
      → P s
      → Holds P id (act (given divide policy request_id local_id) id c action l e).1
  unfolding act handle_update handle_execute handle_trigger
  price_acts policy r i c profit s LockAction.no_action l e found positive decided h =
      subst (Meets P) (sym found) h
  price_acts policy r i c profit s LockAction.trigger_lock none e found positive decided h =
      rw found (subst (Meets P) (sym found) h)
  price_acts policy r i c profit s LockAction.trigger_lock (some l) e found positive decided h =
      triggered_keeps c l profit s e found positive decided h
  price_acts policy r i c profit s LockAction.update_lock none e found positive decided h =
      rw found (subst (Meets P) (sym found) h)
  price_acts policy r i c profit s LockAction.update_lock (some l) e found positive decided h =
      rw found
        (write_lem P id (locked_at c l) s e found (kept.updated c l profit s positive decided h))
  price_acts policy r i c profit s LockAction.execute_lock none e found positive decided h =
      subst (Meets P) (sym found) h
  price_acts policy r i c profit s LockAction.execute_lock (some l) e found positive decided h =
      let placed = place_keeps divide P kept id (given divide policy r i) l s e found h in
      bind_keeps (Holds P id) (place_lock_order (given divide policy r i) id l e) (λ b. pure tt) e
        placed (λ b eq. placed)

  watch_keeps :
      (policy : RetryPolicy) (request_id local_id : ℕ) (c : Decimal) (s : ProfitLockState)
      (e : ProfitLockEngine)
      → lookup id e.store.states ≡ some s
      → P s
      → Holds P id (watch (given divide policy request_id local_id) id c s e).1
  unfolding watch tell State.count
  watch_keeps policy r i c s e found h =
      elim (Result-cases (calculate divide s.entry_price c s.quantity s.side)) [
        | inl (profit, calculated) ↦ rw calculated (
            price_acts policy r i c profit s (evaluate divide c profit s).action
              (evaluate divide c profit s).new_lock_price
              (tell id record_decision (tell id record_processed e).1).1 found
              (calculate_price divide s.entry_price c s.quantity s.side profit calculated) refl h)
        | inr (x, failed) ↦ rw failed (subst (Meets P) (sym found) h)
      ]

  pub price_keeps :
      (policy : RetryPolicy) (request_id local_id : ℕ) (c : Decimal) (s : ProfitLockState)
      (e : ProfitLockEngine)
      → lookup id e.store.states ≡ some s
      → P s
      → Holds P id (on_price_update (given divide policy request_id local_id) id c e).1
  unfolding on_price_update
  price_keeps policy r i c s e found h = rw found (
      if_both (λ (m : Action (Unit {0})). Holds P id (m e).1) (s.enabled && is_watching s.status)
        (watch (given divide policy r i) id c s) (pure tt) (watch_keeps policy r i c s e found h)
        (subst (Meets P) (sym found) h))
