-- ===== src/ProfitLock/Engine/Events/Keeps.antt =====
-- A predicate on the state of an instance is kept by every sequence of events.
use utos.Prelude.{
  ℕ, ◌≡◌, refl, sym, false, ◌&&◌, some, List, [], ◌∷◌, ◌>>◌, bind_keeps, Bool-cases, Option-cases,
  inl, inr, subst,
}
use utos.Prelude.Dict.{lookup, number_key}
use utos.Execution.Executor.{RetryPolicy}
use utos.ProfitLock.State
use utos.ProfitLock.State.{
  ProfitLockStatus, ProfitLockState, ProfitLockMetrics, ProfitLockStore, PositionSide, LockFailure,
  validate_lock_transition, with_lock_status, record_error, record_processed, record_decision,
  record_lock_triggered, record_lock_executed,
}
use utos.ProfitLock.Policy.{Division}
use utos.ProfitLock.Engine.{
  ProfitLockEngine, Action, move, write, tell, on_order_filled, on_order_cancelled,
  on_position_update, is_order, is_executing, is_monitoring, repositioned, executed, without_order,
}
use utos.ProfitLock.Engine.Events.{LockEvent, handle, run, Meets, Holds}
use utos.ProfitLock.Engine.Events.Steps.{
  IsKept, write_lem, write_keeps, move_keeps, tell_keeps, executing_status,
}
use utos.ProfitLock.Engine.Events.Prices.{price_keeps}

module _ (divide : Division) (P : ProfitLockState → Type 0) (kept : IsKept divide P) (id : ℕ) where
  -- a move out of `executing`, then what keeps the predicate
  moved_keeps :
      (status : ProfitLockStatus) (m : Action (Unit {0})) (s : ProfitLockState)
      (e : ProfitLockEngine)
      → lookup id e.store.states ≡ some s
      → is_monitoring status ≡ false
      → is_monitoring s.status ≡ false
      → ((e' : ProfitLockEngine) → Holds P id e' → Holds P id (m e').1)
      → P s
      → Holds P id ((move id status >> m) e).1
  moved_keeps status m s e found p q after h =
      let moved = move_keeps divide P kept id status s e found p q h in
      bind_keeps (Holds P id) (move id status e) (λ u. m) e moved
        (λ u eq. after (move id status e).1 moved)

  done_keeps :
      (e : ProfitLockEngine)
      → Holds P id e
      → Holds P id ((write id executed >> tell id record_lock_executed) e).1
  done_keeps e h =
      let written = write_keeps divide P kept id executed e kept.done h in
      bind_keeps (Holds P id) (write id executed e) (λ u. tell id record_lock_executed) e written
        (λ u eq. tell_keeps divide P kept id record_lock_executed (write id executed e).1 written)

  filled_keeps :
      (order_id : ℕ) (s : ProfitLockState) (e : ProfitLockEngine)
      → lookup id e.store.states ≡ some s
      → P s
      → Holds P id (on_order_filled id order_id e).1
  unfolding on_order_filled
  filled_keeps order_id s e found h =
      elim (Bool-cases (is_order order_id s.lock_order_id && is_executing s.status)) [
        | inl own ↦
            rw (found, own)
              (moved_keeps ProfitLockStatus.locked
                (write id executed >> tell id record_lock_executed) s e found refl
                (executing_status s (is_order order_id s.lock_order_id) own) done_keeps h)
        | inr other ↦ rw (found, other) (subst (Meets P) (sym found) h)
      ]

  cancelled_keeps :
      (order_id : ℕ) (s : ProfitLockState) (e : ProfitLockEngine)
      → lookup id e.store.states ≡ some s
      → P s
      → Holds P id (on_order_cancelled id order_id e).1
  unfolding on_order_cancelled
  cancelled_keeps order_id s e found h =
      elim (Bool-cases (is_order order_id s.lock_order_id && is_executing s.status)) [
        | inl own ↦
            rw (found, own)
              (moved_keeps ProfitLockStatus.triggered (write id without_order) s e found refl
                (executing_status s (is_order order_id s.lock_order_id) own)
                (λ e' k. write_keeps divide P kept id without_order e' kept.without_id k) h)
        | inr other ↦ rw (found, other) (subst (Meets P) (sym found) h)
      ]

  known_keeps :
      (policy : RetryPolicy) (event : LockEvent) (s : ProfitLockState) (e : ProfitLockEngine)
      → lookup id e.store.states ≡ some s
      → P s
      → Holds P id (handle divide policy id event e).1
  unfolding handle on_position_update State.update State.change write
  known_keeps policy (LockEvent.price r i c) s e found h =
      price_keeps divide P kept id policy r i c s e found h
  known_keeps policy (LockEvent.position entry_price quantity) s e found h = rw found (
      write_lem P id (repositioned entry_price quantity) s e found
        (kept.at_position entry_price quantity s h))
  known_keeps policy (LockEvent.filled order_id) s e found h = filled_keeps order_id s e found h
  known_keeps policy (LockEvent.cancelled order_id) s e found h =
      cancelled_keeps order_id s e found h

  pub handle_keeps :
      (policy : RetryPolicy) (event : LockEvent) (e : ProfitLockEngine)
      → Holds P id e
      → Holds P id (handle divide policy id event e).1
  handle_keeps policy event e h = elim (Option-cases (lookup id e.store.states)) [
    | inl unknown ↦ elim (subst (Meets P) unknown h) [ ]
    | inr (s, found) ↦ known_keeps policy event s e found (subst (Meets P) found h)
  ]

  pub run_keeps :
      (policy : RetryPolicy) (events : List LockEvent) (e : ProfitLockEngine)
      → Holds P id e
      → Holds P id (run divide policy id events e)
  unfolding run
  run_keeps policy [] e h = h
  run_keeps policy (event ∷ events) e h =
      run_keeps policy events (handle divide policy id event e).1 (handle_keeps policy event e h)
