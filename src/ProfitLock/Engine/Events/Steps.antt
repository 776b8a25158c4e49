-- ===== src/ProfitLock/Engine/Events/Steps.antt =====
-- What a predicate on the state of an instance has to be for the steps of
-- backend/engine/profit_lock/engine.py to keep it.
use utos.Prelude.{
  ℕ, ◌≡◌, refl, sym, Bool, true, false, ◌&&◌, some, Result, ok, err, arith, pure, raise, ◌>>◌,
  bind_keeps, Option-cases, Result-cases, inl, inr, subst,
}
use utos.Prelude.Decimal.{Decimal, whole, le_dec}
use utos.Prelude.Dict.{lookup, number_key, lookup-insert_self}
use utos.Execution.Models.{OrderRequest, OrderResult, Failure}
use utos.Execution.Engine
use utos.ProfitLock.State
use utos.ProfitLock.State.{
  ProfitLockStatus, ProfitLockState, ProfitLockMetrics, ProfitLockStore, PositionSide, LockFailure,
  validate_lock_transition, with_lock_status, record_error, record_processed, record_decision,
  record_lock_triggered, record_lock_executed,
}
use utos.ProfitLock.State.Machine.{executing_from_triggered}
use utos.ProfitLock.Policy.{Division, ProfitResult, LockAction, evaluate, decide}
use utos.ProfitLock.Engine.{
  ProfitLockEngine, Given, move, write, tell, place_lock_order, send_lock_order, lock_answered,
  locked_at, triggered_at, is_executing, is_monitoring, repositioned, executed, without_order,
  with_order, lock_request,
}
use utos.ProfitLock.Engine.Events.{
  Meets, Holds, in_status, move_ok, move_err, place_lock_order_ok, place_lock_order_err,
}

-- What a predicate on states has to be closed under to be kept by every event.
pub record IsKept (divide : Division) (P : ProfitLockState → Type 0) : Type 0 where
  pub moved :
      (status : ProfitLockStatus) (s : ProfitLockState)
      → is_monitoring status ≡ false
      → is_monitoring s.status ≡ false
      → P s
      → P (with_lock_status status s)
  pub with_id : (order_id : ℕ) (s : ProfitLockState) → P s → P (with_order order_id s)
  pub without_id : (s : ProfitLockState) → P s → P (without_order s)
  pub done : (s : ProfitLockState) → P s → P (executed s)
  pub at_position :
      (entry_price quantity : Decimal) (s : ProfitLockState)
      → P s
      → P (repositioned entry_price quantity s)
  pub updated :
      (current_price lock_price : Decimal) (profit : ProfitResult) (s : ProfitLockState)
      → le_dec current_price (whole 0) ≡ false
      → evaluate divide current_price profit s ≡ decide LockAction.update_lock lock_price
      → P s
      → P (locked_at current_price lock_price s)
  pub triggers :
      (current_price lock_price : Decimal) (profit : ProfitResult) (s : ProfitLockState)
      → le_dec current_price (whole 0) ≡ false
      → evaluate divide current_price profit s ≡ decide LockAction.trigger_lock lock_price
      → P s
      → P (triggered_at current_price lock_price (with_lock_status ProfitLockStatus.triggered s))

pub executing_status :
    (s : ProfitLockState) (b : Bool)
    → b && is_executing s.status ≡ true
    → is_monitoring s.status ≡ false
executing_status s b h = ground arith

pub write_lem :
    (P : ProfitLockState → Type 0) (id : ℕ) (f : ProfitLockState → ProfitLockState)
    (s : ProfitLockState) (e : ProfitLockEngine)
    → lookup id e.store.states ≡ some s
    → P (f s)
    → Holds P id (write id f e).1
unfolding write State.change
write_lem P id f s e found h =
    rw (found, State.change) (subst (Meets P) (sym (lookup-insert_self id (f s) e.store.states)) h)

module _ (divide : Division) (P : ProfitLockState → Type 0) (kept : IsKept divide P) (id : ℕ) where
  pub write_keeps :
      (f : ProfitLockState → ProfitLockState) (e : ProfitLockEngine)
      → ((t : ProfitLockState) → P t → P (f t))
      → Holds P id e
      → Holds P id (write id f e).1
  write_keeps f e k h = elim (Option-cases (lookup id e.store.states)) [
    | inl unknown ↦ elim (subst (Meets P) unknown h) [ ]
    | inr (s, found) ↦ write_lem P id f s e found (k s (subst (Meets P) found h))
  ]

  pub move_keeps :
      (status : ProfitLockStatus) (s : ProfitLockState) (e : ProfitLockEngine)
      → lookup id e.store.states ≡ some s
      → is_monitoring status ≡ false
      → is_monitoring s.status ≡ false
      → P s
      → Holds P id (move id status e).1
  move_keeps status s e found m n h =
      elim (Result-cases (validate_lock_transition s.status status)) [
        | inl (u, allowed) ↦ rw (move_ok id status s e found allowed) (
            subst (Meets P) (sym (lookup-insert_self id (with_lock_status status s) e.store.states))
              (kept.moved status s m n h))
        | inr (x, refused) ↦
            rw (move_err id status s x e found refused) (subst (Meets P) (sym found) h)
      ]

  pub tell_keeps :
      (f : ProfitLockMetrics → ProfitLockMetrics) (e : ProfitLockEngine)
      → Holds P id e
      → Holds P id (tell id f e).1
  unfolding tell State.count
  tell_keeps f e h = h

  answered_keeps :
      (r : Result Failure OrderResult) (s : ProfitLockState) (e : ProfitLockEngine)
      → lookup id e.store.states ≡ some s
      → is_monitoring s.status ≡ false
      → P s
      → Holds P id (lock_answered id r e).1
  unfolding lock_answered
  answered_keeps (ok result) s e found m h =
      bind_keeps (Holds P id) (write id (with_order result.order_id) e) (λ u. pure true) e
        (write_lem P id (with_order result.order_id) s e found (kept.with_id result.order_id s h))
        (λ u eq.
          write_lem P id (with_order result.order_id) s e found (kept.with_id result.order_id s h))
  answered_keeps (err x) s e found m h =
      let moved = move_keeps ProfitLockStatus.error s e found refl m h in
      bind_keeps (Holds P id) (move id ProfitLockStatus.error e)
        (λ u. tell id record_error >> raise (LockFailure.lock_order_failed x)) e moved
        (λ u eq.
          let counted = tell_keeps record_error (move id ProfitLockStatus.error e).1 moved in
          bind_keeps (Holds P id) (tell id record_error (move id ProfitLockStatus.error e).1)
            (λ v. raise (LockFailure.lock_order_failed x)) e counted (λ v eq'. counted))

  sent_keeps :
      (g : Given) (request : OrderRequest) (s : ProfitLockState) (e : ProfitLockEngine)
      → lookup id e.store.states ≡ some s
      → is_monitoring s.status ≡ false
      → P s
      → Holds P id (send_lock_order g id request e).1
  unfolding send_lock_order
  sent_keeps g request s e found m h =
      answered_keeps (Engine.place_order g.policy request g.local_id e.exec).0 s
        (record e { exec = (Engine.place_order g.policy request g.local_id e.exec).1 }) found m h

  pub place_keeps :
      (g : Given) (lock_price : Decimal) (s : ProfitLockState) (e : ProfitLockEngine)
      → lookup id e.store.states ≡ some s
      → P s
      → Holds P id (place_lock_order g id lock_price e).1
  place_keeps g lock_price s e found h =
      elim (Result-cases (validate_lock_transition s.status ProfitLockStatus.executing)) [
        | inl (u, allowed) ↦
            let past : is_monitoring s.status ≡ false =
              rw (executing_from_triggered s.status allowed) refl in
            rw (place_lock_order_ok g id lock_price s e found allowed) (
              sent_keeps g (lock_request g s lock_price)
                (with_lock_status ProfitLockStatus.executing s)
                (in_status id ProfitLockStatus.executing s e)
                (lookup-insert_self id (with_lock_status ProfitLockStatus.executing s)
                  e.store.states)
                refl (kept.moved ProfitLockStatus.executing s refl past h))
        | inr (x, refused) ↦
            rw (place_lock_order_err g id lock_price s x e found refused)
              (subst (Meets P) (sym found) h)
      ]
