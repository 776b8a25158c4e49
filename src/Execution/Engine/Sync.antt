-- ===== src/Execution/Engine/Sync.antt =====
-- Synchronising and cancelling a tracked order: what is stored, and when an exception leaves the
-- tracker as it was.
use utos.Prelude.{
  ℕ, ◌≡◌, refl, true, some, Result, ok, err, arith, length, catch, Option-cases, ◌⊎◌, inl, inr,
}
use utos.Prelude.Text.{upper}
use utos.Prelude.Dict.{lookup, number_key, pair_key}
use utos.Execution.Models.{OrderResult, Status, Failure}
use utos.Execution.OrderState.{validate_transition, is_terminal}
use utos.Execution.Tracker
use utos.Execution.Tracker.{Ref, map_exchange_status}
use utos.Execution.Executor
use utos.Execution.Executor.{Adapter, World}
use utos.Execution.Engine.{
  sync_order, sync_from, cancel_order, cancel_live, transition, refresh, get_adapter,
  cancel_accepted, cancel_refused,
}

-- What the exchange answers, now, about the order behind a reference.
abbrev pub exchange_view : Adapter → Ref → World → Result Failure OrderResult
exchange_view a ref w =
    let r = (w.tracker.objects ref).result in
    a.get_order (length w.log) (upper r.symbol) r.exchange_order_id

module _ (account order_id : ℕ) (ref : Ref) (a : Adapter) (w : World)
    (filed : Tracker.get account order_id w.tracker ≡ some ref)
    (known : lookup account w.adapters ≡ some a) (r : OrderResult)
    (answer : exchange_view a ref w ≡ ok r) where
  -- When the status that the exchange reports may follow the tracked one, `sync_order` returns the
  -- answer of the exchange and stores both.
  pub sync_order_stores :
      validate_transition (w.tracker.objects ref).status (map_exchange_status r.status) ≡ ok tt
      → let (result, w') = sync_order account order_id w in
        (result ≡ ok r)
        × ((w'.tracker.objects ref).result ≡ r)
        × ((w'.tracker.objects ref).status ≡ map_exchange_status r.status)
  unfolding sync_order sync_from get_adapter transition refresh Executor.get_order Tracker.get
      Tracker.set_status Tracker.update
  sync_order_stores allowed = ground arith

  -- When it may not, `sync_order` raises and the tracker stays as it was.
  pub sync_order_refuses :
      (e : Failure)
      → validate_transition (w.tracker.objects ref).status (map_exchange_status r.status) ≡ err e
      → let (result, w') = sync_order account order_id w in
        (result ≡ err e) × (w'.tracker ≡ w.tracker)
  unfolding sync_order sync_from get_adapter transition Executor.get_order
  sync_order_refuses e refused = ground arith

-- An open order that the exchange still reports as open cannot be synchronised: the call raises, and
-- the fresh answer is dropped.
pub sync_open_raises :
    (account order_id : ℕ) (ref : Ref) (a : Adapter) (w : World) (r : OrderResult)
    → Tracker.get account order_id w.tracker ≡ some ref
    → lookup account w.adapters ≡ some a
    → exchange_view a ref w ≡ ok r
    → (w.tracker.objects ref).status ≡ Status.opened
    → map_exchange_status r.status ≡ Status.opened
    → let (result, w') = sync_order account order_id w in
      (result ≡ err (Failure.invalid_transition Status.opened Status.opened))
      × (w'.tracker ≡ w.tracker)
sync_open_raises account order_id ref a w r filed known answer s t =
    sync_order_refuses account order_id ref a w filed known r answer
      (Failure.invalid_transition Status.opened Status.opened)
      (rw (s, t) (unfold validate_transition in refl))

-- What the table lets follow a cancellation in progress.
after_cancelling :
    (s : Status)
    → validate_transition Status.cancelling s ≡ ok tt
    → (is_terminal s ≡ true) ⊎ (s ≡ Status.partially_filled)
unfolding validate_transition is_terminal
after_cancelling s h = ground arith

sync_from-cancelling :
    (account order_id : ℕ) (ref : Ref) (a : Adapter) (w : World) (r : OrderResult)
    → Tracker.get account order_id w.tracker ≡ some ref
    → (w.tracker.objects ref).status ≡ Status.cancelling
    → (sync_from account order_id ref a w).0 ≡ ok r
    → validate_transition Status.cancelling
        ((sync_from account order_id ref a w).1.tracker.objects ref).status
      ≡ ok tt
unfolding sync_from transition refresh Executor.get_order Tracker.get Tracker.set_status
    Tracker.update
sync_from-cancelling account order_id ref a w r filed s e = ground arith

module _ (account order_id : ℕ) (ref : Ref) (a : Adapter) (v : World)
    (filed : Tracker.get account order_id v.tracker ≡ some ref)
    (status : (v.tracker.objects ref).status ≡ Status.cancelling) where
  accepted_ok :
      (r : OrderResult)
      → (cancel_accepted account order_id ref a v).0 ≡ ok r
      → ((cancel_accepted account order_id ref a v).1.tracker.objects ref).status ≡ Status.cancelled
  unfolding cancel_accepted transition refresh Executor.cancel Tracker.get Tracker.set_status
      Tracker.update validate_transition
  accepted_ok r e = ground arith

  accepted_err :
      (x : Failure)
      → (cancel_accepted account order_id ref a v).0 ≡ err x
      → (cancel_accepted account order_id ref a v).1.tracker ≡ v.tracker
  unfolding cancel_accepted transition refresh Executor.cancel validate_transition
  accepted_err x e = ground arith

  handled_settles :
      (x : Failure) (u : World) (r : OrderResult)
      → u.tracker ≡ v.tracker
      → (cancel_refused account order_id ref a x u).0 ≡ ok r
      → validate_transition Status.cancelling
          ((cancel_refused account order_id ref a x u).1.tracker.objects ref).status
        ≡ ok tt
  unfolding cancel_refused
  handled_settles x u r same e =
      ground
        (arith, sync_from-cancelling account order_id ref a u r (rw same filed) (rw same status))

  caught_settles :
      (s : Result Failure OrderResult × World) (r : OrderResult)
      → ((q : OrderResult) → s.0 ≡ ok q → (s.1.tracker.objects ref).status ≡ Status.cancelled)
      → ((x : Failure) → s.0 ≡ err x → s.1.tracker ≡ v.tracker)
      → (catch (λ _. s) (cancel_refused account order_id ref a) v).0 ≡ ok r
      → validate_transition Status.cancelling
          ((catch (λ _. s) (cancel_refused account order_id ref a) v).1.tracker.objects ref).status
        ≡ ok tt
  caught_settles (ok q, u) r good bad e = rw (good q refl) (unfold validate_transition in refl)
  caught_settles (err x, u) r good bad e = handled_settles x u r (bad x refl) e

  cancel_body_settles :
      (r : OrderResult)
      → (catch (cancel_accepted account order_id ref a) (cancel_refused account order_id ref a) v).0
        ≡ ok r
      → validate_transition Status.cancelling
          ((catch
              (cancel_accepted account order_id ref a)
              (cancel_refused account order_id ref a)
              v).1.tracker.objects
            ref).status
        ≡ ok tt
  cancel_body_settles r =
      caught_settles (cancel_accepted account order_id ref a v) r accepted_ok accepted_err

abbrev cancelling : Ref → World → World
cancelling ref w = record w { tracker = Tracker.set_status ref Status.cancelling w.clock w.tracker }

cancelling_status :
    (ref : Ref) (w : World) → ((cancelling ref w).tracker.objects ref).status ≡ Status.cancelling
unfolding Tracker.set_status
cancelling_status ref w = ground arith

cancel_live_body :
    (account order_id : ℕ) (ref : Ref) (a : Adapter) (w : World)
    → lookup account w.adapters ≡ some a
    → validate_transition (w.tracker.objects ref).status Status.cancelling ≡ ok tt
    → cancel_live account order_id ref w
      ≡ catch
          (cancel_accepted account order_id ref a)
          (cancel_refused account order_id ref a)
          (cancelling ref w)
unfolding cancel_live get_adapter transition
cancel_live_body account order_id ref a w known allowed = ground arith

cancel_live_ok :
    (account order_id : ℕ) (ref : Ref) (w : World) (r : OrderResult)
    → (cancel_live account order_id ref w).0 ≡ ok r
    → (a : Adapter) × (lookup account w.adapters ≡ some a)
      × (validate_transition (w.tracker.objects ref).status Status.cancelling ≡ ok tt)
unfolding cancel_live get_adapter transition
cancel_live_ok account order_id ref w r e = elim (Option-cases (lookup account w.adapters)) [
  | inl missing ↦ absurd (ground arith)
  | inr (a, known) ↦ (a, known, ground arith)
]

cancel_live_settles :
    (account order_id : ℕ) (ref : Ref) (w : World) (r : OrderResult)
    → Tracker.get account order_id w.tracker ≡ some ref
    → (cancel_live account order_id ref w).0 ≡ ok r
    → validate_transition Status.cancelling
        ((cancel_live account order_id ref w).1.tracker.objects ref).status
      ≡ ok tt
unfolding Tracker.get Tracker.set_status
cancel_live_settles account order_id ref w r filed e =
    let (a, known, allowed) = cancel_live_ok account order_id ref w r e in
    let body = cancel_live_body account order_id ref a w known allowed in
    rw body (
      cancel_body_settles account order_id ref a (cancelling ref w) filed (cancelling_status ref w)
        r (rw body at e))

-- A cancellation that the exchange accepts leaves the order cancelled; with a cancellation that the
-- exchange refuses, the order takes the status that the exchange reports. In both cases a returned
-- result means that the order is no longer open, pending or being cancelled.
pub cancel_order_settles :
    (account order_id : ℕ) (ref : Ref) (w : World) (r : OrderResult)
    → Tracker.get account order_id w.tracker ≡ some ref
    → (cancel_order account order_id w).0 ≡ ok r
    → let s = ((cancel_order account order_id w).1.tracker.objects ref).status in
      (is_terminal s ≡ true) ⊎ (s ≡ Status.partially_filled)
unfolding cancel_order
cancel_order_settles account order_id ref w r filed e = ground (
  arith,
  cancel_live_settles account order_id ref w r,
  after_cancelling ((cancel_live account order_id ref w).1.tracker.objects ref).status,
)
