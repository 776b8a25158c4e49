-- ===== src/Execution/OrderState/Reach.antt =====
-- What the transition table allows over whole histories of an order.
use utos.Prelude.{true, ◌≡◌, ◌≢◌, refl, ok, arith}
use utos.Execution.Models.{Status}
use utos.Execution.OrderState.{validate_transition, is_terminal}

-- A history of an order: the validator has let every step pass.
pub data History (s : Status) : Status → Type 0 where
  here : History s s
  next : {t : Status} (u : Status) → History s t → validate_transition t u ≡ ok tt → History s u

step_terminal : (s t : Status) → is_terminal s ≡ true → validate_transition s t ≢ ok tt
unfolding validate_transition is_terminal
step_terminal s t h e = ground arith

step_pending : (s : Status) → validate_transition s Status.pending ≢ ok tt
unfolding validate_transition
step_pending s e = ground arith

-- An order that is filled, cancelled or rejected keeps that status in every history.
pub terminal_absorbs : {s t : Status} → History s t → is_terminal s ≡ true → t ≡ s
terminal_absorbs here h = refl
terminal_absorbs (next {t = t} u past e) h =
    absurd (step_terminal t u (rw (terminal_absorbs past h) h) e)

terminal_of_stuck :
    (s : Status) → ((t : Status) → validate_transition s t ≢ ok tt) → is_terminal s ≡ true
unfolding validate_transition is_terminal
terminal_of_stuck Status.pending h = absurd (h Status.submitting refl)
terminal_of_stuck Status.submitting h = absurd (h Status.opened refl)
terminal_of_stuck Status.opened h = absurd (h Status.filled refl)
terminal_of_stuck Status.partially_filled h = absurd (h Status.filled refl)
terminal_of_stuck Status.cancelling h = absurd (h Status.filled refl)
terminal_of_stuck Status.failed h = absurd (h Status.submitting refl)
terminal_of_stuck _ h = refl

-- A status refuses every transition exactly when it is terminal.
pub terminal_iff :
    (s : Status)
    → ((is_terminal s ≡ true → (t : Status) → validate_transition s t ≢ ok tt)
        × (((t : Status) → validate_transition s t ≢ ok tt) → is_terminal s ≡ true))
terminal_iff s = (λ h t. step_terminal s t h, terminal_of_stuck s)

-- No history comes back to pending: only an order that has not moved is pending.
pub pending_is_initial : {s t : Status} → History s t → t ≡ Status.pending → s ≡ Status.pending
pending_is_initial here e = e
pending_is_initial (next {t = t} u past step) e = absurd (step_pending t (rw e at step))

-- From every status there is a history to a terminal one.
pub can_terminate : (s : Status) → (t : Status) × History s t × (is_terminal t ≡ true)
unfolding validate_transition is_terminal
can_terminate Status.pending =
    (Status.filled, next Status.filled (next Status.submitting here refl) refl, refl)
can_terminate Status.submitting = (Status.filled, next Status.filled here refl, refl)
can_terminate Status.opened = (Status.filled, next Status.filled here refl, refl)
can_terminate Status.partially_filled = (Status.filled, next Status.filled here refl, refl)
can_terminate Status.cancelling = (Status.filled, next Status.filled here refl, refl)
can_terminate Status.failed =
    (Status.filled, next Status.filled (next Status.submitting here refl) refl, refl)
can_terminate Status.filled = (Status.filled, here, refl)
can_terminate Status.cancelled = (Status.cancelled, here, refl)
can_terminate Status.rejected = (Status.rejected, here, refl)
