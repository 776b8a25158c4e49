-- ===== src/Trading/StateMachine/Lifecycle.antt =====
-- Lifecycles of a process.
use utos.Prelude.{◌≡◌, ◌≢◌, ◌↔◌, subst, refl, Bool, true, false, ok, arith}
use utos.Trading.StateMachine.{TradingInstanceStatus, validate_process_transition, can_transition}

-- `can_transition` answers yes exactly when `validate_transition` does not raise.
pub can_transition_iff :
    (p q : TradingInstanceStatus)
    → (can_transition p q ≡ true) ↔ (validate_process_transition p q ≡ ok tt)
unfolding can_transition validate_process_transition
can_transition_iff p q = ground arith

pub data Lifecycle (p : TradingInstanceStatus) : TradingInstanceStatus → Type 0 where
  here : Lifecycle p p
  next :
      {q : TradingInstanceStatus} (r : TradingInstanceStatus)
      → Lifecycle p q
      → validate_process_transition q r ≡ ok tt
      → Lifecycle p r

abbrev pub is_final : TradingInstanceStatus → Bool
is_final TradingInstanceStatus.stopped = true
is_final TradingInstanceStatus.error = true
is_final _ = false

final_stuck :
    (p q : TradingInstanceStatus) → is_final p ≡ true → validate_process_transition p q ≢ ok tt
unfolding validate_process_transition
final_stuck p q h e = ground arith

-- A process that is stopped or failed keeps that status for good.
pub final_absorbs : {p q : TradingInstanceStatus} → Lifecycle p q → is_final p ≡ true → q ≡ p
final_absorbs here h = refl
final_absorbs (next {q = q} r past e) h = absurd (final_stuck q r (rw (final_absorbs past h) h) e)

from_stopping :
    (p q : TradingInstanceStatus)
    → validate_process_transition p q ≡ ok tt
    → q ≡ TradingInstanceStatus.stopped
    → p ≡ TradingInstanceStatus.stopping
unfolding validate_process_transition
from_stopping p q e h = ground arith

from_running :
    (p q : TradingInstanceStatus)
    → validate_process_transition p q ≡ ok tt
    → q ≡ TradingInstanceStatus.stopping
    → p ≡ TradingInstanceStatus.running
unfolding validate_process_transition
from_running p q e h = ground arith

-- A lifecycle that ends in the stopped status, and neither starts there nor in stopping, has
-- passed through running just before it stopped.
pub stops_from_running :
    {p q : TradingInstanceStatus}
    → Lifecycle p q
    → q ≡ TradingInstanceStatus.stopped
    → p ≢ TradingInstanceStatus.stopped
    → p ≢ TradingInstanceStatus.stopping
    → Lifecycle p TradingInstanceStatus.running
stops_from_running here e h k = absurd (h e)
stops_from_running (next r here step) e h k = absurd (k (from_stopping _ r step e))
stops_from_running (next r (next {q = q} t past before) step) e h k =
    subst (Lifecycle _) (from_running q t before (from_stopping t r step e)) past
