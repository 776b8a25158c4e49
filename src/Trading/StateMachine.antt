-- ===== src/Trading/StateMachine.antt =====
-- backend/engine/trading/state_machine.py: which changes of a process's status are allowed.
pub mod Lifecycle
use utos.Prelude.{ℕ, ◌==◌, Bool, true, false, List, [], ◌∷◌, ◌||◌, Result, ok, err, if◌then◌else◌}

-- TradingInstanceStatus
pub data TradingInstanceStatus : Type 0 where
  created ready running paused stopping stopped error recovering recovered : TradingInstanceStatus

-- the two messages of InvalidStateTransition
pub data TransitionFault : Type 0 where
  already_in_state : TradingInstanceStatus → TransitionFault
  cannot_transition : TradingInstanceStatus → TradingInstanceStatus → TransitionFault

abbrev pub status_ordinal : TradingInstanceStatus → ℕ
status_ordinal TradingInstanceStatus.created = 0
status_ordinal TradingInstanceStatus.ready = 1
status_ordinal TradingInstanceStatus.running = 2
status_ordinal TradingInstanceStatus.paused = 3
status_ordinal TradingInstanceStatus.stopping = 4
status_ordinal TradingInstanceStatus.stopped = 5
status_ordinal TradingInstanceStatus.error = 6
status_ordinal TradingInstanceStatus.recovering = 7
status_ordinal TradingInstanceStatus.recovered = 8

-- TRANSITIONS
unfoldable pub process_transitions : TradingInstanceStatus → List TradingInstanceStatus
process_transitions TradingInstanceStatus.created = TradingInstanceStatus.ready ∷ []
process_transitions TradingInstanceStatus.ready = TradingInstanceStatus.running ∷ []
process_transitions TradingInstanceStatus.running =
    TradingInstanceStatus.paused ∷ TradingInstanceStatus.stopping ∷ TradingInstanceStatus.recovering
    ∷ TradingInstanceStatus.error ∷ []
process_transitions TradingInstanceStatus.paused =
    TradingInstanceStatus.running ∷ TradingInstanceStatus.recovering ∷ TradingInstanceStatus.error
    ∷ []
process_transitions TradingInstanceStatus.stopping =
    TradingInstanceStatus.stopped ∷ TradingInstanceStatus.error ∷ []
process_transitions TradingInstanceStatus.stopped = []
process_transitions TradingInstanceStatus.error = []
process_transitions TradingInstanceStatus.recovering =
    TradingInstanceStatus.recovered ∷ TradingInstanceStatus.error ∷ []
process_transitions TradingInstanceStatus.recovered =
    TradingInstanceStatus.running ∷ TradingInstanceStatus.paused ∷ TradingInstanceStatus.error ∷ []

abbrev pub same_status : TradingInstanceStatus → TradingInstanceStatus → Bool
same_status p q = status_ordinal p == status_ordinal q

unfoldable pub status_member : TradingInstanceStatus → List TradingInstanceStatus → Bool
status_member p [] = false
status_member p (q ∷ qs) = same_status q p || status_member p qs

unfoldable pub validate_process_transition :
    TradingInstanceStatus → TradingInstanceStatus → Result TransitionFault (Unit {0})
unfolding process_transitions status_member
validate_process_transition current target =
    if same_status current target
    then err (already_in_state current)
    else (if status_member target (process_transitions current)
        then ok tt
        else err (cannot_transition current target))

unfoldable pub can_transition : TradingInstanceStatus → TradingInstanceStatus → Bool
unfolding process_transitions status_member
can_transition current target =
    if same_status current target then false else status_member target (process_transitions current)
