-- ===== src/Execution/OrderState.antt =====
-- backend/engine/execution/order_state.py: the transitions of an order.
pub mod Reach
use utos.Prelude.{ℕ, ◌==◌, Bool, true, false, List, [], ◌∷◌, ◌||◌, Result, ok, err, if◌then◌else◌}
use utos.Execution.Models.{Status, Failure}

-- the rows of TRANSITIONS
unfoldable pub transitions : Status → List Status
transitions Status.pending = Status.submitting ∷ []
transitions Status.submitting =
    Status.opened ∷ Status.partially_filled ∷ Status.filled ∷ Status.rejected ∷ Status.failed ∷ []
transitions Status.opened =
    Status.partially_filled ∷ Status.filled ∷ Status.cancelling ∷ Status.cancelled ∷ []
transitions Status.partially_filled =
    Status.partially_filled ∷ Status.filled ∷ Status.cancelling ∷ Status.cancelled ∷ []
transitions Status.cancelling = Status.cancelled ∷ Status.filled ∷ Status.partially_filled ∷ []
transitions Status.failed = Status.submitting ∷ []
transitions Status.filled = []
transitions Status.cancelled = []
transitions Status.rejected = []

-- equality of the enum's members, by their places in it
abbrev ordinal : Status → ℕ
ordinal Status.pending = 0
ordinal Status.submitting = 1
ordinal Status.opened = 2
ordinal Status.partially_filled = 3
ordinal Status.filled = 4
ordinal Status.cancelling = 5
ordinal Status.cancelled = 6
ordinal Status.rejected = 7
ordinal Status.failed = 8

unfoldable pub same : Status → Status → Bool
same a b = ordinal a == ordinal b

unfoldable pub member : Status → List Status → Bool
unfolding same
member s [] = false
member s (t ∷ ts) = same t s || member s ts

unfoldable pub validate_transition : Status → Status → Result Failure (Unit {0})
unfolding transitions member
validate_transition current target =
    if member target (transitions current)
    then ok tt
    else err (Failure.invalid_transition current target)

unfoldable pub is_terminal : Status → Bool
is_terminal Status.filled = true
is_terminal Status.cancelled = true
is_terminal Status.rejected = true
is_terminal _ = false
