-- ===== src/ProfitLock/State/Machine.antt =====
-- What the table of profit lock transitions allows.
use utos.Prelude.{◌≡◌, ok, arith}
use utos.ProfitLock.State.{ProfitLockStatus, validate_lock_transition}

-- Only a triggered lock can start to execute.
pub executing_from_triggered :
    (s : ProfitLockStatus)
    → validate_lock_transition s ProfitLockStatus.executing ≡ ok tt
    → s ≡ ProfitLockStatus.triggered
unfolding validate_lock_transition
executing_from_triggered s e = ground arith
