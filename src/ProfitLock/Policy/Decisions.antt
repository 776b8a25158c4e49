-- ===== src/ProfitLock/Policy/Decisions.antt =====
-- What a decision of the policy says of the state it was made for.
use utos.Prelude.{◌≡◌, true, false, ok, arith}
use utos.Prelude.Decimal.{Decimal, whole, le_dec}
use utos.ProfitLock.State.{PositionSide, ProfitLockStatus, ProfitLockState}
use utos.ProfitLock.Policy.{
  Division, ProfitResult, LockAction, calculate, valid_position, evaluate, evaluate_monitoring,
  evaluate_triggered, decide, compute_lock_price, new_highest, raises_lock,
}

pub trigger_from_monitoring :
    (divide : Division) (c l : Decimal) (profit : ProfitResult) (s : ProfitLockState)
    → evaluate divide c profit s ≡ decide LockAction.trigger_lock l
    → s.status ≡ ProfitLockStatus.monitoring
unfolding evaluate evaluate_monitoring evaluate_triggered
trigger_from_monitoring divide c l profit s h = ground arith

pub trigger_price :
    (divide : Division) (c l : Decimal) (profit : ProfitResult) (s : ProfitLockState)
    → evaluate divide c profit s ≡ decide LockAction.trigger_lock l
    → l ≡ compute_lock_price divide (new_highest c s.highest_price) s.trail_percentage
unfolding evaluate evaluate_monitoring evaluate_triggered
trigger_price divide c l profit s h = ground arith

pub update_from_triggered :
    (divide : Division) (c l : Decimal) (profit : ProfitResult) (s : ProfitLockState)
    → evaluate divide c profit s ≡ decide LockAction.update_lock l
    → s.status ≡ ProfitLockStatus.triggered
unfolding evaluate evaluate_monitoring evaluate_triggered
update_from_triggered divide c l profit s h = ground arith

pub update_price :
    (divide : Division) (c l : Decimal) (profit : ProfitResult) (s : ProfitLockState)
    → evaluate divide c profit s ≡ decide LockAction.update_lock l
    → l ≡ compute_lock_price divide (new_highest c s.highest_price) s.trail_percentage
unfolding evaluate evaluate_monitoring evaluate_triggered
update_price divide c l profit s h = ground arith

pub update_raises :
    (divide : Division) (c l : Decimal) (profit : ProfitResult) (s : ProfitLockState)
    → evaluate divide c profit s ≡ decide LockAction.update_lock l
    → raises_lock l s.lock_price ≡ true
unfolding evaluate evaluate_monitoring evaluate_triggered
update_raises divide c l profit s h = ground arith

pub calculate_price :
    (divide : Division) (entry_price c quantity : Decimal) (side : PositionSide)
    (profit : ProfitResult)
    → calculate divide entry_price c quantity side ≡ ok profit
    → le_dec c (whole 0) ≡ false
unfolding calculate valid_position
calculate_price divide entry_price c quantity side profit h = ground arith
