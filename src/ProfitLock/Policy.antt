-- ===== src/ProfitLock/Policy.antt =====
-- backend/engine/profit_lock/policy.py and calculator.py. Decimal's division, which rounds to the
-- context's precision, is an argument: what is proved holds for every rounding.
pub mod Decisions
use utos.Prelude.{
  ℕ, Bool, true, false, not, ◌&&◌, Option, none, some, Result, ok, err, if◌then◌else◌, ◌==◌, ◌+◌,
}
use utos.Prelude.Int.{pos_part, neg_part}
use utos.Prelude.Decimal.{Decimal, whole, le_dec, lt_dec, sub_dec, mul_dec}
use utos.ProfitLock.State.{ProfitLockStatus, ProfitLockState, PositionSide, LockFailure}

abbrev pub Division : Type 0
Division = Decimal → Decimal → Decimal

pub record ProfitResult : Type 0 where
  pub floating_profit : Decimal
  pub profit_percentage : Decimal
  pub is_profitable : Bool
  pub entry_price : Decimal
  pub current_price : Decimal
  pub quantity : Decimal

-- entry_price > 0, current_price > 0 and quantity > 0, in the order of the guards
unfoldable pub valid_position : Decimal → Decimal → Decimal → Result LockFailure (Unit {0})
valid_position entry_price current_price quantity =
    if le_dec entry_price (whole 0)
    then err LockFailure.bad_position
    else if le_dec current_price (whole 0)
    then err LockFailure.bad_position
    else if le_dec quantity (whole 0)
    then err LockFailure.bad_position
    else ok tt

-- the result for a floating profit
unfoldable pub profit_of : Division → Decimal → Decimal → Decimal → Decimal → ProfitResult
profit_of divide entry_price current_price quantity floating_profit = record {
  floating_profit = floating_profit;
  profit_percentage =
      (if lt_dec (whole 0) (mul_dec entry_price quantity)
        then mul_dec (divide floating_profit (mul_dec entry_price quantity)) (whole 100)
        else whole 0);
  is_profitable = lt_dec (whole 0) floating_profit;
  entry_price = entry_price;
  current_price = current_price;
  quantity = quantity;
}

calculate_side :
    Division → Decimal → Decimal → Decimal → PositionSide → Result LockFailure ProfitResult
calculate_side divide entry_price current_price quantity PositionSide.long = ok (
    profit_of divide entry_price current_price quantity
      (mul_dec (sub_dec current_price entry_price) quantity))
calculate_side divide entry_price current_price quantity PositionSide.short = ok (
    profit_of divide entry_price current_price quantity
      (mul_dec (sub_dec entry_price current_price) quantity))
calculate_side divide entry_price current_price quantity PositionSide.other_side =
    err LockFailure.bad_position

calculate_checked :
    Result LockFailure (Unit {0})
    → Division
    → Decimal
    → Decimal
    → Decimal
    → PositionSide
    → Result LockFailure ProfitResult
unfolding calculate_side
calculate_checked (err e) divide entry_price current_price quantity side = err e
calculate_checked (ok _) divide entry_price current_price quantity side =
    calculate_side divide entry_price current_price quantity side

unfoldable pub calculate :
    Division → Decimal → Decimal → Decimal → PositionSide → Result LockFailure ProfitResult
unfolding calculate_checked
calculate divide entry_price current_price quantity side =
    calculate_checked (valid_position entry_price current_price quantity) divide entry_price
      current_price quantity side

pub data LockAction : Type 0 where
  no_action update_lock trigger_lock execute_lock : LockAction

pub record PolicyDecision : Type 0 where
  pub action : LockAction
  pub new_lock_price : Option Decimal

abbrev pub stay : PolicyDecision
stay = record { action = LockAction.no_action; new_lock_price = none }

abbrev pub decide : LockAction → Decimal → PolicyDecision
decide action price = record { action = action; new_lock_price = some price }

-- highest_price * (1 - trail_percentage / 100)
unfoldable pub compute_lock_price : Division → Decimal → Decimal → Decimal
compute_lock_price divide highest_price trail_percentage =
    mul_dec highest_price (sub_dec (whole 1) (divide trail_percentage (whole 100)))

-- new_highest
abbrev pub new_highest : Decimal → Option Decimal → Decimal
new_highest current_price none = current_price
new_highest current_price (some highest) =
    if lt_dec highest current_price then current_price else highest

-- state.highest_price or Decimal("0")
abbrev pub highest_or_zero : Option Decimal → Decimal
highest_or_zero none = whole 0
highest_or_zero (some highest) = highest

-- lock_price is None or new_lock > lock_price
abbrev pub raises_lock : Decimal → Option Decimal → Bool
raises_lock new_lock none = true
raises_lock new_lock (some lock) = lt_dec lock new_lock

-- lock_price is not None and current_price <= lock_price
abbrev pub fallen_to : Decimal → Option Decimal → PolicyDecision
fallen_to current_price none = stay
fallen_to current_price (some lock) =
    if le_dec current_price lock then decide LockAction.execute_lock lock else stay

unfoldable pub evaluate_monitoring : Division → Decimal → Decimal → ProfitLockState → PolicyDecision
evaluate_monitoring divide current_price profit_percentage state =
    if le_dec state.trigger_percentage profit_percentage
    then decide LockAction.trigger_lock (
        compute_lock_price divide (new_highest current_price state.highest_price)
          state.trail_percentage)
    else stay

unfoldable pub evaluate_triggered : Division → Decimal → ProfitLockState → PolicyDecision
evaluate_triggered divide current_price state =
    let highest = new_highest current_price state.highest_price in
    let new_lock = compute_lock_price divide highest state.trail_percentage in
    if lt_dec (highest_or_zero state.highest_price) highest && raises_lock new_lock state.lock_price
    then decide LockAction.update_lock new_lock
    else fallen_to current_price state.lock_price

-- the statuses that the policy acts on
abbrev pub is_watching : ProfitLockStatus → Bool
is_watching ProfitLockStatus.monitoring = true
is_watching ProfitLockStatus.triggered = true
is_watching _ = false

evaluate_status : ProfitLockStatus → Division → Decimal → Decimal → ProfitLockState → PolicyDecision
evaluate_status ProfitLockStatus.monitoring divide current_price profit_percentage state =
    evaluate_monitoring divide current_price profit_percentage state
evaluate_status ProfitLockStatus.triggered divide current_price profit_percentage state =
    evaluate_triggered divide current_price state
evaluate_status _ divide current_price profit_percentage state = stay

-- max_profit_percentage > 0 and profit_percentage >= max_profit_percentage
abbrev pub reaches_cap : Decimal → ProfitLockState → Bool
reaches_cap profit_percentage state =
    lt_dec (whole 0) state.max_profit_percentage
    && le_dec state.max_profit_percentage profit_percentage

unfoldable pub evaluate : Division → Decimal → ProfitResult → ProfitLockState → PolicyDecision
unfolding evaluate_status
evaluate divide current_price profit state =
    if not state.enabled
    then stay
    else if not (is_watching state.status)
    then stay
    else if reaches_cap profit.profit_percentage state
    then decide LockAction.execute_lock current_price
    else evaluate_status state.status divide current_price profit.profit_percentage state
