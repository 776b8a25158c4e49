-- ===== src/Grid/Breaker.antt =====
-- backend/engine/grid/circuit_breaker.py. The current UTC day and the current time are arguments,
-- and so is the division of decimals. The configurations of the indicators are not modelled.
pub mod Bottom
use utos.Prelude.{
  ℕ, ◌==◌, Bool, true, false, not, ◌&&◌, ◌||◌, Option, none, some, if◌then◌else◌, is_some,
}
use utos.Prelude.Int.{pos_part, neg_part}
use utos.Prelude.Decimal.{Decimal, whole, le_dec, lt_dec, add_dec, sub_dec, mul_dec}
use utos.ProfitLock.Policy.{Division}

pub data BreakerResumeMode : Type 0 where
  ta_confirm widen_step trailing_buy : BreakerResumeMode

pub record CircuitBreakerState : Type 0 where
  pub critical_threshold : Decimal
  pub min_continuation_rate : Decimal
  pub resume_mode : BreakerResumeMode
  pub recovery_pct : Decimal
  pub widen_multiplier : Decimal
  pub day_open_price : Option Decimal
  pub triggered : Bool
  pub trigger_date : Option ℕ
  pub trigger_price : Option Decimal
  pub triggered_at : Option ℕ
  pub bottom_price : Option Decimal

abbrev or_price : Option Decimal → Decimal → Option Decimal
or_price none price = some price
or_price (some day_open) price = some day_open

-- the first price update after the configuration
abbrev pub seeded : ℕ → Decimal → CircuitBreakerState → CircuitBreakerState
seeded today current_price b = record b {
  trigger_date = some today;
  day_open_price = or_price b.day_open_price current_price;
}

abbrev pub rolled_over : ℕ → Decimal → CircuitBreakerState → CircuitBreakerState
rolled_over today current_price b = record b {
  triggered = false;
  trigger_date = some today;
  day_open_price = some current_price;
  bottom_price = none;
}

abbrev on_day : Option ℕ → ℕ → Decimal → CircuitBreakerState → CircuitBreakerState
on_day none today current_price b = seeded today current_price b
on_day (some day) today current_price b =
    if day == today then b else rolled_over today current_price b

unfoldable pub check_new_day : ℕ → Decimal → CircuitBreakerState → CircuitBreakerState
check_new_day today current_price b = on_day b.trigger_date today current_price b

abbrev drop_from : Division → Option Decimal → Decimal → Decimal
drop_from divide none current_price = whole 0
drop_from divide (some day_open) current_price =
    if le_dec day_open (whole 0)
    then whole 0
    else mul_dec (divide (sub_dec current_price day_open) day_open) (whole 100)

unfoldable pub intraday_drop_pct : Division → Decimal → CircuitBreakerState → Decimal
intraday_drop_pct divide current_price b = drop_from divide b.day_open_price current_price

unfoldable pub should_trigger : Division → Decimal → CircuitBreakerState → Bool
unfolding intraday_drop_pct
should_trigger divide current_price b =
    not b.triggered
    && le_dec (intraday_drop_pct divide current_price b) (sub_dec (whole 0) b.critical_threshold)

abbrev pub lowered : Decimal → Option Decimal → Option Decimal
lowered current_price none = some current_price
lowered current_price (some bottom) =
    if lt_dec current_price bottom then some current_price else some bottom

unfoldable pub update_bottom : Decimal → CircuitBreakerState → CircuitBreakerState
update_bottom current_price b =
    if b.triggered then record b { bottom_price = lowered current_price b.bottom_price } else b

abbrev recovered : Division → Decimal → Decimal → Option Decimal → Bool
recovered divide current_price recovery_pct none = false
recovered divide current_price recovery_pct (some bottom) =
    not (le_dec bottom (whole 0))
    && le_dec (mul_dec bottom (add_dec (whole 1) (divide recovery_pct (whole 100)))) current_price

unfoldable pub should_resume_trailing : Division → Decimal → CircuitBreakerState → Bool
should_resume_trailing divide current_price b =
    b.triggered && recovered divide current_price b.recovery_pct b.bottom_price

unfoldable pub trigger : ℕ → Decimal → CircuitBreakerState → CircuitBreakerState
trigger now price b = record b {
  triggered = true;
  trigger_price = some price;
  triggered_at = some now;
  bottom_price = some price;
}

unfoldable pub reset : CircuitBreakerState → CircuitBreakerState
reset b = record b { triggered = false }
