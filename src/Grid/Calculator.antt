-- ===== src/Grid/Calculator.antt =====
-- backend/engine/grid/calculator.py: the levels of a grid. The division of decimals, which rounds to
-- the context's precision, is an argument.
pub mod Fresh
use utos.Prelude.{
  ℕ, zero, suc, ◌+◌, ◌==◌, ltb, Bool, true, false, not, ◌&&◌, Option, none, some, List, [], ◌∷◌,
  Result, ok, err, if◌then◌else◌,
}
use utos.Prelude.Int.{pos}
use utos.Prelude.Decimal.{Decimal, whole, le_dec, lt_dec, add_dec, sub_dec, mul_dec}
use utos.Grid.Models.{LevelStatus, GridLevel, GridFailure, bad_parameters}
use utos.ProfitLock.Policy.{Division}

-- TP_MULTIPLIER, 2.5
abbrev tp_multiplier : Decimal
tp_multiplier = record { coefficient = pos 25; places = 1 }

unfoldable pub validate_parameters : Decimal → Decimal → ℕ → Decimal → Result GridFailure (Unit {0})
validate_parameters upper_price lower_price grid_count investment_per_grid =
    if le_dec upper_price lower_price
    then err bad_parameters
    else if ltb grid_count 2
    then err bad_parameters
    else if le_dec investment_per_grid (whole 0)
    then err bad_parameters
    else ok tt

unfoldable pub calculate_spacing : Division → Decimal → Decimal → ℕ → Decimal
calculate_spacing divide upper_price lower_price grid_count =
    divide (sub_dec upper_price lower_price) (whole grid_count)

abbrev pub at_most : Decimal → Decimal → Decimal
at_most upper_price sell_price = if lt_dec upper_price sell_price then upper_price else sell_price

-- investment / buy_price if buy_price > 0 else 0
abbrev pub quantity_at : Division → Decimal → Decimal → Decimal
quantity_at divide investment buy_price =
    if lt_dec (whole 0) buy_price then divide investment buy_price else whole 0

-- a level as the calculator makes it
abbrev pub fresh_level : ℕ → Decimal → Decimal → Decimal → GridLevel
fresh_level level buy_price sell_price quantity = record {
  level = level;
  buy_price = buy_price;
  sell_price = sell_price;
  quantity = quantity;
  buy_order_id = none;
  sell_order_id = none;
  status = LevelStatus.waiting;
}

abbrev pub even_level : Division → Decimal → Decimal → Decimal → Decimal → ℕ → GridLevel
even_level divide upper_price lower_price spacing investment_per_grid i =
    let buy_price = add_dec lower_price (mul_dec spacing (whole i)) in
    fresh_level i buy_price
      (at_most upper_price (add_dec buy_price (mul_dec spacing tp_multiplier)))
      (quantity_at divide investment_per_grid buy_price)

-- the loop over the next `n` levels
unfoldable pub even_levels :
    Division → Decimal → Decimal → Decimal → Decimal → ℕ → ℕ → List GridLevel
even_levels divide upper_price lower_price spacing investment_per_grid i zero = []
even_levels divide upper_price lower_price spacing investment_per_grid i (suc n) =
    even_level divide upper_price lower_price spacing investment_per_grid i
    ∷ even_levels divide upper_price lower_price spacing investment_per_grid (i + 1) n

abbrev pub GridData : Type 0
GridData = List GridLevel × Decimal

abbrev pub when_valid :
    Result GridFailure (Unit {0}) → List GridLevel → Result GridFailure (List GridLevel)
when_valid (err x) levels = err x
when_valid (ok u) levels = ok levels

unfoldable pub calculate_levels :
    Division → Decimal → Decimal → ℕ → Decimal → Result GridFailure (List GridLevel)
calculate_levels divide upper_price lower_price grid_count investment_per_grid =
    when_valid (validate_parameters upper_price lower_price grid_count investment_per_grid) (
      even_levels divide upper_price lower_price
        (calculate_spacing divide upper_price lower_price grid_count) investment_per_grid 0
        grid_count)

-- the dict of levels and spacing
abbrev pub with_spacing :
    Decimal → Result GridFailure (List GridLevel) → Result GridFailure GridData
with_spacing spacing (err x) = err x
with_spacing spacing (ok levels) = ok (levels, spacing)

unfoldable pub calculate_grid_state_data :
    Division → Decimal → Decimal → ℕ → Decimal → Result GridFailure GridData
calculate_grid_state_data divide upper_price lower_price grid_count investment_per_grid =
    with_spacing (calculate_spacing divide upper_price lower_price grid_count)
      (calculate_levels divide upper_price lower_price grid_count investment_per_grid)

pub record AveragingStep : Type 0 where
  pub step_number : ℕ
  pub drop_rate : Decimal
  pub multiple_buy_amount : Option Decimal
  pub take_profit : Decimal

abbrev or_one : Option Decimal → Decimal
or_one none = whole 1
or_one (some multiplier) = multiplier

-- 1 - rate / 100
abbrev pub lowered_by : Division → Decimal → Decimal
lowered_by divide rate = sub_dec (whole 1) (divide rate (whole 100))

abbrev raised_by : Division → Decimal → Decimal
raised_by divide rate = add_dec (whole 1) (divide rate (whole 100))

abbrev pub step_level : Division → Decimal → AveragingStep → Decimal → GridLevel
step_level divide investment_per_grid step buy_price =
    fresh_level step.step_number buy_price (mul_dec buy_price (raised_by divide step.take_profit))
      (quantity_at divide (mul_dec investment_per_grid (or_one step.multiple_buy_amount)) buy_price)

abbrev pub and_level :
    GridLevel → Result GridFailure (List GridLevel) → Result GridFailure (List GridLevel)
and_level lv (err x) = err x
and_level lv (ok lvs) = ok (lv ∷ lvs)

-- the loop over the steps, with the buy price of the level before
unfoldable pub step_levels :
    Division
    → Decimal
    → Decimal
    → Decimal
    → List AveragingStep
    → Result GridFailure (List GridLevel)
step_levels divide start_price investment_per_grid prev_buy_price [] = ok []
step_levels divide start_price investment_per_grid prev_buy_price (step ∷ steps) =
    let dropped = mul_dec prev_buy_price (lowered_by divide step.drop_rate) in
    let buy_price = if step.step_number == 0 then start_price else dropped in
    let levels =
      and_level (step_level divide investment_per_grid step buy_price)
        (step_levels divide start_price investment_per_grid buy_price steps) in
    if not (step.step_number == 0) && le_dec dropped (whole 0) then err bad_parameters else levels

unfoldable pub calculate_levels_with_averaging :
    Division → Decimal → Decimal → List AveragingStep → Result GridFailure (List GridLevel)
calculate_levels_with_averaging divide start_price investment_per_grid [] = err bad_parameters
calculate_levels_with_averaging divide start_price investment_per_grid (step ∷ steps) =
    if le_dec investment_per_grid (whole 0)
    then err bad_parameters
    else if le_dec start_price (whole 0)
    then err bad_parameters
    else step_levels divide start_price investment_per_grid start_price (step ∷ steps)

unfoldable pub calculate_grid_state_data_with_averaging :
    Division → Decimal → Decimal → List AveragingStep → Result GridFailure GridData
calculate_grid_state_data_with_averaging divide start_price investment_per_grid averaging_steps =
    with_spacing (whole 0)
      (calculate_levels_with_averaging divide start_price investment_per_grid averaging_steps)
