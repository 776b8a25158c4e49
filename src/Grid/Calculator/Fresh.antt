-- ===== src/Grid/Calculator/Fresh.antt =====
-- The levels of the calculator are fresh: they wait, and hold no order.
use utos.Prelude.{
  ℕ, zero, suc, ◌+◌, ◌==◌, List, [], ◌∷◌, Result, ok, err, All, if◌then◌else◌, if_both, not, ◌&&◌,
}
use utos.Prelude.Decimal.{Decimal, whole, le_dec, mul_dec}
use utos.Grid.Models.{GridLevel, GridFailure, bad_parameters}
use utos.ProfitLock.Policy.{Division}
use utos.Grid.Calculator.{
  AveragingStep, GridData, fresh_level, even_levels, step_levels, step_level, with_spacing,
  calculate_grid_state_data, calculate_grid_state_data_with_averaging, calculate_levels,
  calculate_levels_with_averaging, and_level, lowered_by, when_valid, validate_parameters,
  calculate_spacing,
}

-- the levels of a result, where there is one, satisfy `P`
abbrev AllOk : (GridLevel → Type 0) → Result GridFailure (List GridLevel) → Type 0
AllOk P (err x) = Unit
AllOk P (ok lvs) = All P lvs

abbrev pub DataOk : (GridLevel → Type 0) → Result GridFailure GridData → Type 0
DataOk P (err x) = Unit
DataOk P (ok data_of) = All P data_of.0

-- for every `P` that holds of the fresh levels
module _ (P : GridLevel → Type 0)
    (fresh : (n : ℕ) (buy sell quantity : Decimal) → P (fresh_level n buy sell quantity))
    (divide : Division) where
  even_hold :
      (upper lower spacing investment : Decimal) (i n : ℕ)
      → All P (even_levels divide upper lower spacing investment i n)
  unfolding even_levels
  even_hold upper lower spacing investment i zero = tt
  even_hold upper lower spacing investment i (suc n) =
      (fresh _ _ _ _, even_hold upper lower spacing investment (i + 1) n)

  valid_hold :
      (r : Result GridFailure (Unit {0})) (lvs : List GridLevel)
      → All P lvs
      → AllOk P (when_valid r lvs)
  valid_hold (ok u) lvs h = h
  valid_hold (err x) lvs h = tt

  spacing_hold :
      (spacing : Decimal) (r : Result GridFailure (List GridLevel))
      → AllOk P r
      → DataOk P (with_spacing spacing r)
  spacing_hold spacing (ok lvs) h = h
  spacing_hold spacing (err x) h = tt

  and_hold :
      (lv : GridLevel) (r : Result GridFailure (List GridLevel))
      → P lv
      → AllOk P r
      → AllOk P (and_level lv r)
  and_hold lv (ok lvs) h k = (h, k)
  and_hold lv (err x) h k = tt

  step_hold :
      (start investment prev : Decimal) (steps : List AveragingStep)
      → AllOk P (step_levels divide start investment prev steps)
  unfolding step_levels
  step_hold start investment prev [] = tt
  step_hold start investment prev (step ∷ steps) =
      let dropped = mul_dec prev (lowered_by divide step.drop_rate) in
      let buy = if step.step_number == 0 then start else dropped in
      if_both (AllOk P) (not (step.step_number == 0) && le_dec dropped (whole 0))
        (err bad_parameters)
        (and_level (step_level divide investment step buy)
          (step_levels divide start investment buy steps))
        tt
        (and_hold (step_level divide investment step buy)
          (step_levels divide start investment buy steps) (fresh _ _ _ _)
          (step_hold start investment buy steps))

  averaging_hold :
      (start investment : Decimal) (steps : List AveragingStep)
      → AllOk P (calculate_levels_with_averaging divide start investment steps)
  unfolding calculate_levels_with_averaging
  averaging_hold start investment [] = tt
  averaging_hold start investment (step ∷ steps) =
      let levels = step_levels divide start investment start (step ∷ steps) in
      if_both (AllOk P) (le_dec investment (whole 0)) (err bad_parameters)
        (if le_dec start (whole 0) then err bad_parameters else levels) tt
        (if_both (AllOk P) (le_dec start (whole 0)) (err bad_parameters) levels tt
          (step_hold start investment start (step ∷ steps)))

  pub even_data_hold :
      (upper lower : Decimal) (n : ℕ) (investment : Decimal)
      → DataOk P (calculate_grid_state_data divide upper lower n investment)
  unfolding calculate_grid_state_data calculate_levels
  even_data_hold upper lower n investment =
      let spacing = calculate_spacing divide upper lower n in
      let levels = even_levels divide upper lower spacing investment 0 n in
      spacing_hold spacing (when_valid (validate_parameters upper lower n investment) levels) (
        valid_hold (validate_parameters upper lower n investment) levels
          (even_hold upper lower spacing investment 0 n))

  pub averaging_data_hold :
      (start investment : Decimal) (steps : List AveragingStep)
      → DataOk P (calculate_grid_state_data_with_averaging divide start investment steps)
  unfolding calculate_grid_state_data_with_averaging
  averaging_data_hold start investment steps =
      spacing_hold (whole 0) (calculate_levels_with_averaging divide start investment steps)
        (averaging_hold start investment steps)
