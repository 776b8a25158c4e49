-- ===== src/Grid/Engine/Setup.antt =====
-- The set-up of a grid and of its breaker in backend/engine/grid/engine.py.
use utos.Prelude.{
  ℕ, false, Option, none, some, List, [], ◌∷◌, Result, ok, err, modify, ◌>>◌, length,
}
use utos.Prelude.Text.{Text}
use utos.Prelude.Decimal.{Decimal, whole}
use utos.Prelude.Dict.{insert, number_key}
use utos.Grid.Models.{GridStatus, GridLevel, GridState, GridFailure}
use utos.Grid.State
use utos.Grid.State.{Store, transition_grid}
use utos.Grid.Breaker.{BreakerResumeMode}
use utos.Grid.Calculator.{
  AveragingStep, GridData, calculate_grid_state_data, calculate_grid_state_data_with_averaging,
}
use utos.ProfitLock.Policy.{Division}
use utos.Grid.Engine.{GridEngine, EngineFault, Action, in_store}

-- data["levels"][-1].buy_price; a result with averaging has a level
abbrev last_buy : Decimal → List GridLevel → Decimal
last_buy price [] = price
last_buy price (lv ∷ lvs) = last_buy lv.buy_price lvs

-- the grid that is set up; `steps` is none or has a step
abbrev pub set_up :
    ℕ → Text → Decimal → Decimal → ℕ → Decimal → Option (List AveragingStep) → GridData → GridState
set_up account symbol upper_price lower_price grid_count investment_per_grid steps levels = record {
  status = GridStatus.idle;
  upper_price = upper_price;
  lower_price = elim steps [ none ↦ lower_price | some ss ↦ last_buy lower_price levels.0 ];
  grid_count = elim steps [ none ↦ grid_count | some ss ↦ length levels.0 ];
  grid_spacing = levels.1;
  investment_per_grid = investment_per_grid;
  levels = levels.0;
  total_cycles = 0;
  total_profit = whole 0;
  exchange_account_id = account;
  symbol = symbol;
  current_price = none;
}

-- `if averaging_steps`: an empty list counts as none
abbrev pub steps_given : Option (List AveragingStep) → Option (List AveragingStep)
steps_given none = none
steps_given (some []) = none
steps_given (some (step ∷ steps)) = some (step ∷ steps)

abbrev pub grid_data :
    Division
    → Decimal
    → Decimal
    → ℕ
    → Decimal
    → Option (List AveragingStep)
    → Result GridFailure GridData
grid_data divide upper_price lower_price grid_count investment_per_grid none =
    calculate_grid_state_data divide upper_price lower_price grid_count investment_per_grid
grid_data divide upper_price lower_price grid_count investment_per_grid (some steps) =
    calculate_grid_state_data_with_averaging divide upper_price investment_per_grid steps

-- what follows the calculation of the levels
unfoldable pub install :
    ℕ → (GridData → GridState) → Result GridFailure GridData → Action (Unit {0})
install id make (err x) = λ e. (err (EngineFault.grid_fault x), e)
install id make (ok levels) = do
  modify (λ e. record e { grids = State.put id (make levels) e.grids })
  in_store (transition_grid id GridStatus.initialized)

unfoldable pub initialize_grid :
    Division
    → ℕ
    → ℕ
    → Text
    → Decimal
    → Decimal
    → ℕ
    → Decimal
    → Option (List AveragingStep)
    → Action (Unit {0})
initialize_grid divide id account symbol upper_price lower_price grid_count investment_per_grid
      averaging_steps =
    let steps = steps_given averaging_steps in
    install id (set_up account symbol upper_price lower_price grid_count investment_per_grid steps)
      (grid_data divide upper_price lower_price grid_count investment_per_grid steps)

abbrev or_else : Option Decimal → Decimal → Decimal
or_else none otherwise = otherwise
or_else (some value) otherwise = value

-- DEFAULT_RECOVERY_PCT is 5 and DEFAULT_WIDEN_MULTIPLIER is 2.
unfoldable pub configure_circuit_breaker :
    ℕ
    → Decimal
    → Decimal
    → BreakerResumeMode
    → Option Decimal
    → Option Decimal
    → Option Decimal
    → GridEngine
    → GridEngine
configure_circuit_breaker id critical_threshold min_continuation_rate resume_mode recovery_pct
      widen_multiplier day_open_price e =
    record e {
      breakers =
          insert id
            (record {
              critical_threshold = critical_threshold;
              min_continuation_rate = min_continuation_rate;
              resume_mode = resume_mode;
              recovery_pct = or_else recovery_pct (whole 5);
              widen_multiplier = or_else widen_multiplier (whole 2);
              day_open_price = day_open_price;
              triggered = false;
              trigger_date = none;
              trigger_price = none;
              triggered_at = none;
              bottom_price = none;
            })
            e.breakers;
    }
