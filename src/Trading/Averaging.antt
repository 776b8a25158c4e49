-- ===== src/Trading/Averaging.antt =====
-- backend/services/averaging_template.py: the template of 35 steps that a process without steps of
-- its own gets. Its constants have one decimal place, and stand here in tenths.
use utos.Prelude.{ℕ, ◌+◌, some, List, [], ◌∷◌}
use utos.Prelude.Int.{pos}
use utos.Prelude.Decimal.{Decimal}
use utos.Grid.Calculator.{AveragingStep}

abbrev pub tenths : ℕ → Decimal
tenths n = record { coefficient = pos n; places = 1 }

unfoldable pub default_drop_rates : List ℕ
default_drop_rates =
    6 ∷ 12 ∷ 11 ∷ 10 ∷ 20 ∷ 8 ∷ 15 ∷ 13 ∷ 11 ∷ 25 ∷ 10 ∷ 18 ∷ 15 ∷ 12 ∷ 30 ∷ 12 ∷ 20 ∷ 18 ∷ 15 ∷ 35
    ∷ 15 ∷ 25 ∷ 20 ∷ 18 ∷ 40 ∷ 18 ∷ 30 ∷ 25 ∷ 20 ∷ 45 ∷ 20 ∷ 35 ∷ 30 ∷ 25 ∷ 50 ∷ []

unfoldable pub default_take_profits : List ℕ
default_take_profits =
    15 ∷ 15 ∷ 15 ∷ 15 ∷ 20 ∷ 15 ∷ 15 ∷ 20 ∷ 20 ∷ 20 ∷ 20 ∷ 20 ∷ 25 ∷ 25 ∷ 25 ∷ 25 ∷ 25 ∷ 30 ∷ 30
    ∷ 30 ∷ 30 ∷ 30 ∷ 35 ∷ 35 ∷ 35 ∷ 35 ∷ 40 ∷ 40 ∷ 40 ∷ 45 ∷ 45 ∷ 50 ∷ 50 ∷ 55 ∷ 60 ∷ []

unfoldable pub default_multipliers : List ℕ
default_multipliers =
    10 ∷ 10 ∷ 10 ∷ 10 ∷ 10 ∷ 15 ∷ 15 ∷ 15 ∷ 15 ∷ 15 ∷ 15 ∷ 15 ∷ 15 ∷ 15 ∷ 15 ∷ 20 ∷ 20 ∷ 20 ∷ 20
    ∷ 20 ∷ 20 ∷ 20 ∷ 20 ∷ 20 ∷ 20 ∷ 20 ∷ 20 ∷ 20 ∷ 20 ∷ 20 ∷ 25 ∷ 25 ∷ 25 ∷ 25 ∷ 30 ∷ []

abbrev pub template_steps : ℕ → List ℕ → List ℕ → List ℕ → List AveragingStep
template_steps i (d ∷ ds) (m ∷ ms) (t ∷ ts) =
    record {
      step_number = i;
      drop_rate = tenths d;
      multiple_buy_amount = some (tenths m);
      take_profit = tenths t;
    }
    ∷ template_steps (i + 1) ds ms ts
template_steps i _ _ _ = []

unfoldable pub get_default_averaging_template : List AveragingStep
unfolding default_drop_rates default_multipliers default_take_profits
get_default_averaging_template =
    template_steps 0 default_drop_rates default_multipliers default_take_profits
