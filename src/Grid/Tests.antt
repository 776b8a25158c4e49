-- ===== src/Grid/Tests.antt =====
-- The theorems on backend/engine/grid, at a grid of three levels.
use utos.Prelude.{
  inr, ℕ, ◌+◌, ◌==◌, ◌&&◌, ◌≡◌, refl, Bool, true, false, Option, none, some, List, [], ◌∷◌, Result,
  ok, err, arith, length, if◌then◌else◌, filter,
}
use utos.Prelude.Text.{codes}
use utos.Prelude.Int.{pos}
use utos.Prelude.Decimal.{Decimal, whole}
use utos.Prelude.Dict.{lookup, number_key}
use utos.Grid.Models.{LevelStatus, GridStatus, GridLevel, GridState}
use utos.Grid.State.{
  Store, with_status, transition_level, transition_grid, get_level, list_levels,
  validate_level_transition,
}
use utos.Grid.State.Machine.{GridHistory, here}
use utos.Execution.Models.{OrderSide, OrderType, OrderResult, Status}
use utos.Execution.Tracker.{fresh_order}
use utos.Execution.Executor.{RetryPolicy}
use utos.Grid.Breaker.{BreakerResumeMode, CircuitBreakerState, trigger}
use utos.Grid.Breaker.Bottom.{IsMinimum, watch, watch_prices, bottom_is_lowest}
use utos.Grid.Engine.{GridEngine, Ids, activate_grid}
use utos.ProfitLock.Policy.{Division}
use utos.Grid.Engine.Setup.{initialize_grid}
use utos.Grid.Engine.Fills.{on_sell_filled, cancel_all_pending_buys}
use utos.Grid.Engine.Cycle.{sell_ends_cycle, Reopened, with_sale}
use utos.Grid.Engine.Reached.{Following, Step, breaker_cancels_nothing}
use utos.Grid.State.{change_level}
use utos.Grid.Planner.{plan}
use utos.Grid.Planner.Widen.{stays, plan_widened}

abbrev level_at : ℕ → ℕ → GridLevel
level_at n price = record {
  level = n;
  buy_price = whole price;
  sell_price = whole (price + 10);
  quantity = whole 1;
  buy_order_id = none;
  sell_order_id = none;
  status = LevelStatus.waiting;
}

abbrev grid : GridState
grid = record {
  status = GridStatus.active;
  upper_price = whole 130;
  lower_price = whole 100;
  grid_count = 3;
  grid_spacing = whole 10;
  investment_per_grid = whole 100;
  levels = level_at 0 100 ∷ level_at 1 110 ∷ level_at 2 120 ∷ [];
  total_cycles = 0;
  total_profit = whole 0;
  exchange_account_id = 7;
  symbol = codes "BTCUSDT";
  current_price = none;
}

abbrev store : Store
store = (8, grid) ∷ []

idle_history : GridHistory GridStatus.idle GridStatus.idle
idle_history = here

abbrev two_and_a_half : Decimal
two_and_a_half = record { coefficient = pos 25; places = 1 }

plan_widened_example :
    plan 8 (whole 105) true two_and_a_half store
    ≡ filter (stays 2) (plan 8 (whole 105) false two_and_a_half store)
unfolding utos.Prelude.Decimal.le_dec
plan_widened_example = plan_widened 8 2 (whole 105) two_and_a_half store (omega arith) refl refl

abbrev open_result : OrderResult
open_result = record {
  order_id = 55;
  exchange_order_id = 55;
  symbol = codes "BTCUSDT";
  side = OrderSide.buy;
  order_type = OrderType.limit;
  quantity = whole 1;
  price = some (whole 110);
  filled_quantity = whole 0;
  average_fill_price = none;
  status = codes "open";
  created_at = 1;
  updated_at = 1;
}

abbrev engine_with : GridState → GridEngine
engine_with state = record {
  grids = (8, state) ∷ [];
  trailing = [];
  has_profit_lock = true;
  locks = record { states = []; metrics = [] };
  exec = record {
    tracker = record {
      objects = λ ref. fresh_order 0 0 open_result Status.pending 0;
      next = 0;
      orders = [];
      request_index = [];
    };
    adapters =
        (
          7,
          record {
            place_order = λ n r. ok open_result;
            cancel_order = λ n s i. ok true;
            get_order = λ n s i. ok open_result;
            get_open_orders = λ n s. ok [];
          },
        )
        ∷ [];
    log = [];
    clock = 3;
  };
  breakers = [];
}

abbrev sold_level : GridLevel
sold_level = record (level_at 1 110) { status = LevelStatus.opened; sell_order_id = some 55 }

abbrev sold_grid : GridState
sold_grid = record grid { levels = level_at 0 100 ∷ sold_level ∷ level_at 2 120 ∷ [] }

sell_ends_cycle_example :
    let after = on_sell_filled 8 1 (whole 120) (whole 1) (engine_with sold_grid) in
    (lvs : List GridLevel) × Reopened 1 sold_level sold_grid.levels lvs
    × (after.0 ≡ ok tt)
    × (lookup 8 after.1.grids ≡ some (with_sale (whole 120) (whole 110) (whole 1) lvs sold_grid))
    × (after.1.locks ≡ (engine_with sold_grid).locks)
    × (after.1.exec ≡ (engine_with sold_grid).exec)
unfolding lookup utos.Grid.State.find_level validate_level_transition
sell_ends_cycle_example =
    sell_ends_cycle 8 1 (whole 120) (whole 1) sold_grid sold_level (engine_with sold_grid) refl refl
      refl refl

abbrev policy : RetryPolicy
policy = record { max_retries = 3; base_delay = 1; max_delay = 60; backoff_multiplier = 2 }

abbrev ids : Ids
ids n = (n, n + 900)

-- no grid is known yet
abbrev empty_engine : GridEngine
empty_engine = record (engine_with grid) { grids = [] }

-- the spacing of the example, and the quantity of each level
abbrev in_three : Division
in_three a b = whole 10

abbrev started_engine : GridEngine
started_engine =
    (initialize_grid in_three 8 7 (codes "BTCUSDT") (whole 130) (whole 100) 3 (whole 100) none
      empty_engine).1

abbrev activated_engine : GridEngine
activated_engine = (activate_grid policy ids 8 (whole 115) started_engine).1

breaker_cancels_nothing_example :
    cancel_all_pending_buys 8 activated_engine ≡ (ok tt, activated_engine)
unfolding list_levels lookup
breaker_cancels_nothing_example = breaker_cancels_nothing 8 empty_engine activated_engine tt (
    Following.after empty_engine started_engine activated_engine
      (Following.after empty_engine empty_engine started_engine (Following.here empty_engine) (
        Step.initialized in_three 7 (codes "BTCUSDT") (whole 130) (whole 100) 3 (whole 100) none
          empty_engine))
      (Step.activated policy ids (whole 115) started_engine))

abbrev breaker : CircuitBreakerState
breaker = record {
  critical_threshold = whole 4;
  min_continuation_rate = whole 1;
  resume_mode = BreakerResumeMode.trailing_buy;
  recovery_pct = whole 5;
  widen_multiplier = whole 2;
  day_open_price = some (whole 100);
  triggered = false;
  trigger_date = some 1;
  trigger_price = none;
  triggered_at = none;
  bottom_price = none;
}

bottom_is_lowest_example :
    let after = watch_prices 1 (whole 94 ∷ whole 97 ∷ []) (trigger 5 (whole 95) breaker) in
    IsMinimum after.bottom_price (whole 95 ∷ whole 94 ∷ whole 97 ∷ [])
    × (((watch 2 (whole 90) after).bottom_price ≡ none)
        × ((watch 2 (whole 90) after).triggered ≡ false))
bottom_is_lowest_example =
    bottom_is_lowest 1 5 2 (whole 95) (whole 90) (whole 94 ∷ whole 97 ∷ []) breaker refl
      (omega arith)
