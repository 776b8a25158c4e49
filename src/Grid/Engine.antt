-- ===== src/Grid/Engine.antt =====
-- backend/engine/grid/engine.py: the engine and the life of a grid. The execution engine and the
-- profit lock engine are the modelled ones; the uuids that orders take and the key that an instance
-- and a level have in the profit lock engine are arguments. A method runs to its end with no other
-- task between its awaits.
pub mod Setup
pub mod Fills
pub mod Levels
pub mod Steps
pub mod Pending
pub mod Force
pub mod Forced
pub mod Started
pub mod Prices
pub mod Kept
pub mod Reached
pub mod Cycle
use utos.Prelude.{
  ℕ, ◌+◌, Bool, true, false, not, ◌&&◌, Option, none, some, List, [], ◌∷◌, Result, ok, err, Exec,
  pure, raise, gets, modify, or_raise, ◌>>=◌, ◌>>◌, if◌then◌else◌, is_some,
}
use utos.Prelude.Text.{Text}
use utos.Prelude.Decimal.{Decimal, whole, add_dec, sub_dec, mul_dec}
use utos.Prelude.Dict.{Dict, lookup, insert, number_key}
use utos.Execution.Models.{OrderRequest, OrderResult, OrderSide, OrderType, Failure}
use utos.Execution.Executor.{World, RetryPolicy}
use utos.Execution.Engine
use utos.Grid.Models.{
  LevelStatus, GridStatus, GridLevel, GridState, GridFailure, grid_not_found, level_not_found,
}
use utos.Grid.State.{Store, transition_grid, transition_level, update_level, get_level, list_levels}
use utos.Grid.Planner.{GridAction, ActionKind, Side, plan, plan_initial, plan_cancel_all, sell_at}
use utos.Grid.Breaker.{CircuitBreakerState}
use utos.ProfitLock.State.{ProfitLockStore, PositionSide}
use utos.ProfitLock.Engine.{ProfitLockEngine}
use utos.ProfitLock.Engine.Settings.{enable}

-- the values of `_trailing_config`
pub record TrailingConfig : Type 0 where
  pub trigger_percentage : Decimal
  pub trail_percentage : Decimal
  pub max_profit_percentage : Decimal

-- `has_profit_lock` says whether a profit lock engine was given; it shares the execution engine.
pub record GridEngine : Type 0 where
  pub grids : Store
  pub trailing : Dict ℕ TrailingConfig
  pub has_profit_lock : Bool
  pub locks : ProfitLockStore
  pub exec : World
  pub breakers : Dict ℕ CircuitBreakerState

pub data EngineFault : Type 0 where
  grid_fault : GridFailure → EngineFault
  order_fault : Failure → EngineFault

abbrev pub Action : Type 0 → Type 0
Action A = Exec GridEngine EngineFault A

-- the uuids of the request and of its local order, for each order that a call places
abbrev pub Ids : Type 0
Ids = ℕ → ℕ × ℕ

abbrev pub stored : {A : Type 0} → Result GridFailure A → Result EngineFault (Unit {0})
stored (ok a) = ok tt
stored (err x) = err (EngineFault.grid_fault x)

-- a call of the store
unfoldable pub in_store : {A : Type 0} → (Store → Result GridFailure A × Store) → Action (Unit {0})
in_store f e = let (r, g) = f e.grids in (stored r, record e { grids = g })

abbrev ordered : {A : Type 0} → Result Failure A → Result EngineFault A
ordered (ok a) = ok a
ordered (err x) = err (EngineFault.order_fault x)

-- a call of the execution engine
unfoldable pub in_exec : {A : Type 0} → Exec World Failure A → Action A
in_exec m e = let (r, w) = m e.exec in (ordered r, record e { exec = w })

-- a write to attributes of a stored grid
abbrev grid_changed : Option GridState → ℕ → (GridState → GridState) → Store → Store
grid_changed none id f g = g
grid_changed (some state) id f g = insert id (f state) g

unfoldable pub write_grid : ℕ → (GridState → GridState) → Action (Unit {0})
write_grid id f = modify (λ e. record e { grids = grid_changed (lookup id e.grids) id f e.grids })

-- a write to attributes of a stored level
unfoldable pub write_level : ℕ → ℕ → (GridLevel → GridLevel) → Action (Unit {0})
write_level id n f = modify (λ e. record e { grids = (update_level id n f e.grids).1 })

abbrev pub grid_of : ℕ → Action GridState
grid_of id = do
  found ← gets (λ e. lookup id e.grids)
  or_raise found (EngineFault.grid_fault grid_not_found)

abbrev pub level_of : ℕ → ℕ → Action GridLevel
level_of id n = do
  found ← gets (λ e. get_level id n e.grids)
  or_raise found (EngineFault.grid_fault level_not_found)

unfoldable pub configure_trailing_profit : ℕ → Decimal → Decimal → Decimal → GridEngine → GridEngine
configure_trailing_profit id trigger_percentage trail_percentage max_profit_percentage e =
    record e {
      trailing =
          insert id
            (record {
              trigger_percentage = trigger_percentage;
              trail_percentage = trail_percentage;
              max_profit_percentage = max_profit_percentage;
            })
            e.trailing;
    }

abbrev order_side : Side → OrderSide
order_side Side.buy = OrderSide.buy
order_side Side.sell = OrderSide.sell

-- the request of `_place_order`
abbrev pub level_request : ℕ → GridState → GridAction → OrderRequest
level_request request_id state action = record {
  request_id = request_id;
  exchange_account_id = state.exchange_account_id;
  symbol = state.symbol;
  side = order_side action.side;
  order_type = OrderType.limit;
  quantity = action.quantity;
  price = some action.price;
  stop_price = none;
  client_order_id = none;
}

-- the attribute of the level that an order of a side is kept in
abbrev pub with_level_order : Side → Option ℕ → GridLevel → GridLevel
with_level_order Side.buy order_id lv = record lv { buy_order_id = order_id }
with_level_order Side.sell order_id lv = record lv { sell_order_id = order_id }

unfoldable pub place_order : RetryPolicy → ℕ → ℕ × ℕ → GridAction → Action (Unit {0})
place_order p id ids action = do
  state ← grid_of id
  result ← in_exec (Engine.place_order p (level_request ids.0 state action) ids.1)
  in_store (update_level id action.level (with_level_order action.side (some result.order_id)))
  in_store (transition_level id action.level LevelStatus.opened)

unfoldable pub cancel_with : ℕ → GridState → GridAction → Option ℕ → Action (Unit {0})
cancel_with id state action none = pure tt
cancel_with id state action (some order_id) = do
  in_exec (Engine.cancel_order state.exchange_account_id order_id)
  in_store (update_level id action.level (with_level_order action.side none))
  in_store (transition_level id action.level LevelStatus.cancelled)

unfoldable pub cancel_order : ℕ → GridAction → Action (Unit {0})
cancel_order id action = do state ← grid_of id; cancel_with id state action action.order_id

unfoldable pub place_each : RetryPolicy → ℕ → Ids → ℕ → List GridAction → Action (Unit {0})
place_each p id ids n [] = pure tt
place_each p id ids n (action ∷ actions) = do
  place_order p id (ids n) action
  place_each p id ids (n + 1) actions

unfoldable pub cancel_each : ℕ → List GridAction → Action (Unit {0})
cancel_each id [] = pure tt
cancel_each id (action ∷ actions) = do cancel_order id action; cancel_each id actions

abbrev pub at_price : Decimal → GridState → GridState
at_price current_price state = record state { current_price = some current_price }

unfoldable pub activate_grid : RetryPolicy → Ids → ℕ → Decimal → Action (Unit {0})
activate_grid p ids id current_price = do
  grid_of id
  in_store (transition_grid id GridStatus.active)
  write_grid id (at_price current_price)
  actions ← gets (λ e. plan_initial id current_price e.grids)
  place_each p id ids 0 actions

unfoldable pub close_all_grid_orders : ℕ → Action (Unit {0})
close_all_grid_orders id = do
  actions ← gets (λ e. plan_cancel_all id e.grids)
  cancel_each id actions

unfoldable pub pause_grid : ℕ → Action (Unit {0})
pause_grid id = do
  grid_of id
  actions ← gets (λ e. plan_cancel_all id e.grids)
  cancel_each id actions
  in_store (transition_grid id GridStatus.paused)

unfoldable pub resume_grid : RetryPolicy → Ids → ℕ → Decimal → Action (Unit {0})
resume_grid p ids id current_price = do
  grid_of id
  in_store (transition_grid id GridStatus.active)
  write_grid id (at_price current_price)
  actions ← gets (λ e. plan id current_price false (whole 1) e.grids)
  place_each p id ids 0 actions
