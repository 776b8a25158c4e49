-- ===== src/Grid/Engine/Force.antt =====
-- The force operations of backend/engine/grid/engine.py. Of an answer, the prices, quantities and
-- totals are not modelled.
use utos.Prelude.{
  ℕ, ◌+◌, Bool, true, false, Option, none, some, List, [], ◌∷◌, Result, ok, err, pure, gets, lift,
  ◌>>=◌, ◌>>◌, if◌then◌else◌,
}
use utos.Prelude.Decimal.{Decimal, lt_dec}
use utos.Prelude.Dict.{number_key}
use utos.Execution.Models.{OrderRequest, OrderResult, OrderSide, OrderType}
use utos.Execution.Executor.{RetryPolicy}
use utos.Execution.Engine
use utos.Grid.Models.{
  LevelStatus, GridStatus, GridLevel, GridState, level_not_found, not_active, level_filled,
  level_not_filled, no_level, no_price,
}
use utos.Grid.State.{Store, transition_level, update_level, get_level}
use utos.Grid.Planner.{Side}
use utos.Grid.Engine.{EngineFault, Action, Ids, in_store, in_exec, grid_of, with_level_order}
use utos.Grid.Engine.Fills.{is_active_grid, is_waiting_level}

abbrev fault : {A : Type 0} → utos.Grid.Models.GridFailure → Result EngineFault A
fault x = err (EngineFault.grid_fault x)

abbrev pub must_be_active : GridStatus → Result EngineFault (Unit {0})
must_be_active status = if is_active_grid status then ok tt else fault not_active

abbrev pub is_filled_level : LevelStatus → Bool
is_filled_level LevelStatus.filled = true
is_filled_level _ = false

-- a waiting candidate; the comparison with a price that is None raises
abbrev candidate_below :
    Option Decimal → GridLevel → Result EngineFault GridLevel → Result EngineFault GridLevel
candidate_below none lv rest = fault no_price
candidate_below (some current_price) lv rest =
    if lt_dec lv.buy_price current_price then ok lv else rest

-- the first waiting level below the current price
unfoldable pub next_waiting : Option Decimal → List GridLevel → Result EngineFault GridLevel
next_waiting current_price [] = fault no_level
next_waiting current_price (lv ∷ lvs) =
    let rest = next_waiting current_price lvs in
    if is_waiting_level lv.status then candidate_below current_price lv rest else rest

abbrev not_filled_yet : Option GridLevel → Result EngineFault GridLevel
not_filled_yet none = fault level_not_found
not_filled_yet (some lv) = if is_filled_level lv.status then fault level_filled else ok lv

-- the target level of a forced buy
unfoldable pub level_to_buy : ℕ → Option ℕ → GridState → Store → Result EngineFault GridLevel
level_to_buy id none state g = next_waiting state.current_price state.levels
level_to_buy id (some level) state g = not_filled_yet (get_level id level g)

-- an order of the level is cancelled if there is one; a failure is logged and swallowed
unfoldable pub cancel_existing : ℕ → Option ℕ → Action (Unit {0})
cancel_existing account none e = (ok tt, e)
cancel_existing account (some order_id) e =
    (ok tt, record e { exec = (Engine.cancel_order account order_id e.exec).1 })

abbrev pub forced_request : ℕ → GridState → OrderSide → Decimal → Option Decimal → OrderRequest
forced_request request_id state side quantity price = record {
  request_id = request_id;
  exchange_account_id = state.exchange_account_id;
  symbol = state.symbol;
  side = side;
  order_type = OrderType.limit;
  quantity = quantity;
  price = price;
  stop_price = none;
  client_order_id = none;
}

abbrev pub given_or : Option Decimal → Decimal → Decimal
given_or none otherwise = otherwise
given_or (some value) otherwise = value

-- the order is stored at the level, which is opened
unfoldable pub store_forced_buy : ℕ → ℕ → OrderResult → Action (Unit {0})
store_forced_buy id level result =
    in_store (update_level id level (with_level_order Side.buy (some result.order_id)))
    >> in_store (transition_level id level LevelStatus.opened)

-- with the id of the order and its level
unfoldable pub force_buy :
    RetryPolicy → ℕ → ℕ × ℕ → Option ℕ → Option Decimal → Option Decimal → Action (ℕ × ℕ)
force_buy p id ids level price quantity = do
  state ← grid_of id
  lift (must_be_active state.status)
  target ← gets (λ e. level_to_buy id level state e.grids)
  lv ← lift target
  cancel_existing state.exchange_account_id lv.buy_order_id
  result ← in_exec (
      Engine.place_order p
        (forced_request ids.0 state OrderSide.buy (given_or quantity lv.quantity)
          (some (given_or price lv.buy_price)))
        ids.1)
  store_forced_buy id lv.level result
  pure (result.order_id, lv.level)

unfoldable pub filled_levels : List GridLevel → List GridLevel
filled_levels [] = []
filled_levels (lv ∷ lvs) =
    if is_filled_level lv.status then lv ∷ filled_levels lvs else filled_levels lvs

abbrev some_filled : List GridLevel → Result EngineFault (List GridLevel)
some_filled [] = fault no_level
some_filled (lv ∷ lvs) = ok (lv ∷ lvs)

abbrev filled_only : Option GridLevel → Result EngineFault (List GridLevel)
filled_only none = fault level_not_found
filled_only (some lv) = if is_filled_level lv.status then ok (lv ∷ []) else fault level_not_filled

unfoldable pub levels_to_sell :
    ℕ → Option ℕ → GridState → Store → Result EngineFault (List GridLevel)
levels_to_sell id none state g = some_filled (filled_levels state.levels)
levels_to_sell id (some level) state g = filled_only (get_level id level g)

-- no more than the level holds
abbrev pub sell_quantity : Option Decimal → GridLevel → Decimal
sell_quantity none lv = lv.quantity
sell_quantity (some quantity) lv = if lt_dec lv.quantity quantity then lv.quantity else quantity

abbrev pub sell_price : Option Decimal → Option Decimal → Option Decimal
sell_price none current_price = current_price
sell_price (some price) current_price = some price

-- the ids of the orders of one level after another
unfoldable pub sell_each :
    RetryPolicy
    → ℕ
    → Ids
    → ℕ
    → GridState
    → Option Decimal
    → Option Decimal
    → List GridLevel
    → Action (List ℕ)
sell_each p id ids n state price quantity [] = pure []
sell_each p id ids n state price quantity (lv ∷ lvs) = do
  cancel_existing state.exchange_account_id lv.sell_order_id
  result ← in_exec (
      Engine.place_order p
        (forced_request (ids n).0 state OrderSide.sell (sell_quantity quantity lv) price) (ids n).1)
  in_store (update_level id lv.level (with_level_order Side.sell (some result.order_id)))
  order_ids ← sell_each p id ids (n + 1) state price quantity lvs
  pure (result.order_id ∷ order_ids)

-- with the ids of the orders
unfoldable pub force_sell :
    RetryPolicy → ℕ → Ids → Option ℕ → Option Decimal → Option Decimal → Action (List ℕ)
force_sell p id ids level price quantity = do
  state ← grid_of id
  lift (must_be_active state.status)
  chosen ← gets (λ e. levels_to_sell id level state e.grids)
  levels ← lift chosen
  sell_each p id ids 0 state (sell_price price state.current_price) quantity levels
