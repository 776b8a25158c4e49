-- ===== src/Grid/Engine/Reached.antt =====
-- What the handlers of backend/engine/grid/engine.py can lead to, and what its breaker then cancels.
use utos.Prelude.{
  ℕ, ◌≡◌, ◌≢◌, ◌⊎◌, gets, pure, refl, Bool, false, Option, none, some, List, [], ◌∷◌, ok, if_both,
  All, inl, inr, ◌>>=◌, ◌>>◌,
}
use utos.Prelude.Decimal.{Decimal, whole}
use utos.Prelude.Dict.{lookup, number_key}
use utos.Execution.Executor.{RetryPolicy}
use utos.Grid.Models.{LevelStatus, GridStatus, GridLevel, GridState}
use utos.Grid.State.{Store, with_status, transition_level, transition_grid, list_levels}
use utos.Grid.Planner.{GridAction, sell_at, plan, plan_initial, plan_cancel_all}
use utos.Grid.Engine.{
  GridEngine, TrailingConfig, Action, Ids, in_store, write_level, write_grid, place_order,
  place_each, cancel_each, activate_grid, pause_grid, resume_grid, close_all_grid_orders, grid_of,
  level_of, at_price,
}
use utos.Grid.Engine.Fills.{
  cancel_all_pending_buys, on_buy_filled, on_sell_filled, without_buy, without_sell, after_buy,
  after_buy_of, enable_trailing, is_active_grid, with_cycle, reopen, reopened,
}
use utos.Grid.Engine.Levels.{Levels}
use utos.Grid.Engine.Steps.{
  Preserves, then_keeps, grid_of_keeps, level_of_keeps, write_level_keeps, move_keeps,
  write_grid_keeps, move_grid_keeps,
}
use utos.Grid.Engine.Prices.{Tick, on_price_update}
use utos.Grid.Engine.Force.{force_buy, force_sell}
use utos.Grid.Engine.Forced.{force_buy_keeps, force_sell_keeps}
use utos.Grid.Engine.Kept.{price_keeps}
use utos.Prelude.Text.{Text}
use utos.ProfitLock.Policy.{Division}
use utos.Grid.Calculator.{AveragingStep}
use utos.Grid.Engine.Setup.{initialize_grid}
use utos.Grid.Engine.Started.{initialize_keeps}
use utos.Grid.Engine.Pending.{
  HoldsNoPending, all_stay, order_keeps, place_each_keeps, cancel_each_keeps,
}

-- the levels of a number hold no buy order
abbrev pub HoldsNoBuy : ℕ → GridLevel → Type 0
HoldsNoBuy n lv = (lv.level ≢ n) ⊎ (lv.buy_order_id ≡ none)

-- One call of a handler of a grid, whatever the exchange answers. The fill of a sell is one of a level
-- that holds no buy order.
pub data Step (id : ℕ) : GridEngine → GridEngine → Type 0 where
  initialized :
      (divide : Division) (account : ℕ) (symbol : Text) (upper lower : Decimal) (count : ℕ)
      (investment : Decimal) (steps : Option (List AveragingStep)) (e : GridEngine)
      → Step id e (initialize_grid divide id account symbol upper lower count investment steps e).1
  activated :
      (p : RetryPolicy) (ids : Ids) (price : Decimal) (e : GridEngine)
      → Step id e (activate_grid p ids id price e).1
  paused : (e : GridEngine) → Step id e (pause_grid id e).1
  resumed :
      (p : RetryPolicy) (ids : Ids) (price : Decimal) (e : GridEngine)
      → Step id e (resume_grid p ids id price e).1
  closed : (e : GridEngine) → Step id e (close_all_grid_orders id e).1
  bought :
      (p : RetryPolicy) (ids : ℕ × ℕ) (lock_key level : ℕ) (price quantity : Decimal)
      (e : GridEngine)
      → Step id e (on_buy_filled p id ids lock_key level price quantity e).1
  sold :
      (level : ℕ) (price quantity : Decimal) (e : GridEngine)
      → Levels (HoldsNoBuy level) id e.grids
      → Step id e (on_sell_filled id level price quantity e).1
  forced_buy :
      (p : RetryPolicy) (ids : ℕ × ℕ) (level : Option ℕ) (price quantity : Option Decimal)
      (e : GridEngine)
      → Step id e (force_buy p id ids level price quantity e).1
  forced_sell :
      (p : RetryPolicy) (ids : Ids) (level : Option ℕ) (price quantity : Option Decimal)
      (e : GridEngine)
      → Step id e (force_sell p id ids level price quantity e).1
  priced :
      (t : Tick) (price : Decimal) (e : GridEngine) → Step id e (on_price_update t id price e).1

pub data Following (id : ℕ) : GridEngine → GridEngine → Type 0 where
  here : (e : GridEngine) → Following id e e
  after : (e e' e'' : GridEngine) → Following id e e' → Step id e' e'' → Following id e e''

-- both, for the fill of a sell at a level of the number
abbrev Sellable : ℕ → GridLevel → Type 0
Sellable n lv = HoldsNoPending lv × HoldsNoBuy n lv

both_hold :
    (n : ℕ) (lvs : List GridLevel)
    → All HoldsNoPending lvs
    → All (HoldsNoBuy n) lvs
    → All (Sellable n) lvs
both_hold n [] h k = tt
both_hold n (lv ∷ lvs) h k = ((h.0, k.0), both_hold n lvs h.1 k.1)

one_holds : (n : ℕ) (lvs : List GridLevel) → All (Sellable n) lvs → All HoldsNoPending lvs
one_holds n [] h = tt
one_holds n (lv ∷ lvs) h = (h.0.0, one_holds n lvs h.1)

reopens :
    (n : ℕ) (lv : GridLevel)
    → lv.level ≡ n
    → HoldsNoBuy n lv
    → Sellable n (with_status LevelStatus.waiting lv)
reopens n lv same (inl other) = absurd (other same)
reopens n lv same (inr no_buy) = (inr no_buy, inr no_buy)

module _ (id : ℕ) where
  -- the start of a grid: the status, the price and the orders of a plan
  start_keeps :
      (p : RetryPolicy) (ids : Ids) (price : Decimal) (plans : Store → List GridAction)
      → Preserves HoldsNoPending id (
          grid_of id >>= λ s.
          in_store (transition_grid id GridStatus.active)
          >> (write_grid id (at_price price)
              >> (gets (λ e. plans e.grids) >>= place_each p id ids 0)))
  start_keeps p ids price plans =
      let place : List GridAction → Action (Unit {0}) = place_each p id ids 0 in
      let look : Action (List GridAction) = gets (λ e. plans e.grids) in
      let write : Action (Unit {0}) = write_grid id (at_price price) in
      let move : Action (Unit {0}) = in_store (transition_grid id GridStatus.active) in
      then_keeps HoldsNoPending id (grid_of id) (λ s. move >> (write >> (look >>= place)))
        (grid_of_keeps HoldsNoPending id)
        (λ s.
          then_keeps HoldsNoPending id move (λ u. write >> (look >>= place))
            (move_grid_keeps HoldsNoPending id GridStatus.active)
            (λ u.
              then_keeps HoldsNoPending id write (λ v. look >>= place)
                (write_grid_keeps HoldsNoPending id (at_price price) (λ x. refl))
                (λ v.
                  then_keeps HoldsNoPending id look place (λ e h. h)
                    (λ actions. place_each_keeps id p ids 0 actions))))

  close_keeps : Preserves HoldsNoPending id (close_all_grid_orders id)
  unfolding close_all_grid_orders
  close_keeps =
      then_keeps HoldsNoPending id (gets (λ e. plan_cancel_all id e.grids)) (cancel_each id)
        (λ e h. h) (cancel_each_keeps id)

  pause_keeps : Preserves HoldsNoPending id (pause_grid id)
  unfolding pause_grid
  pause_keeps =
      let look : Action (List GridAction) = gets (λ e. plan_cancel_all id e.grids) in
      let move : Action (Unit {0}) = in_store (transition_grid id GridStatus.paused) in
      then_keeps HoldsNoPending id (grid_of id)
        (λ s. look >>= λ actions. cancel_each id actions >> move) (grid_of_keeps HoldsNoPending id)
        (λ s.
          then_keeps HoldsNoPending id look (λ actions. cancel_each id actions >> move) (λ e h. h)
            (λ actions.
              then_keeps HoldsNoPending id (cancel_each id actions) (λ u. move)
                (cancel_each_keeps id actions)
                (λ u. move_grid_keeps HoldsNoPending id GridStatus.paused)))

  after_buy_keeps :
      (state : Option GridState) (trailing : Option TrailingConfig) (has_lock : Bool)
      (p : RetryPolicy) (ids : ℕ × ℕ) (lock_key : ℕ) (lv : GridLevel) (price quantity : Decimal)
      → Preserves HoldsNoPending id
          (after_buy state trailing has_lock p id ids lock_key lv price quantity)
  unfolding enable_trailing
  after_buy_keeps none trailing has_lock p ids lock_key lv price quantity = λ e h. h
  after_buy_keeps (some state) none has_lock p ids lock_key lv price quantity =
      if_both (Preserves HoldsNoPending id) (is_active_grid state.status)
        (place_order p id ids (sell_at lv)) (pure tt) (order_keeps id p ids (sell_at lv)) (λ e h. h)
  after_buy_keeps (some state) (some t) has_lock p ids lock_key lv price quantity =
      if_both (Preserves HoldsNoPending id) has_lock
        (enable_trailing lock_key state price quantity t) (pure tt) (λ e h. h) (λ e h. h)

  bought_keeps :
      (p : RetryPolicy) (ids : ℕ × ℕ) (lock_key n : ℕ) (price quantity : Decimal)
      → Preserves HoldsNoPending id (on_buy_filled p id ids lock_key n price quantity)
  unfolding on_buy_filled after_buy_of
  bought_keeps p ids lock_key n price quantity =
      let move : Action (Unit {0}) = in_store (transition_level id n LevelStatus.filled) in
      let write : Action (Unit {0}) = write_level id n without_buy in
      let rest : GridLevel → Action (Unit {0}) =
        λ lv. after_buy_of p id ids lock_key lv price quantity in
      then_keeps HoldsNoPending id (level_of id n) (λ lv. move >> (write >> rest lv))
        (level_of_keeps HoldsNoPending id n)
        (λ lv.
          then_keeps HoldsNoPending id move (λ u. write >> rest lv)
            (move_keeps HoldsNoPending id n LevelStatus.filled (λ x same h. inl refl))
            (λ u.
              then_keeps HoldsNoPending id write (λ v. rest lv)
                (write_level_keeps HoldsNoPending id n without_buy (λ x h. inr refl))
                (λ v e h.
                  after_buy_keeps (lookup id e.grids) (lookup id e.trailing) e.has_profit_lock p ids
                    lock_key lv price quantity e h)))

  reopened_keeps :
      (n : ℕ) (state : Option GridState) → Preserves (Sellable n) id (reopened state id n)
  reopened_keeps n none = λ e h. h
  reopened_keeps n (some state) =
      if_both (Preserves (Sellable n) id) (is_active_grid state.status)
        (in_store (transition_level id n LevelStatus.waiting)) (pure tt)
        (move_keeps (Sellable n) id n LevelStatus.waiting (λ lv same h. reopens n lv same h.1))
        (λ e h. h)

  sold_keeps :
      (n : ℕ) (price quantity : Decimal)
      → Preserves (Sellable n) id (on_sell_filled id n price quantity)
  unfolding on_sell_filled reopen
  sold_keeps n price quantity =
      let move : Action (Unit {0}) = in_store (transition_level id n LevelStatus.tp_hit) in
      let write : Action (Unit {0}) = write_level id n without_sell in
      let cycle : GridLevel → Action (Unit {0}) =
        λ lv. write_grid id (with_cycle price lv.buy_price quantity) in
      then_keeps (Sellable n) id (level_of id n)
        (λ lv. move >> (write >> (cycle lv >> reopen id n))) (level_of_keeps (Sellable n) id n)
        (λ lv.
          then_keeps (Sellable n) id move (λ u. write >> (cycle lv >> reopen id n))
            (move_keeps (Sellable n) id n LevelStatus.tp_hit (λ x same h. (inl refl, h.1)))
            (λ u.
              then_keeps (Sellable n) id write (λ v. cycle lv >> reopen id n)
                (write_level_keeps (Sellable n) id n without_sell (λ x h. h))
                (λ v.
                  then_keeps (Sellable n) id (cycle lv) (λ w. reopen id n)
                    (write_grid_keeps (Sellable n) id (with_cycle price lv.buy_price quantity)
                      (λ x. refl))
                    (λ w e h. reopened_keeps n (lookup id e.grids) e h))))

  step_keeps :
      (e e' : GridEngine)
      → Step id e e'
      → Levels HoldsNoPending id e.grids
      → Levels HoldsNoPending id e'.grids
  unfolding activate_grid resume_grid
  step_keeps e e' (Step.initialized divide account symbol upper lower count investment steps _) h =
      initialize_keeps divide id account symbol upper lower count investment steps e h
  step_keeps e e' (Step.activated p ids price _) h =
      start_keeps p ids price (plan_initial id price) e h
  step_keeps e e' (Step.paused _) h = pause_keeps e h
  step_keeps e e' (Step.resumed p ids price _) h =
      start_keeps p ids price (plan id price false (whole 1)) e h
  step_keeps e e' (Step.closed _) h = close_keeps e h
  step_keeps e e' (Step.bought p ids lock_key n price quantity _) h =
      bought_keeps p ids lock_key n price quantity e h
  step_keeps e e' (Step.sold n price quantity _ k) h =
      one_holds n (list_levels id (on_sell_filled id n price quantity e).1.grids)
        (sold_keeps n price quantity e (both_hold n (list_levels id e.grids) h k))
  step_keeps e e' (Step.forced_buy p ids level price quantity _) h =
      force_buy_keeps id p ids level price quantity e h
  step_keeps e e' (Step.forced_sell p ids level price quantity _) h =
      force_sell_keeps id p ids level price quantity e h
  step_keeps e e' (Step.priced t price _) h = price_keeps t id price e h

  run_keeps :
      (e e' : GridEngine)
      → Following id e e'
      → Levels HoldsNoPending id e.grids
      → Levels HoldsNoPending id e'.grids
  run_keeps e e' (Following.here _) h = h
  run_keeps e e' (Following.after _ m _ before step) h =
      step_keeps m e' step (run_keeps e m before h)

-- From an engine in which the waiting levels of the grid hold no buy order, as where the grid is not
-- known, after every sequence of set-ups, price updates, activations, pauses, resumptions, closings,
-- force operations and fills, in which the sell fills come for levels without a buy order, the
-- cancelling of pending buys that the breaker asks for changes nothing and sends nothing to the
-- exchange.
pub breaker_cancels_nothing :
    (id : ℕ) (e e' : GridEngine)
    → Levels HoldsNoPending id e.grids
    → Following id e e'
    → cancel_all_pending_buys id e' ≡ (ok tt, e')
breaker_cancels_nothing id e e' h reached = all_stay id e' (run_keeps id e e' reached h)
