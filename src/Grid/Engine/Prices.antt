-- ===== src/Grid/Engine/Prices.antt =====
-- The price update of backend/engine/grid/engine.py. What the two gates of technical analysis answer
-- at a price is a parameter, which is none where there are no settings or no candles for them.
use utos.Prelude.{
  ℕ, ◌+◌, Bool, true, false, not, ◌&&◌, ◌||◌, Option, none, some, List, [], ◌∷◌, ok, pure, gets,
  modify, ◌>>=◌, ◌>>◌, if◌then◌else◌, is_some,
}
use utos.Prelude.Decimal.{Decimal, whole}
use utos.Prelude.Dict.{lookup, insert, number_key}
use utos.Execution.Executor.{RetryPolicy}
use utos.Grid.Models.{LevelStatus, GridLevel, GridState}
use utos.Grid.State.{list_levels}
use utos.Grid.Planner.{GridAction, ActionKind, plan}
use utos.Grid.Breaker.{
  BreakerResumeMode, CircuitBreakerState, check_new_day, should_trigger, update_bottom,
  should_resume_trailing, trigger, reset,
}
use utos.ProfitLock.Policy.{Division}
use utos.ProfitLock.Engine
use utos.Grid.Engine.{Action, Ids, write_grid, at_price, place_order, cancel_order}
use utos.Grid.Engine.Fills.{cancel_all_pending_buys, is_active_grid}

-- what a call is given: the day, the time, the division, the retry policy and uuids of orders, the
-- gates, and the key of each level in the profit lock engine
pub record Tick : Type 0 where
  pub today : ℕ
  pub now : ℕ
  pub divide : Division
  pub policy : RetryPolicy
  pub ids : Ids
  pub lock_ids : Ids
  pub lock_key : ℕ → ℕ
  pub gate : Option (Decimal → Bool)
  pub breaker_gate : Option (Decimal → Bool)

abbrev pub set_breaker : ℕ → CircuitBreakerState → Action (Unit {0})
set_breaker id b = modify (λ e. record e { breakers = insert id b e.breakers })

-- Day rollover and trigger check: whether the breaker has just triggered.
unfoldable pub check_breaker : Tick → ℕ → Decimal → Option CircuitBreakerState → Action Bool
check_breaker t id price none = pure false
check_breaker t id price (some b) =
    let b' = check_new_day t.today price b in
    if should_trigger t.divide price b'
    then (do set_breaker id (trigger t.now price b'); cancel_all_pending_buys id; pure true)
    else (do set_breaker id b'; pure false)

abbrev is_widening : BreakerResumeMode → Bool
is_widening BreakerResumeMode.widen_step = true
is_widening _ = false

abbrev pub is_triggered_breaker : Option CircuitBreakerState → Bool
is_triggered_breaker none = false
is_triggered_breaker (some b) = b.triggered

-- widen_mult
abbrev pub widening : Option CircuitBreakerState → Decimal
widening none = whole 1
widening (some b) = if b.triggered && is_widening b.resume_mode then b.widen_multiplier else whole 1

abbrev pub passes : Option (Decimal → Bool) → Decimal → Bool → Bool
passes none price otherwise = otherwise
passes (some gate) price otherwise = gate price

-- Whether buys may go, and whether the breaker is reset, while it is triggered.
abbrev by_mode : BreakerResumeMode → Bool → Bool → Bool × Bool
by_mode BreakerResumeMode.widen_step confirmed recovered = (true, confirmed)
by_mode BreakerResumeMode.trailing_buy confirmed recovered = (recovered, recovered)
by_mode BreakerResumeMode.ta_confirm confirmed recovered = (confirmed, confirmed)

unfoldable pub resume_logic : Tick → Decimal → CircuitBreakerState → Bool × Bool
resume_logic t price b =
    by_mode b.resume_mode (passes t.breaker_gate price false)
      (should_resume_trailing t.divide price b)

abbrev pub triggered_gate : Tick → ℕ → Decimal → CircuitBreakerState → Action Bool
triggered_gate t id price b = do
  let b' = update_bottom price b
  let (passed, resets) = resume_logic t price b'
  set_breaker id (if resets then reset b' else b')
  pure passed

-- ta_gate_passed
unfoldable pub ta_gate : Tick → ℕ → Decimal → Option CircuitBreakerState → Action Bool
ta_gate t id price none = pure (passes t.gate price true)
ta_gate t id price (some b) =
    if b.triggered then triggered_gate t id price b else pure (passes t.gate price true)

-- one action of the plan; `blocked` is breaker_just_triggered or not ta_gate_passed
unfoldable pub act_on : Tick → ℕ → Bool → ℕ → GridAction → ActionKind → Action (Unit {0})
act_on t id blocked n action ActionKind.cancel = cancel_order id action
act_on t id blocked n action ActionKind.place_buy =
    if blocked then pure tt else place_order t.policy id (t.ids n) action
act_on t id blocked n action ActionKind.place_sell = place_order t.policy id (t.ids n) action

unfoldable pub act_each : Tick → ℕ → Bool → ℕ → List GridAction → Action (Unit {0})
act_each t id blocked n [] = pure tt
act_each t id blocked n (action ∷ actions) = do
  act_on t id blocked n action action.action
  act_each t id blocked (n + 1) actions

abbrev pub is_filled : LevelStatus → Bool
is_filled LevelStatus.filled = true
is_filled _ = false

-- the price for the profit lock of a level; an exception is logged and swallowed
unfoldable pub tell_lock : Tick → Decimal → ℕ → ℕ → Action (Unit {0})
tell_lock t price n level e =
    let (r, l) =
      utos.ProfitLock.Engine.on_price_update
        (record {
          divide = t.divide;
          policy = t.policy;
          request_id = (t.lock_ids n).0;
          local_id = (t.lock_ids n).1;
        })
        (t.lock_key level) price (record { store = e.locks; exec = e.exec }) in
    (ok tt, record e { locks = l.store; exec = l.exec })

unfoldable pub tell_locks : Tick → Decimal → ℕ → List GridLevel → Action (Unit {0})
tell_locks t price n [] = pure tt
tell_locks t price n (lv ∷ lvs) = do
  if is_filled lv.status then tell_lock t price n lv.level else pure tt
  tell_locks t price (n + 1) lvs

unfoldable pub forward : Tick → ℕ → Decimal → Action (Unit {0})
forward t id price e =
    (if e.has_profit_lock && is_some (lookup id e.trailing)
        then tell_locks t price 0 (list_levels id e.grids)
        else pure tt)
      e

-- what follows the guards of `on_price_update`
unfoldable pub price_update : Tick → ℕ → Decimal → Action (Unit {0})
price_update t id price = do
  write_grid id (at_price price)
  before ← gets (λ e. lookup id e.breakers)
  just_triggered ← check_breaker t id price before
  breaker ← gets (λ e. lookup id e.breakers)
  actions ← gets (λ e. plan id price (is_triggered_breaker breaker) (widening breaker) e.grids)
  passed ← ta_gate t id price breaker
  act_each t id (just_triggered || not passed) 0 actions
  forward t id price

abbrev pub updated_grid : Option GridState → Tick → ℕ → Decimal → Action (Unit {0})
updated_grid none t id price = pure tt
updated_grid (some state) t id price =
    if is_active_grid state.status then price_update t id price else pure tt

unfoldable pub on_price_update : Tick → ℕ → Decimal → Action (Unit {0})
on_price_update t id price e = updated_grid (lookup id e.grids) t id price e
