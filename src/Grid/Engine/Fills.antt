-- ===== src/Grid/Engine/Fills.antt =====
-- The fills of backend/engine/grid/engine.py, and the cancelling of pending buys by its breaker.
use utos.Prelude.{
  ℕ, ◌+◌, Bool, true, false, Option, none, some, List, [], ◌∷◌, ok, err, pure, ◌>>=◌, ◌>>◌,
  if◌then◌else◌,
}
use utos.Prelude.Decimal.{Decimal, add_dec, sub_dec, mul_dec}
use utos.Prelude.Dict.{lookup, number_key}
use utos.Execution.Executor.{RetryPolicy}
use utos.Execution.Engine
use utos.Grid.Models.{LevelStatus, GridStatus, GridLevel, GridState}
use utos.Grid.State.{transition_level}
use utos.Grid.Planner.{sell_at}
use utos.ProfitLock.State.{PositionSide}
use utos.ProfitLock.Engine.Settings.{enable}
use utos.Grid.Engine.{
  TrailingConfig, Action, in_store, write_grid, write_level, level_of, place_order,
}

abbrev pub without_buy : GridLevel → GridLevel
without_buy lv = record lv { buy_order_id = none }

abbrev pub without_sell : GridLevel → GridLevel
without_sell lv = record lv { sell_order_id = none }

abbrev pub is_active_grid : GridStatus → Bool
is_active_grid GridStatus.active = true
is_active_grid _ = false

-- the trailing profit of a filled level; an exception is logged and swallowed
unfoldable pub enable_trailing :
    ℕ → GridState → Decimal → Decimal → TrailingConfig → Action (Unit {0})
enable_trailing lock_key state fill_price quantity t e =
    let (r, l) =
      enable lock_key state.exchange_account_id state.symbol fill_price quantity PositionSide.long
        t.trigger_percentage t.trail_percentage t.max_profit_percentage
        (record { store = e.locks; exec = e.exec }) in
    (ok tt, record e { locks = l.store; exec = l.exec })

-- what follows the transition of a bought level: its sell order, or its trailing profit
abbrev pub after_buy :
    Option GridState
    → Option TrailingConfig
    → Bool
    → RetryPolicy
    → ℕ
    → ℕ × ℕ
    → ℕ
    → GridLevel
    → Decimal
    → Decimal
    → Action (Unit {0})
after_buy none trailing has_lock p id ids lock_key lv fill_price quantity = pure tt
after_buy (some state) none has_lock p id ids lock_key lv fill_price quantity =
    if is_active_grid state.status then place_order p id ids (sell_at lv) else pure tt
after_buy (some state) (some t) has_lock p id ids lock_key lv fill_price quantity =
    if has_lock then enable_trailing lock_key state fill_price quantity t else pure tt

unfoldable pub after_buy_of :
    RetryPolicy → ℕ → ℕ × ℕ → ℕ → GridLevel → Decimal → Decimal → Action (Unit {0})
after_buy_of p id ids lock_key lv fill_price quantity e =
    after_buy (lookup id e.grids) (lookup id e.trailing) e.has_profit_lock p id ids lock_key lv
      fill_price quantity e

-- `lock_key` is the key of the level in the profit lock engine.
unfoldable pub on_buy_filled :
    RetryPolicy → ℕ → ℕ × ℕ → ℕ → ℕ → Decimal → Decimal → Action (Unit {0})
on_buy_filled p id ids lock_key grid_level fill_price quantity = do
  lv ← level_of id grid_level
  in_store (transition_level id grid_level LevelStatus.filled)
  write_level id grid_level without_buy
  after_buy_of p id ids lock_key lv fill_price quantity

-- total_cycles += 1, total_profit += (fill_price - buy_price) * quantity
abbrev pub with_cycle : Decimal → Decimal → Decimal → GridState → GridState
with_cycle fill_price buy_price quantity state = record state {
  total_cycles = state.total_cycles + 1;
  total_profit = add_dec state.total_profit (mul_dec (sub_dec fill_price buy_price) quantity);
}

abbrev pub reopened : Option GridState → ℕ → ℕ → Action (Unit {0})
reopened none id grid_level = pure tt
reopened (some state) id grid_level =
    if is_active_grid state.status
    then in_store (transition_level id grid_level LevelStatus.waiting)
    else pure tt

unfoldable pub reopen : ℕ → ℕ → Action (Unit {0})
reopen id grid_level e = reopened (lookup id e.grids) id grid_level e

-- The `get_state` of the profit lock engine is a coroutine function and its call is not awaited: the
-- attribute `enabled` of the coroutine raises, and the handler passes, so that the block that is to
-- disable the profit lock changes nothing.
unfoldable pub on_sell_filled : ℕ → ℕ → Decimal → Decimal → Action (Unit {0})
on_sell_filled id grid_level fill_price quantity = do
  lv ← level_of id grid_level
  in_store (transition_level id grid_level LevelStatus.tp_hit)
  write_level id grid_level without_sell
  write_grid id (with_cycle fill_price lv.buy_price quantity)
  reopen id grid_level

abbrev pub is_waiting_level : LevelStatus → Bool
is_waiting_level LevelStatus.waiting = true
is_waiting_level _ = false

-- a failure to cancel is logged and swallowed
abbrev pub cancel_pending : Option ℕ → ℕ → ℕ → GridLevel → Action (Unit {0})
cancel_pending none account id lv e = (ok tt, e)
cancel_pending (some order_id) account id lv e =
    let (r, w) = Engine.cancel_order account order_id e.exec in
    elim r [
      | ok result ↦ write_level id lv.level without_buy (record e { exec = w })
      | err x ↦ (ok tt, record e { exec = w })
    ]

unfoldable pub cancel_pending_each : ℕ → ℕ → List GridLevel → Action (Unit {0})
cancel_pending_each account id [] = pure tt
cancel_pending_each account id (lv ∷ lvs) = do
  if is_waiting_level lv.status then cancel_pending lv.buy_order_id account id lv else pure tt
  cancel_pending_each account id lvs

abbrev cancel_found : Option GridState → ℕ → Action (Unit {0})
cancel_found none id = pure tt
cancel_found (some state) id = cancel_pending_each state.exchange_account_id id state.levels

unfoldable pub cancel_all_pending_buys : ℕ → Action (Unit {0})
cancel_all_pending_buys id e = cancel_found (lookup id e.grids) id e
