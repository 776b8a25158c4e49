-- ===== src/Recovery/Reconciler.antt =====
-- backend/engine/recovery/reconciler.py: local state against that of the exchange. Its portfolio is
-- an argument. What that raises for a position is caught.
pub mod Grid
use utos.Prelude.{
  ℕ, ◌+◌, ◌==◌, Bool, true, false, not, ◌&&◌, ◌||◌, Option, none, some, is_some, List, [], ◌∷◌,
  ◌++◌, Result, ok, err, if◌then◌else◌, filter, length,
}
use utos.Prelude.Text.{Text, text_eq, codes}
use utos.Prelude.Decimal.{Decimal}
use utos.Execution.Models.{OrderResult}
use utos.Grid.Models.{LevelStatus, GridLevel}
use utos.Risk.Portfolio.{Position, Portfolio, PortfolioFault, register_position, close_position}

pub data ReconciliationAction : Type 0 where
  restored skipped : ReconciliationAction

-- what was counted; the details are texts
pub record ReconciliationResult : Type 0 where
  pub action : ReconciliationAction
  pub count : ℕ

pub record PositionEntry : Type 0 where
  pub symbol : Text
  pub side : Text
  pub entry_price : Decimal
  pub quantity : Decimal

abbrev pub is_filled : OrderResult → Bool
is_filled order = text_eq order.status (codes "filled")

abbrev pub is_cancelled : OrderResult → Bool
is_cancelled order = text_eq order.status (codes "cancelled")

abbrev pub is_over : OrderResult → Bool
is_over order = is_filled order || is_cancelled order

-- live_order_map[id]: of orders with one id the last one counts
unfoldable pub find_order : ℕ → List OrderResult → Option OrderResult
find_order id [] = none
find_order id (order ∷ orders) =
    let rest = find_order id orders in
    if is_some rest then rest else (if order.exchange_order_id == id then some order else none)

abbrev pub order_of : Option ℕ → List OrderResult → Option OrderResult
order_of none orders = none
order_of (some id) orders = find_order id orders

abbrev pub is_open : LevelStatus → Bool
is_open LevelStatus.opened = true
is_open _ = false

abbrev pub is_filled_level : LevelStatus → Bool
is_filled_level LevelStatus.filled = true
is_filled_level _ = false

abbrev pub is_hit : LevelStatus → Bool
is_hit LevelStatus.tp_hit = true
is_hit _ = false

-- the id is in live_order_ids
unfoldable pub is_live : ℕ → List OrderResult → Bool
is_live id [] = false
is_live id (order ∷ orders) =
    (not (is_over order) && order.exchange_order_id == id) || is_live id orders

abbrev pub is_lost : Option ℕ → List OrderResult → Bool
is_lost none orders = false
is_lost (some id) orders = not (is_live id orders)

unfoldable pub find_missing_orders : List GridLevel → List OrderResult → List GridLevel
unfolding is_live
find_missing_orders levels orders =
    filter
      (λ lv.
        is_open lv.status && (is_lost lv.buy_order_id orders || is_lost lv.sell_order_id orders))
      levels

abbrev pub is_id : ℕ → Option ℕ → Bool
is_id id none = false
is_id id (some i) = i == id

-- the id is in local_order_ids
unfoldable pub is_local : ℕ → List GridLevel → Bool
is_local id [] = false
is_local id (lv ∷ lvs) = (is_id id lv.buy_order_id || is_id id lv.sell_order_id) || is_local id lvs

unfoldable pub find_orphan_orders : List GridLevel → List OrderResult → List OrderResult
unfolding is_local
find_orphan_orders levels orders =
    filter (λ o. not (is_over o) && not (is_local o.exchange_order_id levels)) orders

-- The first `if` of the loop of reconcile_grid: the level, and whether it was changed.
abbrev pub sync_buy : Option OrderResult → GridLevel → GridLevel × Bool
sync_buy none lv = (lv, false)
sync_buy (some order) lv =
    if is_filled order
    then (if is_filled_level lv.status
        then (lv, false)
        else (record lv { status = LevelStatus.filled }, true))
    else (if is_cancelled order && is_open lv.status
        then (record lv { status = LevelStatus.waiting; buy_order_id = none }, true)
        else (lv, false))

-- the second one
abbrev pub sync_sell : Option OrderResult → GridLevel → GridLevel × Bool
sync_sell none lv = (lv, false)
sync_sell (some order) lv =
    if is_filled order
    then (if is_hit lv.status
        then (lv, false)
        else (record lv { status = LevelStatus.tp_hit }, true))
    else (if is_cancelled order && is_open lv.status
        then (record lv { sell_order_id = none }, true)
        else (lv, false))

abbrev pub one_if : Bool → ℕ
one_if true = 1
one_if false = 0

-- one round of phase 1: the level and how many times it was changed
unfoldable pub sync_level : List OrderResult → GridLevel → GridLevel × ℕ
unfolding find_order
sync_level orders lv =
    let (lv', bought) = sync_buy (order_of lv.buy_order_id orders) lv in
    let (lv'', sold) = sync_sell (order_of lv'.sell_order_id orders) lv' in
    (lv'', one_if bought + one_if sold)

unfoldable pub sync_levels : List OrderResult → List GridLevel → List GridLevel × ℕ
unfolding sync_level
sync_levels orders [] = ([], 0)
sync_levels orders (lv ∷ lvs) =
    let (lv', n) = sync_level orders lv in
    let (lvs', m) = sync_levels orders lvs in (lv' ∷ lvs', n + m)

abbrev pub action_of : ℕ → ReconciliationAction
action_of n = if n == 0 then skipped else restored

-- reconcile_grid: the levels of the grid and the result
unfoldable pub reconcile_grid :
    List OrderResult → List GridLevel → List GridLevel × ReconciliationResult
unfolding sync_levels find_missing_orders find_orphan_orders
reconcile_grid orders levels =
    let (levels', n) = sync_levels orders levels in
    (
      levels',
      record {
        action = action_of n;
        count =
            n
            + length (find_missing_orders levels' orders)
            + length (find_orphan_orders levels' orders);
      },
    )

unfoldable pub symbol_member : Text → List PositionEntry → Bool
symbol_member t [] = false
symbol_member t (p ∷ ps) = text_eq p.symbol t || symbol_member t ps

unfoldable pub open_symbol : Text → List Position → Bool
open_symbol t [] = false
open_symbol t (p ∷ ps) = (not p.closed && text_eq p.symbol t) || open_symbol t ps

abbrev pub counted : {A : Type 0} → Result PortfolioFault A → ℕ
counted (ok a) = 1
counted (err x) = 0

-- phase 1: positions that are only on the exchange, under the id of the instance and the symbol
unfoldable pub add_missing : Text → List Position → List PositionEntry → Portfolio → ℕ × Portfolio
unfolding open_symbol register_position
add_missing instance_id locals [] p = (0, p)
add_missing instance_id locals (entry ∷ entries) p =
    let (r, p') =
      register_position (instance_id ++ (codes "-reconciled-" ++ entry.symbol))
        (codes "reconciled-" ++ instance_id) (codes "reconciled") entry.symbol entry.side
        entry.entry_price entry.quantity p in
    let (n, q) =
      add_missing instance_id locals entries (if open_symbol entry.symbol locals then p else p') in
    (if open_symbol entry.symbol locals then n else counted r + n, q)

-- phase 2: open positions whose symbol is not on the exchange
unfoldable pub close_stale : ℕ → List PositionEntry → List Position → Portfolio → ℕ × Portfolio
unfolding symbol_member close_position
close_stale now entries [] p = (0, p)
close_stale now entries (position ∷ positions) p =
    let stale = not position.closed && not (symbol_member position.symbol entries) in
    let (r, p') = close_position now position.instance_id p in
    let (n, q) = close_stale now entries positions (if stale then p' else p) in
    (if stale then counted r + n else n, q)

unfoldable pub reconcile_portfolio :
    ℕ → Text → List Position → List PositionEntry → Portfolio → ReconciliationResult × Portfolio
unfolding add_missing close_stale
reconcile_portfolio now instance_id locals entries p =
    let (n, p') = add_missing instance_id locals entries p in
    let (m, p'') = close_stale now entries locals p' in
    (record { action = action_of (n + m); count = n + m }, p'')
