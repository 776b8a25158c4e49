-- ===== src/Grid/Planner.antt =====
-- backend/engine/grid/planner.py: the orders that a grid should place or cancel at a price. The set
-- of skipped levels is a list. An order id is never the empty string, so that `or` asks for None.
pub mod Widen
pub mod Cover
use utos.Prelude.{
  ℕ, ◌+◌, ◌/◌, ◌%◌, ◌^◌, ◌==◌, ltb, Bool, true, false, not, ◌&&◌, ◌||◌, Option, none, some, List,
  [], ◌∷◌, is_some, if◌then◌else◌,
}
use utos.Prelude.Int.{pos_part}
use utos.Prelude.Decimal.{Decimal, whole, le_dec, lt_dec}
use utos.Grid.Models.{LevelStatus, GridLevel}
use utos.Grid.State.{Store, list_levels}

pub data ActionKind : Type 0 where
  place_buy place_sell cancel : ActionKind

pub data Side : Type 0 where
  buy sell : Side

pub record GridAction : Type 0 where
  pub level : ℕ
  pub action : ActionKind
  pub side : Side
  pub price : Decimal
  pub quantity : Decimal
  pub order_id : Option ℕ

abbrev pub buy_at : GridLevel → GridAction
buy_at lv = record {
  level = lv.level;
  action = ActionKind.place_buy;
  side = Side.buy;
  price = lv.buy_price;
  quantity = lv.quantity;
  order_id = none;
}

abbrev pub sell_at : GridLevel → GridAction
sell_at lv = record {
  level = lv.level;
  action = ActionKind.place_sell;
  side = Side.sell;
  price = lv.sell_price;
  quantity = lv.quantity;
  order_id = none;
}

abbrev plan_status : LevelStatus → GridLevel → Decimal → Option GridAction
plan_status LevelStatus.waiting lv current_price =
    if le_dec current_price lv.buy_price then some (buy_at lv) else none
plan_status LevelStatus.filled lv current_price =
    if le_dec lv.sell_price current_price then some (sell_at lv) else none
plan_status LevelStatus.tp_hit lv current_price = some (buy_at lv)
plan_status _ lv current_price = none

-- _plan_level
unfoldable pub plan_level : GridLevel → Decimal → Option GridAction
plan_level lv current_price = plan_status lv.status lv current_price

abbrev pub is_place_buy : ActionKind → Bool
is_place_buy ActionKind.place_buy = true
is_place_buy _ = false

unfoldable pub skipped : ℕ → List ℕ → Bool
skipped n [] = false
skipped n (m ∷ ms) = m == n || skipped n ms

-- {lv.level for lv in levels if lv.level % mult_int != 0}
unfoldable pub not_multiples : ℕ → List GridLevel → List ℕ
not_multiples mult_int [] = []
not_multiples mult_int (lv ∷ lvs) =
    if lv.level % mult_int == 0
    then not_multiples mult_int lvs
    else lv.level ∷ not_multiples mult_int lvs

-- int(widen_multiplier), of a multiplier above zero
unfoldable pub truncate : Decimal → ℕ
truncate d = pos_part d.coefficient / (10 ^ d.places)

unfoldable pub skip_buy_levels : Bool → Decimal → List GridLevel → Option (List ℕ)
unfolding truncate not_multiples le_dec
skip_buy_levels breaker_active widen_multiplier levels =
    if breaker_active && (lt_dec (whole 1) widen_multiplier && ltb 1 (truncate widen_multiplier))
    then some (not_multiples (truncate widen_multiplier) levels)
    else none

abbrev is_skipped : Option (List ℕ) → GridAction → Bool
is_skipped none a = false
is_skipped (some skip) a = if is_place_buy a.action then skipped a.level skip else false

abbrev keep : Option (List ℕ) → Option GridAction → List GridAction → List GridAction
keep skip none actions = actions
keep skip (some a) actions = if is_skipped skip a then actions else a ∷ actions

-- the loop over the levels
unfoldable pub plan_each : Option (List ℕ) → Decimal → List GridLevel → List GridAction
unfolding plan_level skipped
plan_each skip current_price [] = []
plan_each skip current_price (lv ∷ lvs) =
    keep skip (plan_level lv current_price) (plan_each skip current_price lvs)

unfoldable pub plan : ℕ → Decimal → Bool → Decimal → Store → List GridAction
unfolding plan_each skip_buy_levels list_levels
plan id current_price breaker_active widen_multiplier g =
    let levels = list_levels id g in
    plan_each (skip_buy_levels breaker_active widen_multiplier levels) current_price levels

abbrev is_waiting : LevelStatus → Bool
is_waiting LevelStatus.waiting = true
is_waiting _ = false

unfoldable pub plan_initial_each : Decimal → List GridLevel → List GridAction
plan_initial_each current_price [] = []
plan_initial_each current_price (lv ∷ lvs) =
    if is_waiting lv.status && lt_dec lv.buy_price current_price
    then buy_at lv ∷ plan_initial_each current_price lvs
    else plan_initial_each current_price lvs

unfoldable pub plan_initial : ℕ → Decimal → Store → List GridAction
unfolding plan_initial_each list_levels
plan_initial id current_price g = plan_initial_each current_price (list_levels id g)

abbrev pub is_open : LevelStatus → Bool
is_open LevelStatus.opened = true
is_open _ = false

-- lv.buy_order_id or lv.sell_order_id
abbrev pub either_order : GridLevel → Option ℕ
either_order lv = elim lv.buy_order_id [ none ↦ lv.sell_order_id | some id ↦ some id ]

abbrev pub cancel_at : GridLevel → ℕ → GridAction
cancel_at lv order_id = record {
  level = lv.level;
  action = ActionKind.cancel;
  side = (if is_some lv.buy_order_id then Side.buy else Side.sell);
  price = lv.buy_price;
  quantity = lv.quantity;
  order_id = some order_id;
}

unfoldable pub plan_cancel_each : List GridLevel → List GridAction
plan_cancel_each [] = []
plan_cancel_each (lv ∷ lvs) =
    let rest = plan_cancel_each lvs in
    if is_open lv.status
    then elim (either_order lv) [ none ↦ rest | some order_id ↦ cancel_at lv order_id ∷ rest ]
    else rest

unfoldable pub plan_cancel_all : ℕ → Store → List GridAction
unfolding plan_cancel_each list_levels
plan_cancel_all id g = plan_cancel_each (list_levels id g)
