-- ===== src/Recovery/Tests.antt =====
-- Runs of the recovery at concrete inputs.
use utos.Prelude.{
  ℕ, zero, suc, ◌+◌, ◌≡◌, refl, Bool, true, false, Option, none, some, List, [], ◌∷◌, Result, ok,
  err, All, arith, length,
}
use utos.Prelude.Text.{Text, codes}
use utos.Prelude.Decimal.{whole}
use utos.Prelude.Dict.{lookup, insert, text_key}
use utos.Execution.Models.{OrderResult, OrderSide, OrderType}
use utos.Grid.Models.{GridLevel, LevelStatus}
use utos.Risk.Portfolio.{Portfolio, Position, opened, long}
use utos.Recovery.Connection.{
  QueuedOrder, ConnectionRecovery, on_exchange_reconnect, is_exchange_connected,
}
use utos.Recovery.Connection.Replay.{reconnect_replays, after_all, results_of, answers}
use utos.Recovery.Reconciler.{reconcile_grid}
use utos.Recovery.Reconciler.Grid.{Becomes, Pairwise, reconcile_grid_settles}
use utos.Recovery.Coordinator.{
  InstanceContext, Sources, RecoveryCoordinator, RecoveryReport, recover_instance,
}
use utos.Recovery.Coordinator.Outcome.{Completes, recover_instance-Completes}
use utos.Recovery.Coordinator.Positions.{AllClosed, Keyed, Keyed-insert, recover_instance_closes}

abbrev order_for : Text → QueuedOrder
order_for instance_id = record {
  instance_id = instance_id;
  account_id = codes "a";
  exchange = codes "x";
  symbol = codes "BTCUSDT";
  side = codes "buy";
  quantity = whole 1;
  price = whole 100;
  queued_at = 5;
}

abbrev lost : ConnectionRecovery
lost = record {
  redis_connected = true;
  postgres_connected = true;
  exchange_connected = (codes "x", false) ∷ [];
  subscribed_symbols = (codes "a", codes "BTCUSDT" ∷ []) ∷ [];
  order_queue = order_for (codes "i") ∷ order_for (codes "j") ∷ [];
  reconnect_attempts = [];
  redis_recoveries = 0;
  postgres_recoveries = 0;
  exchange_reconnects = 0;
  orders_queued = 2;
  orders_replayed = 0;
  orders_replayed_failed = 0;
}

-- an exchange that takes one order
abbrev place : QueuedOrder → ℕ → Result ℕ ℕ × ℕ
place order zero = (err 1, zero)
place order (suc n) = (ok n, n)

reconnect_replays_example :
    let r = on_exchange_reconnect (some place) true (codes "x") (codes "a") lost 1 in
    (r.2 ≡ after_all place lost.order_queue 1)
    × (r.0 ≡ results_of (answers place lost.order_queue 1))
    × (r.1.order_queue ≡ [])
    × (r.1.orders_replayed ≡ lost.orders_replayed + length r.0)
    × (r.1.orders_replayed + r.1.orders_replayed_failed
        ≡ lost.orders_replayed + lost.orders_replayed_failed + length lost.order_queue)
    × (is_exchange_connected (codes "x") r.1 ≡ true)
reconnect_replays_example = reconnect_replays place true (codes "x") (codes "a") lost 1

abbrev filled_order : OrderResult
filled_order = record {
  order_id = 55;
  exchange_order_id = 55;
  symbol = codes "BTCUSDT";
  side = OrderSide.buy;
  order_type = OrderType.limit;
  quantity = whole 2;
  price = some (whole 100);
  filled_quantity = whole 2;
  average_fill_price = some (whole 100);
  status = codes "filled";
  created_at = 1;
  updated_at = 2;
}

abbrev open_level : GridLevel
open_level = record {
  level = 0;
  buy_price = whole 100;
  sell_price = whole 110;
  quantity = whole 2;
  buy_order_id = some 55;
  sell_order_id = none;
  status = LevelStatus.opened;
}

reconcile_grid_settles_example :
    let orders = filled_order ∷ [] in
    let levels = open_level ∷ [] in
    Pairwise (Becomes orders) levels (reconcile_grid orders levels).0
    × ((reconcile_grid orders (reconcile_grid orders levels).0).0
        ≡ (reconcile_grid orders levels).0)
reconcile_grid_settles_example = reconcile_grid_settles (filled_order ∷ []) (open_level ∷ [])

abbrev context : InstanceContext
context = record {
  account_id = codes "a";
  exchange = codes "x";
  symbol = codes "BTCUSDT";
  has_grid = true;
  has_profit_lock = false;
}

-- nothing answers but the exchange, which has one position
abbrev sources : Sources
sources = record {
  redis_check = some (err 1);
  postgres_check = some (ok false);
  load_instance = some (λ id. ok false);
  load_grid = none;
  fetch_positions = some (λ id. ok (
      record {
        symbol = codes "BTCUSDT";
        side = codes "long";
        entry_price = whole 100;
        quantity = whole 1;
      }
      ∷ []));
}

abbrev held : Text → Position
held id = opened id (codes "a") (codes "x") (codes "ETHUSDT") long (whole 10) (whole 2)

-- a position that its fills closed and an open one
abbrev before : Portfolio
before = record {
  positions =
      (codes "j", record (held (codes "j")) { closed = true; quantity = whole 0 })
      ∷ (codes "k", held (codes "k"))
      ∷ [];
  closed_positions = [];
}

abbrev coordinator : RecoveryCoordinator
coordinator = record {
  instances = (codes "i", context) ∷ [];
  statuses = [];
  checkpoints = [];
  connections = lost;
  portfolio = before;
  reconciler_portfolio = none;
  recoveries_started = 0;
  recoveries_completed = 0;
  recoveries_failed = 0;
}

recover_instance-Completes_example :
    let r = recover_instance sources 5 6 (codes "i") coordinator in
    (report : RecoveryReport) × (r.0 ≡ some report) × Completes (codes "i") coordinator r.1 report
unfolding lookup utos.Prelude.Text.text_eq
recover_instance-Completes_example =
    recover_instance-Completes sources 5 6 (codes "i") context coordinator refl

abbrev no_positions : Portfolio
no_positions = record { positions = []; closed_positions = [] }

no_positions-Keyed : Keyed no_positions
unfolding Keyed lookup
no_positions-Keyed k q e = ground (arith, e)

abbrev closed_position : Position
closed_position = record (held (codes "j")) { closed = true; quantity = whole 0 }

before-Keyed : Keyed before
unfolding insert utos.Prelude.Text.text_eq
before-Keyed =
    Keyed-insert (codes "k") (held (codes "k"))
      (record { positions = (codes "j", closed_position) ∷ []; closed_positions = [] }) refl
      (Keyed-insert (codes "j") closed_position no_positions refl no_positions-Keyed)

recover_instance_closes_example :
    AllClosed (recover_instance sources 5 6 (codes "i") coordinator).1.portfolio
unfolding lookup utos.Prelude.Text.text_eq
recover_instance_closes_example =
    recover_instance_closes sources 5 6 (codes "i") context coordinator refl before-Keyed
