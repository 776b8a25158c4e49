-- ===== src/Trading/Process.antt =====
-- backend/core/context.py (ProcessMemory) and backend/engine/trading/process.py. A uuid is a number,
-- an instant its microseconds, and a dictionary or list that is only carried along its JSON text.
pub mod Restore
use utos.Prelude.{ℕ, Bool, true, false, Option, none, some, List, [], ◌∷◌, ◌==◌, if◌then◌else◌, ◌+◌}
use utos.Prelude.Text.{Text, codes, text_eq}
use utos.Prelude.Int.{pos_part, neg_part}
use utos.Prelude.Decimal.{Decimal}
use utos.Trading.StateMachine.{TradingInstanceStatus}

pub record ProcessMemory : Type 0 where
  pub instance_id : ℕ
  pub status : Text
  pub current_price : Option Decimal
  pub last_price_update : Option ℕ
  pub grid_state : Option Text
  pub current_position : Option Text
  pub unrealized_pnl : Decimal
  pub active_orders : Text
  pub order_history : Text
  pub total_cycles : ℕ
  pub total_profit : Decimal
  pub total_fees : Decimal
  pub risk_metrics : Text
  pub strategy_state : Text
  pub market_connected : Bool
  pub account_connected : Bool
  pub last_error : Option Text
  pub error_count : ℕ
  pub last_updated : ℕ
  pub version : ℕ

-- A float is its 64 bits; how decimals become floats and back are arguments.
pub record Floats : Type 0 where
  pub to_float : Decimal → ℕ
  pub of_float : ℕ → Decimal

-- The dictionary of `to_dict`.
pub record MemoryDict : Type 0 where
  pub instance_id : ℕ
  pub status : Text
  pub current_price : Option ℕ
  pub last_price_update : Option ℕ
  pub grid_state : Option Text
  pub current_position : Option Text
  pub unrealized_pnl : ℕ
  pub active_orders : Text
  pub order_history : Text
  pub total_cycles : ℕ
  pub total_profit : ℕ
  pub total_fees : ℕ
  pub risk_metrics : Text
  pub strategy_state : Text
  pub market_connected : Bool
  pub account_connected : Bool
  pub last_error : Option Text
  pub error_count : ℕ
  pub last_updated : ℕ
  pub version : ℕ

-- the truth value of a decimal
abbrev pub is_zero : Decimal → Bool
is_zero d = pos_part d.coefficient + neg_part d.coefficient == 0

-- `float(p) if p else None`
abbrev pub float_or_none : Floats → Option Decimal → Option ℕ
float_or_none floats none = none
float_or_none floats (some p) = if is_zero p then none else some (floats.to_float p)

abbrev pub decimal_or_none : Floats → Option ℕ → Option Decimal
decimal_or_none floats none = none
decimal_or_none floats (some f) = some (floats.of_float f)

unfoldable pub to_dict : Floats → ProcessMemory → MemoryDict
to_dict floats m = record {
  instance_id = m.instance_id;
  status = m.status;
  current_price = float_or_none floats m.current_price;
  last_price_update = m.last_price_update;
  grid_state = m.grid_state;
  current_position = m.current_position;
  unrealized_pnl = floats.to_float m.unrealized_pnl;
  active_orders = m.active_orders;
  order_history = m.order_history;
  total_cycles = m.total_cycles;
  total_profit = floats.to_float m.total_profit;
  total_fees = floats.to_float m.total_fees;
  risk_metrics = m.risk_metrics;
  strategy_state = m.strategy_state;
  market_connected = m.market_connected;
  account_connected = m.account_connected;
  last_error = m.last_error;
  error_count = m.error_count;
  last_updated = m.last_updated;
  version = m.version;
}

unfoldable pub from_dict : Floats → MemoryDict → ProcessMemory
from_dict floats d = record {
  instance_id = d.instance_id;
  status = d.status;
  current_price = decimal_or_none floats d.current_price;
  last_price_update = d.last_price_update;
  grid_state = d.grid_state;
  current_position = d.current_position;
  unrealized_pnl = floats.of_float d.unrealized_pnl;
  active_orders = d.active_orders;
  order_history = d.order_history;
  total_cycles = d.total_cycles;
  total_profit = floats.of_float d.total_profit;
  total_fees = floats.of_float d.total_fees;
  risk_metrics = d.risk_metrics;
  strategy_state = d.strategy_state;
  market_connected = d.market_connected;
  account_connected = d.account_connected;
  last_error = d.last_error;
  error_count = d.error_count;
  last_updated = d.last_updated;
  version = d.version;
}

-- the values of TradingInstanceStatus
unfoldable pub status_value : TradingInstanceStatus → Text
status_value TradingInstanceStatus.created = codes "created"
status_value TradingInstanceStatus.ready = codes "ready"
status_value TradingInstanceStatus.running = codes "running"
status_value TradingInstanceStatus.paused = codes "paused"
status_value TradingInstanceStatus.stopping = codes "stopping"
status_value TradingInstanceStatus.stopped = codes "stopped"
status_value TradingInstanceStatus.error = codes "error"
status_value TradingInstanceStatus.recovering = codes "recovering"
status_value TradingInstanceStatus.recovered = codes "recovered"

abbrev pub all_statuses : List TradingInstanceStatus
all_statuses =
    TradingInstanceStatus.created ∷ TradingInstanceStatus.ready ∷ TradingInstanceStatus.running
    ∷ TradingInstanceStatus.paused ∷ TradingInstanceStatus.stopping ∷ TradingInstanceStatus.stopped
    ∷ TradingInstanceStatus.error ∷ TradingInstanceStatus.recovering
    ∷ TradingInstanceStatus.recovered ∷ []

abbrev pub with_value : Text → List TradingInstanceStatus → Option TradingInstanceStatus
with_value t [] = none
with_value t (s ∷ ss) = if text_eq (status_value s) t then some s else with_value t ss

-- TradingInstanceStatus(value), which raises for any other text
unfoldable pub status_of : Text → Option TradingInstanceStatus
unfolding status_value
status_of t = with_value t all_statuses

-- An adapter is known by the name of its exchange; a lock value is the worker's id with an instant.
pub record TradingProcess : Type 0 where
  pub instance_id : ℕ
  pub user_id : ℕ
  pub exchange_account_id : ℕ
  pub strategy_id : ℕ
  pub symbol : Text
  pub exchange_name : Text
  pub status : TradingInstanceStatus
  pub adapter : Text
  pub memory : ProcessMemory
  pub worker_id : ℕ
  pub lock_value : ℕ × ℕ
  pub subscription_id : Option ℕ

unfoldable pub set_status : TradingInstanceStatus → ℕ → TradingProcess → TradingProcess
set_status status now p = record p {
  status = status;
  memory = record p.memory { status = status_value status; last_updated = now };
}

-- update_memory: the new memory, where one is given, and then the keyword arguments that are its
-- attributes
unfoldable pub update_memory :
    Option ProcessMemory → (ProcessMemory → ProcessMemory) → ℕ → TradingProcess → TradingProcess
update_memory none patch now p = record p {
  memory = record (patch p.memory) { last_updated = now };
}
update_memory (some memory) patch now p = record p {
  memory = record (patch memory) { last_updated = now };
}

pub record Snapshot : Type 0 where
  pub instance_id : ℕ
  pub user_id : ℕ
  pub exchange_account_id : ℕ
  pub strategy_id : ℕ
  pub symbol : Text
  pub exchange_name : Text
  pub status : Text
  pub worker_id : ℕ
  pub lock_value : ℕ × ℕ
  pub memory : MemoryDict

unfoldable pub snapshot : Floats → TradingProcess → Snapshot
snapshot floats p = record {
  instance_id = p.instance_id;
  user_id = p.user_id;
  exchange_account_id = p.exchange_account_id;
  strategy_id = p.strategy_id;
  symbol = p.symbol;
  exchange_name = p.exchange_name;
  status = status_value p.status;
  worker_id = p.worker_id;
  lock_value = p.lock_value;
  memory = to_dict floats p.memory;
}

abbrev pub rebuilt : Floats → Snapshot → Text → Option TradingInstanceStatus → Option TradingProcess
rebuilt floats d adapter none = none
rebuilt floats d adapter (some status) = some (record {
  instance_id = d.instance_id;
  user_id = d.user_id;
  exchange_account_id = d.exchange_account_id;
  strategy_id = d.strategy_id;
  symbol = d.symbol;
  exchange_name = d.exchange_name;
  status = status;
  adapter = adapter;
  memory = from_dict floats d.memory;
  worker_id = d.worker_id;
  lock_value = d.lock_value;
  subscription_id = none;
})

-- `none` is the ValueError of a status that is none of the nine.
unfoldable pub from_snapshot : Floats → Snapshot → Text → Option TradingProcess
from_snapshot floats d adapter = rebuilt floats d adapter (status_of d.status)
