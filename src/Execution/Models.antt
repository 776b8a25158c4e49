-- ===== src/Execution/Models.antt =====
-- backend/engine/execution/models.py, the order types of backend/core/domain_types.py and the
-- exceptions that the engine tells apart (backend/core/exceptions.py, execution/exceptions.py). The
-- error texts of a tracked order and the metadata of a request are not modelled.
-- UUIDs and order ids are only compared, so they are numbers; `no_id` stands for the empty string.
use utos.Prelude.{ℕ, Bool, true, false, Option}
use utos.Prelude.Text.{Text}
use utos.Prelude.Decimal.{Decimal}

pub data OrderSide : Type 0 where
  buy sell : OrderSide

pub data OrderType : Type 0 where
  limit market stop_limit : OrderType

-- `opened` is the source's OPEN.
pub data Status : Type 0 where
  pending submitting opened partially_filled filled cancelling cancelled rejected failed : Status

abbrev pub no_id : ℕ
no_id = 0

pub record OrderRequest : Type 0 where
  pub request_id : ℕ
  pub exchange_account_id : ℕ
  pub symbol : Text
  pub side : OrderSide
  pub order_type : OrderType
  pub quantity : Decimal
  pub price : Option Decimal
  pub stop_price : Option Decimal
  pub client_order_id : Option ℕ

pub record OrderResult : Type 0 where
  pub order_id : ℕ
  pub exchange_order_id : ℕ
  pub symbol : Text
  pub side : OrderSide
  pub order_type : OrderType
  pub quantity : Decimal
  pub price : Option Decimal
  pub filled_quantity : Decimal
  pub average_fill_price : Option Decimal
  pub status : Text
  pub created_at : ℕ
  pub updated_at : ℕ

pub record TrackedOrder : Type 0 where
  pub request_id : ℕ
  pub exchange_account_id : ℕ
  pub result : OrderResult
  pub status : Status
  pub created_at : ℕ
  pub updated_at : ℕ
  pub retry_count : ℕ

abbrev is_active_status : Status → Bool
is_active_status Status.pending = true
is_active_status Status.submitting = true
is_active_status Status.opened = true
is_active_status Status.partially_filled = true
is_active_status Status.cancelling = true
is_active_status _ = false

-- TrackedOrder.is_active
abbrev pub is_active : TrackedOrder → Bool
is_active order = is_active_status order.status

-- Why OrderValidator refuses a request.
pub data ValidationFault : Type 0 where
  symbol_required bad_quantity price_required stop_price_required price_not_allowed :
      ValidationFault

-- `other` is any exception that the engine does not name.
pub data Failure : Type 0 where
  order_validation : ValidationFault → Failure
  invalid_transition : Status → Status → Failure
  order_execution order_not_found : Failure
  exchange exchange_connection exchange_rate_limit : Failure
  timeout retryable insufficient_balance order_already_filled other : Failure

-- isinstance(exc, ExchangeError)
abbrev pub is_exchange_error : Failure → Bool
is_exchange_error Failure.exchange = true
is_exchange_error Failure.exchange_connection = true
is_exchange_error Failure.exchange_rate_limit = true
is_exchange_error Failure.order_execution = true
is_exchange_error _ = false
