-- ===== src/Execution/Validator.antt =====
-- backend/engine/execution/validator.py. The checks of request_id, exchange_account_id, side and
-- order_type refuse values that are not of the declared types; the types of the model exclude them.
pub mod Accepts
use utos.Prelude.{
  ℕ, Bool, true, false, Option, none, some, ◌&&◌, ◌||◌, Result, ok, err, if◌then◌else◌, is_some,
  not,
}
use utos.Prelude.Text.{Text, is_blank}
use utos.Prelude.Decimal.{Decimal, whole, le_dec}
use utos.Execution.Models.{
  OrderRequest, OrderType, limit, market, stop_limit, ValidationFault, symbol_required,
  bad_quantity, price_required, stop_price_required, price_not_allowed, Failure, order_validation,
}

-- amount <= 0
unfoldable pub is_not_positive : Decimal → Bool
is_not_positive amount = le_dec amount (whole 0)

-- amount is None or amount <= 0
unfoldable pub lacks : Option Decimal → Bool
lacks none = true
lacks (some amount) = is_not_positive amount

abbrev is_limit_like : OrderType → Bool
is_limit_like limit = true
is_limit_like market = false
is_limit_like stop_limit = true

abbrev is_stop_limit : OrderType → Bool
is_stop_limit stop_limit = true
is_stop_limit _ = false

abbrev is_market : OrderType → Bool
is_market market = true
is_market _ = false

-- the guards, in order, over the fields that they read
pub check : Text → Decimal → OrderType → Option Decimal → Option Decimal → Result Failure (Unit {0})
unfolding lacks
check symbol quantity order_type price stop_price =
    if is_blank symbol
    then err (order_validation symbol_required)
    else if is_not_positive quantity
    then err (order_validation bad_quantity)
    else if is_limit_like order_type && lacks price
    then err (order_validation price_required)
    else if is_stop_limit order_type && lacks stop_price
    then err (order_validation stop_price_required)
    else if is_market order_type && is_some price
    then err (order_validation price_not_allowed)
    else ok tt

unfoldable pub validate : OrderRequest → Result Failure (Unit {0})
unfolding check
validate request =
    check request.symbol request.quantity request.order_type request.price request.stop_price
