-- ===== src/Execution/Executor.antt =====
-- backend/engine/execution/executor.py, and the adapter interface that it calls
-- (backend/adapters/base.py). An exchange answers as it likes: each answer may depend on how many
-- calls it has had. The calls and the pauses are kept in a log. Pauses are in whole seconds.
pub mod Retry
use utos.Prelude.{
  ℕ, zero, suc, ◌+◌, ◌*◌, ◌==◌, min, Bool, true, false, Option, none, some, List, [], ◌∷◌, ◌||◌,
  Result, ok, err, length, if◌then◌else◌,
}
use utos.Prelude.Text.{Text, upper}
use utos.Prelude.Dict.{Dict}
use utos.Execution.Models.{OrderRequest, OrderResult, Failure, is_exchange_error}
use utos.Execution.Tracker.{OrderTracker}

-- What reaches an exchange, and the pauses between attempts.
pub data Event : Type 0 where
  placed : OrderRequest → Event
  cancel_sent : Text → ℕ → Event
  order_fetched : Text → ℕ → Event
  open_orders_fetched : Option Text → Event
  slept : ℕ → Event

-- The first argument is the number of events before the call.
pub record Adapter : Type 0 where
  pub place_order : ℕ → OrderRequest → Result Failure OrderResult
  pub cancel_order : ℕ → Text → ℕ → Result Failure Bool
  pub get_order : ℕ → Text → ℕ → Result Failure OrderResult
  pub get_open_orders : ℕ → Option Text → Result Failure (List OrderResult)

-- What the methods of the engine read and write.
pub record World : Type 0 where
  pub tracker : OrderTracker
  pub adapters : Dict ℕ Adapter
  pub log : List Event
  pub clock : ℕ

abbrev pub record_event : Event → World → World
record_event e w = record w { log = e ∷ w.log }

pub record RetryPolicy : Type 0 where
  pub max_retries : ℕ
  pub base_delay : ℕ
  pub max_delay : ℕ
  pub backoff_multiplier : ℕ

-- the exceptions that `execute` retries
abbrev pub is_transient : Failure → Bool
is_transient Failure.exchange_connection = true
is_transient Failure.exchange_rate_limit = true
is_transient Failure.timeout = true
is_transient Failure.retryable = true
is_transient _ = false

abbrev is_insufficient_balance : Failure → Bool
is_insufficient_balance Failure.insufficient_balance = true
is_insufficient_balance _ = false

-- what a failure that is not retried becomes
abbrev pub translate : Failure → Failure
translate e =
    if is_exchange_error e || is_insufficient_balance e then Failure.order_execution else e

-- The exchange is sent the upper-case symbol.
abbrev pub sent : OrderRequest → OrderRequest
sent request = record request { symbol = upper request.symbol }

-- what one answer of the exchange leads to; `again` is the rest of the loop after the pause
pub answered :
    Result Failure OrderResult
    → ℕ
    → Result Failure OrderResult × World
    → World
    → Result Failure OrderResult × World
answered (ok result) left again w = (ok result, w)
answered (err e) left again w =
    if is_transient e
    then (if left == 0 then (err Failure.order_execution, w) else again)
    else (err (translate e), w)

-- The loop of `execute` with `left` attempts to go; the break of the last one falls through to the
-- raise behind the loop.
unfoldable pub attempts :
    RetryPolicy → ℕ → ℕ → OrderRequest → Adapter → World → Result Failure OrderResult × World
unfolding answered
attempts p zero delay request a w = (err Failure.order_execution, w)
attempts p (suc left) delay request a w =
    let w' = record_event (Event.placed (sent request)) w in
    let again =
      attempts p left (min (delay * p.backoff_multiplier) p.max_delay) request a
        (record_event (Event.slept delay) w') in
    answered (a.place_order (length w.log) (sent request)) left again w'

unfoldable pub execute :
    RetryPolicy → OrderRequest → Adapter → World → Result Failure OrderResult × World
execute p request a = attempts p p.max_retries p.base_delay request a

-- except ExchangeError as exc: raise OrderExecutionError
abbrev wrap : {A : Type 0} → Result Failure A → Result Failure A
wrap (ok a) = ok a
wrap (err e) = err (if is_exchange_error e then Failure.order_execution else e)

unfoldable pub cancel : Text → ℕ → Adapter → World → Result Failure Bool × World
cancel symbol order_id a w = (
  wrap (a.cancel_order (length w.log) (upper symbol) order_id),
  record_event (Event.cancel_sent (upper symbol) order_id) w,
)

unfoldable pub get_order : Text → ℕ → Adapter → World → Result Failure OrderResult × World
get_order symbol order_id a w = (
  wrap (a.get_order (length w.log) (upper symbol) order_id),
  record_event (Event.order_fetched (upper symbol) order_id) w,
)

-- symbol.upper() if symbol else None
abbrev filter_symbol : Option Text → Option Text
filter_symbol none = none
filter_symbol (some []) = none
filter_symbol (some (c ∷ s)) = some (upper (c ∷ s))

unfoldable pub get_open_orders :
    Option Text → Adapter → World → Result Failure (List OrderResult) × World
get_open_orders symbol a w = (
  wrap (a.get_open_orders (length w.log) (filter_symbol symbol)),
  record_event (Event.open_orders_fetched (filter_symbol symbol)) w,
)
