-- ===== src/Recovery/Connection.antt =====
-- backend/engine/recovery/connection.py. The functions that were given to it are arguments: a health
-- check answers or raises, and placing an order acts on a state of its own.
pub mod Replay
use utos.Prelude.{
  ℕ, zero, ◌+◌, ◌==◌, Bool, true, false, Option, none, some, List, [], ◌∷◌, ◌++◌, Result, ok, err,
  or_else,
}
use utos.Prelude.Text.{Text}
use utos.Prelude.Decimal.{Decimal}
use utos.Prelude.Dict.{Dict, lookup, insert, text_key}

pub record QueuedOrder : Type 0 where
  pub instance_id : Text
  pub account_id : Text
  pub exchange : Text
  pub symbol : Text
  pub side : Text
  pub quantity : Decimal
  pub price : Decimal
  pub queued_at : ℕ

pub record ConnectionRecovery : Type 0 where
  pub redis_connected : Bool
  pub postgres_connected : Bool
  pub exchange_connected : Dict Text Bool
  pub subscribed_symbols : Dict Text (List Text)
  pub order_queue : List QueuedOrder
  pub reconnect_attempts : Dict Text ℕ
  pub redis_recoveries : ℕ
  pub postgres_recoveries : ℕ
  pub exchange_reconnects : ℕ
  pub orders_queued : ℕ
  pub orders_replayed : ℕ
  pub orders_replayed_failed : ℕ

unfoldable pub register_subscriptions : Text → List Text → ConnectionRecovery → ConnectionRecovery
register_subscriptions account_id symbols c = record c {
  subscribed_symbols = insert account_id symbols c.subscribed_symbols;
}

-- the answer of a health check; one that is not given is passed, one that raises is not
abbrev pub health : Option (Result ℕ Bool) → Bool
health none = true
health (some (ok b)) = b
health (some (err x)) = false

unfoldable pub recover_redis :
    Option (Result ℕ Bool) → ConnectionRecovery → Bool × ConnectionRecovery
recover_redis check c = (
  health check,
  record c { redis_recoveries = c.redis_recoveries + 1; redis_connected = health check },
)

unfoldable pub recover_postgres :
    Option (Result ℕ Bool) → ConnectionRecovery → Bool × ConnectionRecovery
recover_postgres check c = (
  health check,
  record c { postgres_recoveries = c.postgres_recoveries + 1; postgres_connected = health check },
)

unfoldable pub on_exchange_disconnect : Text → ConnectionRecovery → ConnectionRecovery
on_exchange_disconnect exchange c = record c {
  exchange_connected = insert exchange false c.exchange_connected;
  reconnect_attempts = insert exchange 0 c.reconnect_attempts;
}

unfoldable pub queue_order : QueuedOrder → ConnectionRecovery → ConnectionRecovery
queue_order order c = record c {
  order_queue = c.order_queue ++ order ∷ [];
  orders_queued = c.orders_queued + 1;
}

abbrev pub counted : {R : Type 0} → Result ℕ R → ConnectionRecovery → ConnectionRecovery
counted (ok r) c = record c { orders_replayed = c.orders_replayed + 1 }
counted (err e) c = record c { orders_replayed_failed = c.orders_replayed_failed + 1 }

abbrev pub and_result : {R : Type 0} → Result ℕ R → List R → List R
and_result (ok r) rs = r ∷ rs
and_result (err e) rs = rs

abbrev pub resubscribed : Bool → Text → List Text → ConnectionRecovery → ConnectionRecovery
resubscribed has_function account_id [] c = c
resubscribed true account_id symbols c = c
resubscribed false account_id symbols c = record c {
  subscribed_symbols = insert account_id symbols c.subscribed_symbols;
}

abbrev pub symbols_of : Option (List Text) → List Text
symbols_of none = []
symbols_of (some symbols) = symbols

module _ {X R : Type 0} where
  -- the loop over the queue that was copied; without a function an order is skipped
  unfoldable pub replay_each :
      Option (QueuedOrder → X → Result ℕ R × X)
      → List QueuedOrder
      → ConnectionRecovery
      → X
      → List R × ConnectionRecovery × X
  replay_each place [] c x = ([], c, x)
  replay_each none (order ∷ orders) c x = replay_each none orders c x
  replay_each (some place) (order ∷ orders) c x =
      let (answer, x') = place order x in
      let (results, c', x'') = replay_each (some place) orders (counted answer c) x' in
      (and_result answer results, c', x'')

  unfoldable pub replay_queued_orders :
      Option (QueuedOrder → X → Result ℕ R × X)
      → ConnectionRecovery
      → X
      → List R × ConnectionRecovery × X
  replay_queued_orders place c x = replay_each place c.order_queue (record c { order_queue = [] }) x

  -- on_exchange_reconnect; what the functions for subscriptions and prices answer is dropped
  unfoldable pub on_exchange_reconnect :
      Option (QueuedOrder → X → Result ℕ R × X)
      → Bool
      → Text
      → Text
      → ConnectionRecovery
      → X
      → List R × ConnectionRecovery × X
  unfolding replay_queued_orders
  on_exchange_reconnect place has_resubscribe exchange account_id c x =
      replay_queued_orders place
        (resubscribed has_resubscribe account_id
          (symbols_of (lookup account_id c.subscribed_symbols))
          (record c {
            exchange_reconnects = c.exchange_reconnects + 1;
            exchange_connected = insert exchange true c.exchange_connected;
            reconnect_attempts = insert exchange 0 c.reconnect_attempts;
          }))
        x

-- is_exchange_connected: an exchange that was never lost counts as connected
unfoldable pub is_exchange_connected : Text → ConnectionRecovery → Bool
is_exchange_connected exchange c = or_else (lookup exchange c.exchange_connected) true
