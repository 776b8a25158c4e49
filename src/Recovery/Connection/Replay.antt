-- ===== src/Recovery/Connection/Replay.antt =====
-- What a reconnection does with the orders that were queued meanwhile.
use utos.Prelude.{
  foldl, ℕ, suc, ap, ◌+◌, ◌≡◌, refl, ◌∙◌, Bool, true, false, none, some, List, [], ◌∷◌, Result, ok,
  err, length, arith,
}
use utos.Prelude.Text.{Text}
use utos.Prelude.Dict.{Dict, insert, text_key, lookup, lookup-insert_self}
use utos.Recovery.Connection.{
  QueuedOrder, ConnectionRecovery, counted, and_result, replay_each, replay_queued_orders,
  resubscribed, symbols_of, on_exchange_reconnect, is_exchange_connected,
}

-- what the loop over the orders makes of the counters
record Counts {X R : Type 0} (orders : ℕ) (c : ConnectionRecovery)
    (r : List R × ConnectionRecovery × X) : Type 0 where
  replayed : r.1.orders_replayed ≡ c.orders_replayed + length r.0
  all_counted :
      r.1.orders_replayed + r.1.orders_replayed_failed
      ≡ c.orders_replayed + c.orders_replayed_failed + orders
  queue_kept : r.1.order_queue ≡ c.order_queue
  exchanges_kept : r.1.exchange_connected ≡ c.exchange_connected

resubscribed_lem :
    (b : Bool) (account_id : Text) (symbols : List Text) (c : ConnectionRecovery)
    → let d = resubscribed b account_id symbols c in
      (d.order_queue ≡ c.order_queue)
      × (d.orders_replayed ≡ c.orders_replayed)
      × (d.orders_replayed_failed ≡ c.orders_replayed_failed)
      × (d.exchange_connected ≡ c.exchange_connected)
resubscribed_lem b account_id [] c = (refl, refl, refl, refl)
resubscribed_lem true account_id (symbol ∷ symbols) c = (refl, refl, refl, refl)
resubscribed_lem false account_id (symbol ∷ symbols) c = (refl, refl, refl, refl)

connected_again :
    (exchange : Text) (connected : Dict Text Bool) (c : ConnectionRecovery)
    → c.exchange_connected ≡ insert exchange true connected
    → is_exchange_connected exchange c ≡ true
unfolding is_exchange_connected
connected_again exchange connected c e =
    let found : lookup exchange c.exchange_connected ≡ some true =
      ap (lookup exchange) e ∙ lookup-insert_self exchange true connected in
    rw found

-- the results among the answers
abbrev pub results_of : {R : Type 0} → List (Result ℕ R) → List R
results_of [] = []
results_of (ok r ∷ rs) = r ∷ results_of rs
results_of (err e ∷ rs) = results_of rs

and_result_lem :
    {R : Type 0} (a : Result ℕ R) (rs : List (Result ℕ R))
    → and_result a (results_of rs) ≡ results_of (a ∷ rs)
and_result_lem (ok r) rs = refl
and_result_lem (err e) rs = refl

module _ {X R : Type 0} where
  one_more :
      (answer : Result ℕ R) (n : ℕ) (c : ConnectionRecovery) (r : List R × ConnectionRecovery × X)
      → Counts n (counted answer c) r
      → Counts (suc n) c (and_result answer r.0, r.1, r.2)
  one_more (ok a) n c r h = record {
    replayed = omega (arith, h.replayed);
    all_counted = omega (arith, h.all_counted);
    queue_kept = h.queue_kept;
    exchanges_kept = h.exchanges_kept;
  }
  one_more (err e) n c r h = record {
    replayed = h.replayed;
    all_counted = omega (arith, h.all_counted);
    queue_kept = h.queue_kept;
    exchanges_kept = h.exchanges_kept;
  }

  replay_each-Counts :
      (place : QueuedOrder → X → Result ℕ R × X) (orders : List QueuedOrder)
      (c : ConnectionRecovery) (x : X)
      → Counts (length orders) c (replay_each (some place) orders c x)
  unfolding replay_each
  replay_each-Counts place [] c x = record {
    replayed = omega arith;
    all_counted = omega arith;
    queue_kept = refl;
    exchanges_kept = refl;
  }
  replay_each-Counts place (order ∷ orders) c x =
      let (answer, x') = place order x in
      one_more answer (length orders) c (replay_each (some place) orders (counted answer c) x')
        (replay_each-Counts place orders (counted answer c) x')

  -- the answers of placing each order once, one after the other
  abbrev pub answers : (QueuedOrder → X → Result ℕ R × X) → List QueuedOrder → X → List (Result ℕ R)
  answers place [] x = []
  answers place (order ∷ orders) x = (place order x).0 ∷ answers place orders (place order x).1

  -- what the placements leave
  abbrev pub after_all : (QueuedOrder → X → Result ℕ R × X) → List QueuedOrder → X → X
  after_all place orders x = foldl (λ y order. (place order y).1) x orders

  replay_each-places :
      (place : QueuedOrder → X → Result ℕ R × X) (orders : List QueuedOrder)
      (c : ConnectionRecovery) (x : X)
      → let r = replay_each (some place) orders c x in
        (r.0 ≡ results_of (answers place orders x)) × (r.2 ≡ after_all place orders x)
  unfolding replay_each
  replay_each-places place [] c x = (refl, refl)
  replay_each-places place (order ∷ orders) c x =
      let (answer, x') = place order x in
      let rest = replay_each-places place orders (counted answer c) x' in
      (ap (and_result answer) rest.0 ∙ and_result_lem answer (answers place orders x'), rest.1)

  -- A reconnection with a function that places orders places every queued order exactly once, in the
  -- order of the queue, and empties the queue: what was outside is as these placements leave it, the
  -- results are those of the placements that did not raise, each order is counted as replayed or as
  -- failed, as many as there are results as replayed, and the exchange counts as connected.
  pub reconnect_replays :
      (place : QueuedOrder → X → Result ℕ R × X) (b : Bool) (exchange account_id : Text)
      (c : ConnectionRecovery) (x : X)
      → let r = on_exchange_reconnect (some place) b exchange account_id c x in
        (r.2 ≡ after_all place c.order_queue x)
        × (r.0 ≡ results_of (answers place c.order_queue x))
        × (r.1.order_queue ≡ [])
        × (r.1.orders_replayed ≡ c.orders_replayed + length r.0)
        × (r.1.orders_replayed + r.1.orders_replayed_failed
            ≡ c.orders_replayed + c.orders_replayed_failed + length c.order_queue)
        × (is_exchange_connected exchange r.1 ≡ true)
  unfolding on_exchange_reconnect replay_queued_orders
  reconnect_replays place b exchange account_id c x =
      let symbols = symbols_of (lookup account_id c.subscribed_symbols) in
      let base : ConnectionRecovery = record c {
        exchange_reconnects = c.exchange_reconnects + 1;
        exchange_connected = insert exchange true c.exchange_connected;
        reconnect_attempts = insert exchange 0 c.reconnect_attempts;
      } in
      let d = resubscribed b account_id symbols base in
      let same = resubscribed_lem b account_id symbols base in
      let h = replay_each-Counts place d.order_queue (record d { order_queue = [] }) x in
      let placed = replay_each-places place d.order_queue (record d { order_queue = [] }) x in
      (
        placed.1 ∙ ap (λ orders. after_all place orders x) same.0,
        placed.0 ∙ ap (λ orders. results_of (answers place orders x)) same.0,
        h.queue_kept,
        omega (arith, h.replayed, same.1),
        omega (arith, h.all_counted, same.1, same.2, ap length same.0),
        connected_again exchange c.exchange_connected _ (h.exchanges_kept ∙ same.3),
      )

  skipped :
      (orders : List QueuedOrder) (c : ConnectionRecovery) (x : X)
      → replay_each {R = R} none orders c x ≡ ([], c, x)
  unfolding replay_each
  skipped [] c x = refl
  skipped (order ∷ orders) c x = skipped orders c x

  -- Without a function that places orders, a replay drops every queued order: the queue is empty,
  -- no counter tells of it, and nothing reaches the exchange.
  pub replay_drops :
      (c : ConnectionRecovery) (x : X)
      → replay_queued_orders {R = R} none c x ≡ ([], record c { order_queue = [] }, x)
  unfolding replay_queued_orders
  replay_drops c x = skipped c.order_queue (record c { order_queue = [] }) x
