-- ===== src/Market/Tests.antt =====
-- The theorems on backend/market, at a hub with one stream.
use utos.Prelude.{ℕ, suc, ◌≡◌, refl, false, none, some, [], Result, ok, arith}
use utos.Prelude.Text.{Text, codes, lower, upper, text_eq}
use utos.Prelude.Dict.{lookup, insert, number_key}
use utos.Market.Subscriptions.{
  Stream, stream_key, Entry, SubscriptionManager, logical_key, joined, fresh_entry, subscribe,
  subscribe_start, subscribe_finish, unsubscribe,
}
use utos.Market.Subscriptions.Count.{IsCounted, listens, subscribe-IsCounted}
use utos.Market.Subscriptions.Leave.{unsubscribe-IsCounted, last-closes, others-stay, StaysFor}
use utos.Market.Subscriptions.Race.{started, raced, race_loses_first}

-- streams are numbered as they are opened; closing one is counted too
abbrev open_stream : Text → Text → Text → ℕ → ℕ → Result ℕ ℕ × ℕ
open_stream exchange symbol channel callback calls = (ok calls, suc calls)

abbrev close_stream : ℕ → ℕ → Result ℕ (Unit {0}) × ℕ
close_stream ws_sub_id calls = (ok tt, suc calls)

abbrev no_subscriptions : SubscriptionManager
no_subscriptions = record { logical = []; consumer_map = [] }

no_subscriptions-IsCounted : IsCounted no_subscriptions
unfolding lookup
no_subscriptions-IsCounted = record {
  entries = λ k entry e. absurd (ground arith);
  consumers = λ c k e. absurd (ground arith);
}

-- consumer 4 listens to the ticker of BTCUSDT
abbrev one : SubscriptionManager
one =
    (subscribe open_stream close_stream 4 (codes "okx") (codes "BTC") (codes "ticker") 40
      no_subscriptions 0).1

-- and then consumer 5
abbrev two : SubscriptionManager
two = (subscribe open_stream close_stream 5 (codes "OKX") (codes "btc") (codes "ticker") 50 one 1).1

abbrev btc : Stream
btc = (codes "okx", codes "BTC", codes "ticker")

abbrev first_entry : Entry
first_entry = fresh_entry 0 btc 4 40

one-IsCounted : IsCounted one
unfolding lookup insert subscribe subscribe_start subscribe_finish logical_key lower upper text_eq
one-IsCounted =
    subscribe-IsCounted open_stream close_stream 4 (codes "okx") (codes "BTC") (codes "ticker") 40 4
      no_subscriptions 0 refl refl no_subscriptions-IsCounted

two-IsCounted : IsCounted two
unfolding lookup insert subscribe subscribe_start subscribe_finish logical_key lower upper text_eq
two-IsCounted =
    subscribe-IsCounted open_stream close_stream 5 (codes "OKX") (codes "btc") (codes "ticker") 50 5
      one 1 refl refl one-IsCounted

subscribe-IsCounted_example : IsCounted two
unfolding lookup insert subscribe subscribe_start subscribe_finish logical_key lower upper text_eq
subscribe-IsCounted_example =
    subscribe-IsCounted open_stream close_stream 5 (codes "OKX") (codes "btc") (codes "ticker") 50 5
      one 1 refl refl one-IsCounted

unsubscribe-IsCounted_example : IsCounted (unsubscribe open_stream close_stream 4 one 1).1
unsubscribe-IsCounted_example = unsubscribe-IsCounted open_stream close_stream 4 one 1 one-IsCounted

last-closes_example :
    let (answer, s', ext') = unsubscribe open_stream close_stream 4 one 1 in
    (lookup 4 s'.consumer_map ≡ none)
    × (lookup btc s'.logical ≡ none)
    × ((answer, ext') ≡ close_stream 0 1)
unfolding lookup insert subscribe subscribe_start subscribe_finish logical_key lower upper text_eq
last-closes_example =
    last-closes open_stream close_stream 4 btc first_entry one 1 one-IsCounted refl refl refl

others-stay_example :
    let (answer, s', ext') = unsubscribe open_stream close_stream 4 two 1 in
    (answer ≡ ok tt)
    × (ext' ≡ 1)
    × (lookup 4 s'.consumer_map ≡ none)
    × StaysFor 4 btc (joined 5 50 first_entry) two s'
unfolding lookup insert subscribe subscribe_start subscribe_finish logical_key lower upper text_eq
others-stay_example =
    others-stay open_stream close_stream 4 btc (joined 5 50 first_entry) two 1 two-IsCounted refl
      refl (omega arith)

race_loses_first_example :
    let s' = raced btc 4 40 0 5 50 1 no_subscriptions in
    ((subscribe_start 4 btc 40 no_subscriptions).0 ≡ false)
    × ((subscribe_start 5 btc 50 (started 4 btc 40 no_subscriptions)).0 ≡ false)
    × (lookup 4 s'.consumer_map ≡ some btc)
    × (listens 4 (lookup btc s'.logical) ≡ false)
    × (lookup btc s'.logical ≡ some (fresh_entry 1 btc 5 50))
unfolding lookup
race_loses_first_example =
    race_loses_first btc 4 40 0 5 50 1 no_subscriptions refl (λ e. absurd (omega arith))
