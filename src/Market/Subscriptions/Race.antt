-- ===== src/Market/Subscriptions/Race.antt =====
-- Two consumers that subscribe to a stream nobody listens to, the second before the first one's
-- stream is open.
use utos.Prelude.{ℕ, ◌≡◌, ◌≢◌, refl, false, none, some, [], arith, sym, ◌∙◌, ap}
use utos.Prelude.Dict.{
  number_key, lookup, insert, lookup-insert, lookup-insert_self, lookup-insert_ne,
}
use utos.Market.Subscriptions.{
  Stream, stream_key, SubscriptionManager, subscribe_start, subscribe_finish, fresh_entry,
}
use utos.Market.Subscriptions.Count.{listens}

abbrev pub started : ℕ → Stream → ℕ → SubscriptionManager → SubscriptionManager
started c k cb s = (subscribe_start c k cb s).1

-- both start, and then both finish in the order in which they started
abbrev pub raced : Stream → ℕ → ℕ → ℕ → ℕ → ℕ → ℕ → SubscriptionManager → SubscriptionManager
raced k c cb ws d cb' ws' s =
    subscribe_finish ws' d k cb' (subscribe_finish ws c k cb (started d k cb' (started c k cb s)))

start_unopened :
    (c cb : ℕ) (k : Stream) (s : SubscriptionManager)
    → lookup k s.logical ≡ none
    → subscribe_start c k cb s ≡ (false, record s { consumer_map = insert c k s.consumer_map })
unfolding subscribe_start
start_unopened c cb k s e = rw e refl

started_unopened :
    (c cb : ℕ) (k : Stream) (s : SubscriptionManager)
    → lookup k s.logical ≡ none
    → started c k cb s ≡ record s { consumer_map = insert c k s.consumer_map }
started_unopened c cb k s e = ap (λ r. r.1) (start_unopened c cb k s e)

-- When a second consumer starts to subscribe before the first one's stream is open, both open a
-- stream, and the second entry replaces the first: the first consumer is in the consumer map and its
-- callback is not in the stream's entry, nor is the id of the stream that was opened for it.
pub race_loses_first :
    (k : Stream) (c cb ws d cb' ws' : ℕ) (s : SubscriptionManager)
    → lookup k s.logical ≡ none
    → c ≢ d
    → let s' = raced k c cb ws d cb' ws' s in
      ((subscribe_start c k cb s).0 ≡ false)
      × ((subscribe_start d k cb' (started c k cb s)).0 ≡ false)
      × (lookup c s'.consumer_map ≡ some k)
      × (listens c (lookup k s'.logical) ≡ false)
      × (lookup k s'.logical ≡ some (fresh_entry ws' k d cb'))
unfolding subscribe_finish lookup
race_loses_first k c cb ws d cb' ws' s e ne =
    let before = fresh_entry ws k c cb in
    let after = fresh_entry ws' k d cb' in
    let put = lookup-insert_self k after (insert k before s.logical) in
    let m = insert c k s.consumer_map in
    let s₁ = record s { consumer_map = m } in
    rw
      (
        raced,
        started_unopened c cb k s e,
        started_unopened d cb' k s₁ e,
        start_unopened c cb k s e,
        start_unopened d cb' k s₁ e,
      )
      (
        refl,
        refl,
        lookup-insert_ne d c k m (λ same. ne (sym same)) ∙ lookup-insert_self c k s.consumer_map,
        ap (listens c) put ∙ (ground (arith, lookup-insert d c cb' [])),
        put,
      )
