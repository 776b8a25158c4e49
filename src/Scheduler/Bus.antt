-- ===== src/Scheduler/Bus.antt =====
-- backend/engine/scheduler/bus.py. Subscription ids are new uuids. A handler is known by whether it
-- raises on an event; the log holds the ids of the handlers that have been called.
pub mod Delivery
use utos.Prelude.{
  ℕ, suc, ◌+◌, ◌==◌, Bool, true, false, Option, none, some, List, [], ◌∷◌, ◌++◌, map, or_else,
  length, if◌then◌else◌,
}
use utos.Prelude.Dict.{Dict, number_key, lookup, insert}

pub record Subscriber : Type 0 where
  pub id : ℕ
  pub raises : ℕ → Bool

pub record EventBus : Type 0 where
  pub subscribers : Dict ℕ (List Subscriber)
  pub events_published : ℕ
  pub events_delivered : ℕ
  pub subscribers_added : ℕ
  pub subscribers_removed : ℕ
  pub called : List ℕ

-- self._subscribers.get(event_type, [])
abbrev pub of_type : ℕ → EventBus → List Subscriber
of_type event_type b = or_else (lookup event_type b.subscribers) []

-- one handler; an exception is logged and swallowed
abbrev pub call : Subscriber → ℕ → EventBus → EventBus
call sub event b = record b {
  events_delivered = b.events_delivered + (if sub.raises event then 0 else 1);
  called = b.called ++ sub.id ∷ [];
}

unfoldable pub deliver : List Subscriber → ℕ → EventBus → EventBus
deliver [] event b = b
deliver (sub ∷ subs) event b = deliver subs event (call sub event b)

unfoldable pub publish : ℕ → ℕ → EventBus → EventBus
unfolding deliver
publish event_type event b =
    deliver (of_type event_type b) event (record b { events_published = b.events_published + 1 })

unfoldable pub subscribe : ℕ → ℕ → (ℕ → Bool) → EventBus → EventBus
subscribe sub_id event_type raises b = record b {
  subscribers =
      insert event_type (of_type event_type b ++ record { id = sub_id; raises = raises } ∷ [])
        b.subscribers;
  subscribers_added = b.subscribers_added + 1;
}

-- subs.pop(i) at the first subscriber with the id, if there is one
unfoldable pub pop_id : ℕ → List Subscriber → Option (List Subscriber)
pop_id sub_id [] = none
pop_id sub_id (sub ∷ subs) =
    if sub.id == sub_id
    then some subs
    else elim (pop_id sub_id subs) [ none ↦ none | some rest ↦ some (sub ∷ rest) ]

-- the loop over the event types; it returns at the first one that has the id
unfoldable pub pop_from : ℕ → Dict ℕ (List Subscriber) → Option (Dict ℕ (List Subscriber))
pop_from sub_id [] = none
pop_from sub_id ((event_type, subs) ∷ d) = elim (pop_id sub_id subs) [
  | some rest ↦ some ((event_type, rest) ∷ d)
  | none ↦ elim (pop_from sub_id d) [ none ↦ none | some rest ↦ some ((event_type, subs) ∷ rest) ]
]

unfoldable pub unsubscribe : ℕ → EventBus → Bool × EventBus
unsubscribe sub_id b = elim (pop_from sub_id b.subscribers) [
  | none ↦ (false, b)
  | some d ↦ (true, record b { subscribers = d; subscribers_removed = b.subscribers_removed + 1 })
]

unfoldable pub get_subscribers : ℕ → EventBus → List ℕ
get_subscribers event_type b = map (λ sub. sub.id) (of_type event_type b)

unfoldable pub get_subscriber_count : ℕ → EventBus → ℕ
get_subscriber_count event_type b = length (of_type event_type b)
