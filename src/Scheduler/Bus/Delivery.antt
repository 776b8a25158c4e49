-- ===== src/Scheduler/Bus/Delivery.antt =====
-- Who is called, what is counted, and that subscriptions are added and removed one by one.
use mathlib.Core.List.{append_assoc, append-nil, map-append}
use utos.Prelude.{
  ℕ, suc, ◌+◌, ◌==◌, ◌≡◌, refl, sym, ◌∙◌, Bool, some, List, [], ◌∷◌, ◌++◌, map, arith, length,
  length-append, or_else, if◌then◌else◌, Option-cases, Bool-cases, inl, inr,
}
use utos.Prelude.Dict.{Dict, number_key, lookup, insert, lookup-insert}
use utos.Scheduler.Bus.{
  Subscriber, EventBus, of_type, call, deliver, publish, subscribe, pop_id, pop_from, unsubscribe,
  get_subscribers,
}

-- how many of the handlers do not raise
abbrev pub quiet : List Subscriber → ℕ → ℕ
quiet [] event = 0
quiet (sub ∷ subs) event = (if sub.raises event then 0 else 1) + quiet subs event

deliver_lem :
    (subs : List Subscriber) (event : ℕ) (b : EventBus)
    → let b' = deliver subs event b in
      (b'.called ≡ b.called ++ map (λ (sub : Subscriber). sub.id) subs)
      × (b'.events_delivered ≡ b.events_delivered + quiet subs event)
      × (b'.subscribers ≡ b.subscribers)
      × (b'.events_published ≡ b.events_published)
unfolding deliver
deliver_lem [] event b = (sym (append-nil b.called), omega arith, refl, refl)
deliver_lem (sub ∷ subs) event b =
    let (called, delivered, same, published) = deliver_lem subs event (call sub event b) in
    (
      called ∙ append_assoc b.called (sub.id ∷ []) (map (λ (s : Subscriber). s.id) subs),
      omega (arith, delivered),
      same,
      published,
    )

-- An event reaches every subscriber of its type, in the order of their subscriptions and once each,
-- also when some of them raise; the deliveries that are counted are those that do not.
pub publish_lem :
    (event_type event : ℕ) (b : EventBus)
    → let b' = publish event_type event b in
      (b'.called ≡ b.called ++ get_subscribers event_type b)
      × (b'.events_delivered ≡ b.events_delivered + quiet (of_type event_type b) event)
      × (b'.events_published ≡ b.events_published + 1)
      × (b'.subscribers ≡ b.subscribers)
unfolding publish get_subscribers
publish_lem event_type event b =
    let (called, delivered, same, published) =
      deliver_lem (of_type event_type b) event
        (record b { events_published = b.events_published + 1 }) in
    (called, delivered, published, same)

-- A new subscriber comes last among those of its type, and the other types keep theirs.
pub get_subscribers-subscribe :
    (id event_type other : ℕ) (raises : ℕ → Bool) (b : EventBus)
    → get_subscribers other (subscribe id event_type raises b) ≡ (
        if event_type == other then get_subscribers other b ++ id ∷ [] else get_subscribers other b)
unfolding subscribe get_subscribers
get_subscribers-subscribe id event_type other raises b = ground (
  arith,
  lookup-insert event_type other (of_type event_type b ++ record { id = id; raises = raises } ∷ [])
      b.subscribers,
  map-append (λ (s : Subscriber). s.id) (of_type event_type b)
      (record { id = id; raises = raises } ∷ []),
)

-- how many subscriptions there are
abbrev pub total : Dict ℕ (List Subscriber) → ℕ
total [] = 0
total ((event_type, subs) ∷ d) = length subs + total d

pop_id-length :
    (id : ℕ) (subs rest : List Subscriber)
    → pop_id id subs ≡ some rest
    → length subs ≡ suc (length rest)
unfolding pop_id
pop_id-length id [] rest e = absurd (ground arith)
pop_id-length id (sub ∷ subs) rest e = elim (Option-cases (pop_id id subs)) [
  | inl absent ↦ ground arith
  | inr (r, found) ↦ ground (arith, pop_id-length id subs r found)
]

pop_from-total :
    (id : ℕ) (d rest : Dict ℕ (List Subscriber))
    → pop_from id d ≡ some rest
    → total d ≡ suc (total rest)
unfolding pop_from
pop_from-total id [] rest e = absurd (ground arith)
pop_from-total id ((t, subs) ∷ d) rest e = elim (Option-cases (pop_id id subs)) [
  | inr (r, found) ↦ ground (arith, pop_id-length id subs r found)
  | inl absent ↦ elim (Option-cases (pop_from id d)) [
    | inl nowhere ↦ ground arith
    | inr (r, found) ↦ ground (arith, pop_from-total id d r found)
  ]
]

total-insert :
    (t : ℕ) (new : List Subscriber) (d : Dict ℕ (List Subscriber))
    → total (insert t new d) + length (or_else (lookup t d) []) ≡ total d + length new
unfolding insert lookup
total-insert t new [] = omega arith
total-insert t new ((u, subs) ∷ d) = elim (Bool-cases (u == t)) [
  | inl same ↦ rw same (omega arith)
  | inr other ↦ rw other (omega (arith, total-insert t new d))
]

-- The counters of subscribers added and removed differ by the number of subscriptions.
abbrev pub IsCounted : EventBus → Type 0
IsCounted b = b.subscribers_added ≡ total b.subscribers + b.subscribers_removed

pub subscribe-IsCounted :
    (id event_type : ℕ) (raises : ℕ → Bool) (b : EventBus)
    → IsCounted b
    → IsCounted (subscribe id event_type raises b)
unfolding subscribe
subscribe-IsCounted id event_type raises b h = omega (
  arith,
  total-insert event_type (of_type event_type b ++ record { id = id; raises = raises } ∷ [])
      b.subscribers,
  length-append (of_type event_type b) (record { id = id; raises = raises } ∷ []),
)

pub unsubscribe-IsCounted : (id : ℕ) (b : EventBus) → IsCounted b → IsCounted (unsubscribe id b).1
unfolding unsubscribe
unsubscribe-IsCounted id b h = elim (Option-cases (pop_from id b.subscribers)) [
  | inl absent ↦ ground arith
  | inr (d, found) ↦ ground (arith, pop_from-total id b.subscribers d found)
]
