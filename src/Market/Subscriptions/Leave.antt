-- ===== src/Market/Subscriptions/Leave.antt =====
-- The last consumer that leaves a stream closes it.
use utos.Prelude.{
  ℕ, ◌==◌, ==_iff, ◌≤◌, leb, ◌≡◌, ◌≢◌, ◌+◌, refl, true, false, none, some, [], ◌∷◌, Result, ok,
  is_some, if_false, sym, ◌∙◌, ap, subst, arith, length, Bool-cases, Option-cases, inl, inr,
}
use utos.Prelude.Text.{Text}
use utos.Prelude.Dict.{
  Dict, number_key, lookup, insert, erase, lookup-erase, lookup-insert_self, lookup-erase_self,
  lookup-erase_ne, lookup-insert_ne, Distinct, erase-Distinct, length-erase_old,
}
use utos.Market.Subscriptions.{
  Stream, stream_key, stream_eq, stream_eq_iff, Entry, SubscriptionManager, left, unsubscribe,
}
use utos.Market.Subscriptions.Count.{
  listens, IsCountedEntry, IsCounted, some_injective, every-insert, every-erase, listens-kept,
}

occupied : (c v : ℕ) (d : Dict ℕ ℕ) → lookup c d ≡ some v → 1 ≤ length d
unfolding lookup
occupied c v [] e = absurd (ground arith)
occupied c v (x ∷ d) e = omega arith

one_listener :
    (c x : ℕ) (d : Dict ℕ ℕ)
    → Distinct d
    → length d ≤ 1
    → is_some (lookup c d) ≡ true
    → is_some (lookup x d) ≡ true
    → c ≡ x
one_listener c x d h small hc hx = elim (Bool-cases (c == x)) [
  | inl same ↦ (==_iff c x).0 same
  | inr other ↦ elim (Option-cases (lookup c d)) [
    | inl none_c ↦ absurd (ground (arith, hc))
    | inr (v, there_c) ↦ elim (Option-cases (lookup x d)) [
      | inl none_x ↦ absurd (ground (arith, hx))
      | inr (w, there_x) ↦ absurd (
          ground (
            arith,
            length-erase_old c v d h there_c,
            occupied x w (erase c d) (lookup-erase c x d ∙ if_false _ _ _ other ∙ there_x),
          ))
    ]
  ]
]

left-Entry :
    (k : Stream) (c : ℕ) (entry : Entry) (m : Dict ℕ Stream)
    → IsCountedEntry m k entry
    → is_some (lookup c entry.callbacks) ≡ true
    → leb entry.refcount 1 ≡ false
    → IsCountedEntry (erase c m) k (left c entry)
left-Entry k c entry m h heard many = elim (Option-cases (lookup c entry.callbacks)) [
  | inl deaf ↦ absurd (ground (arith, heard))
  | inr (v, there) ↦ record {
    count = ground (arith, h.count, length-erase_old c v entry.callbacks h.distinct there);
    used = ground (arith, many);
    distinct = erase-Distinct c entry.callbacks h.distinct;
    listed =
        λ d e. ground (arith, lookup-erase c d entry.callbacks, lookup-erase c d m, h.listed d);
  }
]

unmapped-Entry :
    (k j : Stream) (c : ℕ) (entry : Entry) (m : Dict ℕ Stream)
    → IsCountedEntry m j entry
    → lookup c m ≡ some k
    → stream_eq k j ≡ false
    → IsCountedEntry (erase c m) j entry
unmapped-Entry k j c entry m h e other = record {
  count = h.count;
  used = h.used;
  distinct = h.distinct;
  listed = λ d there.
      let sent = h.listed d there in
      elim (Bool-cases (c == d)) [
        | inr apart ↦ lookup-erase c d m ∙ if_false _ _ _ apart ∙ sent
        | inl same ↦
            let here =
              some_injective k j
                (sym (subst (λ i. lookup i m ≡ some k) ((==_iff c d).0 same) e) ∙ sent) in
            absurd (ground (arith, other, (stream_eq_iff k j).1 here))
      ];
}

erased-back :
    (c d : ℕ) (j : Stream) (m : Dict ℕ Stream)
    → lookup d (erase c m) ≡ some j
    → ((c == d) ≡ false) × (lookup d m ≡ some j)
erased-back c d j m e =
    let found = sym (lookup-erase c d m) ∙ e in
    elim (Bool-cases (c == d)) [
      | inl same ↦ absurd (ground (arith, found))
      | inr other ↦ (other, sym (if_false _ _ _ other) ∙ found)
    ]

left-IsCounted :
    (k : Stream) (c : ℕ) (entry : Entry) (s : SubscriptionManager)
    → lookup c s.consumer_map ≡ some k
    → lookup k s.logical ≡ some entry
    → leb entry.refcount 1 ≡ false
    → IsCounted s
    → IsCounted (record {
      logical = insert k (left c entry) s.logical;
      consumer_map = erase c s.consumer_map;
    })
left-IsCounted k c entry s e found many h =
    let heard = subst (λ o. listens c o ≡ true) found (h.consumers c k e) in
    record {
      entries =
          every-insert (IsCountedEntry (erase c s.consumer_map)) k (left c entry) s.logical
            (left-Entry k c entry s.consumer_map (h.entries k entry found) heard many)
            (λ j x other f. unmapped-Entry k j c x s.consumer_map (h.entries j x f) e other);
      consumers = λ d j there.
          let (apart, before) = erased-back c d j s.consumer_map there in
          listens-kept k j d (left c entry) s.logical
            (λ was.
              ground (
                arith,
                lookup-erase c d entry.callbacks,
                subst (λ o. listens d o ≡ true) found was,
              ))
            (h.consumers d j before);
    }

close-IsCounted :
    (k : Stream) (c : ℕ) (entry : Entry) (s : SubscriptionManager)
    → lookup c s.consumer_map ≡ some k
    → lookup k s.logical ≡ some entry
    → leb entry.refcount 1 ≡ true
    → IsCounted s
    → IsCounted (record { logical = erase k s.logical; consumer_map = erase c s.consumer_map })
close-IsCounted k c entry s e found few h =
    let heard = subst (λ o. listens c o ≡ true) found (h.consumers c k e) in
    let counted = h.entries k entry found in
    record {
      entries =
          every-erase (IsCountedEntry (erase c s.consumer_map)) k s.logical
            (λ j x other f. unmapped-Entry k j c x s.consumer_map (h.entries j x f) e other);
      consumers = λ d j there.
          let (apart, before) = erased-back c d j s.consumer_map there in
          elim (Bool-cases (stream_eq k j)) [
            | inr other ↦
                ap (listens d) (lookup-erase k j s.logical ∙ if_false _ _ _ other)
                ∙ h.consumers d j before
            | inl same ↦
                let there =
                  sym (ap (λ i. lookup i s.logical) ((stream_eq_iff k j).0 same)) ∙ found in
                let also = subst (λ o. listens d o ≡ true) there (h.consumers d j before) in
                absurd (
                  ground (
                    arith,
                    apart,
                    one_listener c d entry.callbacks counted.distinct
                        (ground (arith, counted.count, few)) heard also,
                  ))
          ];
    }

-- What a consumer leaves of a stream that has others.
pub record StaysFor (c : ℕ) (k : Stream) (entry : Entry) (s s' : SubscriptionManager) : Type 0 where
  pub entry_left : Entry
  pub found : lookup k s'.logical ≡ some entry_left
  pub id_kept : entry_left.ws_sub_id ≡ entry.ws_sub_id
  pub one_less : entry_left.refcount + 1 ≡ entry.refcount
  pub gone : lookup c entry_left.callbacks ≡ none
  pub others : (d : ℕ) → c ≢ d → lookup d entry_left.callbacks ≡ lookup d entry.callbacks
  pub streams : (j : Stream) → k ≢ j → lookup j s'.logical ≡ lookup j s.logical

module _ {Ext : Type 0} (subscribe_fn : Text → Text → Text → ℕ → Ext → Result ℕ ℕ × Ext)
    (unsubscribe_fn : ℕ → Ext → Result ℕ (Unit {0}) × Ext) where
  -- A consumer that leaves keeps the counts right, whether others stay, the stream is closed, the
  -- closing raises, or the consumer id is unknown.
  pub unsubscribe-IsCounted :
      (c : ℕ) (s : SubscriptionManager) (ext : Ext)
      → IsCounted s
      → IsCounted (unsubscribe subscribe_fn unsubscribe_fn c s ext).1
  unfolding unsubscribe
  unsubscribe-IsCounted c s ext h = elim (Option-cases (lookup c s.consumer_map)) [
    | inl unknown ↦ rw unknown h
    | inr (k, e) ↦ elim (Option-cases (lookup k s.logical)) [
      | inl missing ↦ absurd (ground (arith, h.consumers c k e, missing))
      | inr (entry, found) ↦ elim (Bool-cases (leb entry.refcount 1)) [
        | inl few ↦ rw (e, found, few) (close-IsCounted k c entry s e found few h)
        | inr many ↦ rw (e, found, many) (left-IsCounted k c entry s e found many h)
      ]
    ]
  ]

  -- In a state with right counts, the only consumer of a stream closes it when it leaves, by one call
  -- of the closing function with the stream's id, and its answer is the call's.
  pub last-closes :
      (c : ℕ) (k : Stream) (entry : Entry) (s : SubscriptionManager) (ext : Ext)
      → IsCounted s
      → lookup c s.consumer_map ≡ some k
      → lookup k s.logical ≡ some entry
      → length entry.callbacks ≡ 1
      → let (answer, s', ext') = unsubscribe subscribe_fn unsubscribe_fn c s ext in
        (lookup c s'.consumer_map ≡ none)
        × (lookup k s'.logical ≡ none)
        × ((answer, ext') ≡ unsubscribe_fn entry.ws_sub_id ext)
  unfolding unsubscribe
  last-closes c k entry s ext h e found one =
      let few : leb entry.refcount 1 ≡ true =
        ground (arith, (h.entries k entry found).count, one) in
      rw (e, found, few) (lookup-erase_self c s.consumer_map, lookup-erase_self k s.logical, refl)

  -- In a state with right counts, a consumer that leaves a stream with others closes nothing: the
  -- stream stays under its id with one reference less, the consumer's callback is gone from it, every
  -- other callback stays, and so does every other stream.
  pub others-stay :
      (c : ℕ) (k : Stream) (entry : Entry) (s : SubscriptionManager) (ext : Ext)
      → IsCounted s
      → lookup c s.consumer_map ≡ some k
      → lookup k s.logical ≡ some entry
      → 2 ≤ length entry.callbacks
      → let (answer, s', ext') = unsubscribe subscribe_fn unsubscribe_fn c s ext in
        (answer ≡ ok tt)
        × (ext' ≡ ext)
        × (lookup c s'.consumer_map ≡ none)
        × StaysFor c k entry s s'
  unfolding unsubscribe
  others-stay c k entry s ext h e found more =
      let many : leb entry.refcount 1 ≡ false =
        ground (arith, (h.entries k entry found).count, more) in
      rw (e, found, many)
        (
          refl,
          refl,
          lookup-erase_self c s.consumer_map,
          record {
            entry_left = left c entry;
            found = lookup-insert_self k (left c entry) s.logical;
            id_kept = refl;
            one_less = ground (arith, many);
            gone = lookup-erase_self c entry.callbacks;
            others = λ d apart. lookup-erase_ne c d entry.callbacks apart;
            streams = λ j apart. lookup-insert_ne k j (left c entry) s.logical apart;
          },
        )
