-- ===== src/Market/Subscriptions/Count.antt =====
-- A stream stays open as long as somebody listens, and no longer.
use utos.Prelude.{
  ℕ, ◌==◌, ==_iff, ◌≤◌, ◌≡◌, refl, Bool, true, false, Option, none, some, [], Result, ok, err,
  is_some, if◌then◌else◌, if_true, if_false, sym, ◌∙◌, subst, arith, length, Bool-cases,
  Option-cases, inl, inr,
}
use utos.Prelude.Text.{Text}
use utos.Prelude.Dict.{
  Dict, number_key, lookup, insert, erase, lookup-insert, lookup-erase, lookup-insert_self, values,
  Distinct, insert-Distinct, length-insert_new,
}
use utos.Market.Subscriptions.{
  Stream, stream_key, stream_eq, stream_eq_iff, Entry, SubscriptionManager, logical_key, joined,
  subscribe_start, fresh_entry, subscribe_finish, subscribe, finish_with, fan_out,
}

abbrev pub listens : ℕ → Option Entry → Bool
listens c none = false
listens c (some entry) = is_some (lookup c entry.callbacks)

-- The count of an entry is the number of its callbacks and is not zero, and they are the consumers
-- that the consumer map sends to it.
pub record IsCountedEntry (consumer_map : Dict ℕ Stream) (k : Stream) (entry : Entry) : Type 0 where
  pub count : entry.refcount ≡ length entry.callbacks
  pub used : 1 ≤ entry.refcount
  pub distinct : Distinct entry.callbacks
  pub listed : (c : ℕ) → is_some (lookup c entry.callbacks) ≡ true → lookup c consumer_map ≡ some k

pub record IsCounted (s : SubscriptionManager) : Type 0 where
  pub entries :
      (k : Stream) (entry : Entry)
      → lookup k s.logical ≡ some entry
      → IsCountedEntry s.consumer_map k entry
  pub consumers :
      (c : ℕ) (k : Stream)
      → lookup c s.consumer_map ≡ some k
      → listens c (lookup k s.logical) ≡ true

not_listed :
    (s : SubscriptionManager) (k : Stream) (entry : Entry) (c : ℕ)
    → IsCountedEntry s.consumer_map k entry
    → lookup c s.consumer_map ≡ none
    → lookup c entry.callbacks ≡ none
not_listed s k entry c h absent = ground (arith, h.listed c)

join-Entry :
    (k : Stream) (c cb : ℕ) (entry : Entry) (s : SubscriptionManager)
    → IsCountedEntry s.consumer_map k entry
    → lookup c s.consumer_map ≡ none
    → IsCountedEntry (insert c k s.consumer_map) k (joined c cb entry)
join-Entry k c cb entry s h absent =
    let unlisted = not_listed s k entry c h absent in
    record {
      count = ground (arith, h.count, length-insert_new c cb entry.callbacks unlisted);
      used = omega arith;
      distinct = insert-Distinct c cb entry.callbacks h.distinct;
      listed = λ d there. ground (
        arith,
        lookup-insert c d cb entry.callbacks,
        lookup-insert c d k s.consumer_map,
        h.listed d,
      );
    }

other-Entry :
    (k j : Stream) (c : ℕ) (entry : Entry) (s : SubscriptionManager)
    → IsCountedEntry s.consumer_map j entry
    → lookup c s.consumer_map ≡ none
    → IsCountedEntry (insert c k s.consumer_map) j entry
other-Entry k j c entry s h absent = record {
  count = h.count;
  used = h.used;
  distinct = h.distinct;
  listed = λ d there. ground (arith, lookup-insert c d k s.consumer_map, h.listed d there);
}

pub some_injective : {A : Type 0} (a b : A) → some a ≡ some b → a ≡ b
some_injective a b e = cc

-- what holds of the new entry and of the old ones holds of the entries after an insertion
pub every-insert :
    (P : Stream → Entry → Type 0) (k : Stream) (new : Entry) (d : Dict Stream Entry)
    → P k new
    → ((j : Stream) (entry : Entry) → stream_eq k j ≡ false → lookup j d ≡ some entry → P j entry)
    → (j : Stream) (entry : Entry) → lookup j (insert k new d) ≡ some entry
    → P j entry
every-insert P k new d h hs j entry e =
    let found = sym (lookup-insert k j new d) ∙ e in
    elim (Bool-cases (stream_eq k j)) [
      | inl same ↦
          subst (λ i. P i entry) ((stream_eq_iff k j).0 same)
            (subst (P k) (some_injective new entry (sym (if_true _ _ _ same) ∙ found)) h)
      | inr other ↦ hs j entry other (sym (if_false _ _ _ other) ∙ found)
    ]

pub every-erase :
    (P : Stream → Entry → Type 0) (k : Stream) (d : Dict Stream Entry)
    → ((j : Stream) (entry : Entry) → stream_eq k j ≡ false → lookup j d ≡ some entry → P j entry)
    → (j : Stream) (entry : Entry) → lookup j (erase k d) ≡ some entry
    → P j entry
every-erase P k d hs j entry e =
    let found = sym (lookup-erase k j d) ∙ e in
    elim (Bool-cases (stream_eq k j)) [
      | inl same ↦ absurd (ground (arith, same, found))
      | inr other ↦ hs j entry other (sym (if_false _ _ _ other) ∙ found)
    ]

listens-insert :
    (k j : Stream) (c : ℕ) (new : Entry) (d : Dict Stream Entry)
    → listens c (lookup j (insert k new d))
      ≡ (if stream_eq k j then is_some (lookup c new.callbacks) else listens c (lookup j d))
listens-insert k j c new d = ground (arith, lookup-insert k j new d)

listens-new :
    (k j : Stream) (c : ℕ) (new : Entry) (d : Dict Stream Entry)
    → k ≡ j
    → is_some (lookup c new.callbacks) ≡ true
    → listens c (lookup j (insert k new d)) ≡ true
listens-new k j c new d same heard =
    listens-insert k j c new d ∙ if_true _ _ _ ((stream_eq_iff k j).1 same) ∙ heard

pub listens-kept :
    (k j : Stream) (c : ℕ) (new : Entry) (d : Dict Stream Entry)
    → (listens c (lookup k d) ≡ true → is_some (lookup c new.callbacks) ≡ true)
    → listens c (lookup j d) ≡ true
    → listens c (lookup j (insert k new d)) ≡ true
listens-kept k j c new d kept before = elim (Bool-cases (stream_eq k j)) [
  | inl same ↦
      let here = (stream_eq_iff k j).0 same in
      listens-new k j c new d here
        (kept (subst (λ i. listens c (lookup i d) ≡ true) (sym here) before))
  | inr other ↦ listens-insert k j c new d ∙ if_false _ _ _ other ∙ before
]

-- The consumers still listen when a stream gets an entry that has the new consumer and every old one.
consumers-insert :
    (k : Stream) (c : ℕ) (new : Entry) (s : SubscriptionManager)
    → IsCounted s
    → ((x : ℕ) → listens x (lookup k s.logical) ≡ true → is_some (lookup x new.callbacks) ≡ true)
    → is_some (lookup c new.callbacks) ≡ true
    → (d : ℕ) (j : Stream) → lookup d (insert c k s.consumer_map) ≡ some j
    → listens d (lookup j (insert k new s.logical)) ≡ true
consumers-insert k c new s h kept added d j there =
    let sent = sym (lookup-insert c d k s.consumer_map) ∙ there in
    elim (Bool-cases (c == d)) [
      | inl same ↦
          let here = some_injective k j (sym (if_true _ _ _ same) ∙ sent) in
          listens-new k j d new s.logical here
            (subst (λ i. is_some (lookup i new.callbacks) ≡ true) ((==_iff c d).0 same) added)
      | inr other ↦
          let before = h.consumers d j (sym (if_false _ _ _ other) ∙ sent) in
          listens-kept k j d new s.logical (kept d) before
    ]

join-IsCounted :
    (k : Stream) (c cb : ℕ) (entry : Entry) (s : SubscriptionManager)
    → lookup k s.logical ≡ some entry
    → lookup c s.consumer_map ≡ none
    → IsCounted s
    → IsCounted (record {
      logical = insert k (joined c cb entry) s.logical;
      consumer_map = insert c k s.consumer_map;
    })
join-IsCounted k c cb entry s e absent h = record {
  entries =
      every-insert (IsCountedEntry _) k (joined c cb entry) s.logical
        (join-Entry k c cb entry s (h.entries k entry e) absent)
        (λ j x other f. other-Entry k j c x s (h.entries j x f) absent);
  consumers =
      consumers-insert k c (joined c cb entry) s h
        (λ x heard. ground (arith, lookup-insert c x cb entry.callbacks, e))
        (ground (arith, lookup-insert c c cb entry.callbacks));
}

fresh-Entry :
    (k : Stream) (c cb ws : ℕ) (m : Dict ℕ Stream)
    → IsCountedEntry (insert c k m) k (fresh_entry ws k c cb)
unfolding insert lookup
fresh-Entry k c cb ws m = record {
  count = refl;
  used = omega arith;
  distinct = (refl, tt);
  listed = λ d there. ground (arith, lookup-insert c d k m);
}

open-IsCounted :
    (k : Stream) (c cb ws : ℕ) (s : SubscriptionManager)
    → lookup k s.logical ≡ none
    → lookup c s.consumer_map ≡ none
    → IsCounted s
    → IsCounted (record {
      logical = insert k (fresh_entry ws k c cb) s.logical;
      consumer_map = insert c k s.consumer_map;
    })
open-IsCounted k c cb ws s e absent h = record {
  entries =
      every-insert (IsCountedEntry _) k (fresh_entry ws k c cb) s.logical
        (fresh-Entry k c cb ws s.consumer_map)
        (λ j x other f. other-Entry k j c x s (h.entries j x f) absent);
  consumers =
      consumers-insert k c (fresh_entry ws k c cb) s h (λ x heard. absurd (ground (arith, e)))
        (ground (arith, lookup-insert c c cb []));
}

module _ {Ext : Type 0} (subscribe_fn : Text → Text → Text → ℕ → Ext → Result ℕ ℕ × Ext)
    (unsubscribe_fn : ℕ → Ext → Result ℕ (Unit {0}) × Ext) where
  finish-IsCounted :
      (r : Result ℕ ℕ × Ext) (k : Stream) (c cb id : ℕ) (s : SubscriptionManager)
      → lookup k s.logical ≡ none
      → lookup c s.consumer_map ≡ none
      → (finish_with subscribe_fn unsubscribe_fn r c k cb
          (record s { consumer_map = insert c k s.consumer_map })).0
        ≡ ok id
      → IsCounted s
      → IsCounted
          (finish_with subscribe_fn unsubscribe_fn r c k cb
            (record s { consumer_map = insert c k s.consumer_map })).1
  unfolding subscribe_finish
  finish-IsCounted (err x, ext) k c cb id s missing absent e h = absurd (ground arith)
  finish-IsCounted (ok ws, ext) k c cb id s missing absent e h =
      open-IsCounted k c cb ws s missing absent h

  -- A subscription under a new consumer id that answers keeps the counts right, whether it joins a
  -- stream or opens one.
  pub subscribe-IsCounted :
      (c : ℕ) (ex sy ch : Text) (cb id : ℕ) (s : SubscriptionManager) (ext : Ext)
      → lookup c s.consumer_map ≡ none
      → (subscribe subscribe_fn unsubscribe_fn c ex sy ch cb s ext).0 ≡ ok id
      → IsCounted s
      → IsCounted (subscribe subscribe_fn unsubscribe_fn c ex sy ch cb s ext).1
  unfolding subscribe subscribe_start subscribe_finish
  subscribe-IsCounted c ex sy ch cb id s ext absent e h =
      elim (Option-cases (lookup (logical_key ex sy ch) s.logical)) [
        | inr (entry, there) ↦
            rw there (join-IsCounted (logical_key ex sy ch) c cb entry s there absent h)
        | inl missing ↦ rw missing (
            finish-IsCounted (subscribe_fn ex sy ch cb ext) (logical_key ex sy ch) c cb id s missing
              absent (rw (subscribe, subscribe_start, missing) at e) h)
      ]

  -- A consumer of an open stream joins it: nothing is opened, and the stream is still the same one.
  pub subscribe-shares :
      (c : ℕ) (ex sy ch : Text) (cb : ℕ) (entry : Entry) (s : SubscriptionManager) (ext : Ext)
      → lookup (logical_key ex sy ch) s.logical ≡ some entry
      → let (answer, s', ext') = subscribe subscribe_fn unsubscribe_fn c ex sy ch cb s ext in
        (answer ≡ ok c)
        × (ext' ≡ ext)
        × (lookup (logical_key ex sy ch) s'.logical ≡ some (joined c cb entry))
        × (fan_out ex sy ch s' ≡ values (insert c cb entry.callbacks))
  unfolding subscribe subscribe_start fan_out
  subscribe-shares c ex sy ch cb entry s ext there =
      let put = lookup-insert_self (logical_key ex sy ch) (joined c cb entry) s.logical in
      rw (there) (refl, refl, put, rw (fan_out, put) refl)
