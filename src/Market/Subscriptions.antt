-- ===== src/Market/Subscriptions.antt =====
-- backend/market/subscription_manager.py. A consumer id is the number that uuid4 gave, a callback is
-- known by a number, and the functions that open and close a stream are parameters that act on a
-- state of their own. `subscribe` is cut at its await.
pub mod Count
pub mod Leave
pub mod Race
use utos.Prelude.{
  ℕ, ◌+◌, ◌-◌, ◌≤◌, leb, ◌≡◌, ◌↔◌, Bool, true, false, ◌&&◌, Option, none, some, List, [], ◌∷◌,
  Result, ok, err, is_some, if◌then◌else◌, arith, length,
}
use utos.Prelude.Text.{Text, lower, upper, text_eq, text_eq_iff}
use utos.Prelude.Dict.{Dict, Key, number_key, lookup, insert, erase, values}

abbrev pub Stream : Type 0
Stream = Text × Text × Text

abbrev pub stream_eq : Stream → Stream → Bool
stream_eq (a, b, c) (x, y, z) = text_eq a x && (text_eq b y && text_eq c z)

pub stream_eq_iff : (p q : Stream) → (stream_eq p q ≡ true) ↔ (p ≡ q)
stream_eq_iff (a, b, c) (x, y, z) =
    ground (arith, text_eq_iff a x, text_eq_iff b y, text_eq_iff c z)

instance abbrev pub stream_key : Key Stream
stream_key = record { beq = stream_eq; beq_iff = stream_eq_iff }

pub record Entry : Type 0 where
  pub ws_sub_id : ℕ
  pub refcount : ℕ
  pub exchange : Text
  pub symbol : Text
  pub channel : Text
  pub callbacks : Dict ℕ ℕ

pub record SubscriptionManager : Type 0 where
  pub logical : Dict Stream Entry
  pub consumer_map : Dict ℕ Stream

-- _logical_key
unfoldable pub logical_key : Text → Text → Text → Stream
unfolding lower upper
logical_key exchange symbol channel = (lower exchange, upper symbol, lower channel)

-- a further consumer of an open stream
abbrev pub joined : ℕ → ℕ → Entry → Entry
joined consumer_id callback entry = record entry {
  refcount = entry.refcount + 1;
  callbacks = insert consumer_id callback entry.callbacks;
}

abbrev pub register_or_join :
    Option Entry → Stream → ℕ → ℕ → SubscriptionManager → Bool × SubscriptionManager
register_or_join none stream consumer_id callback s = (false, s)
register_or_join (some entry) stream consumer_id callback s =
    (true, record s { logical = insert stream (joined consumer_id callback entry) s.logical })

-- `subscribe` up to its await: whether the consumer joined a stream that is open
unfoldable pub subscribe_start : ℕ → Stream → ℕ → SubscriptionManager → Bool × SubscriptionManager
subscribe_start consumer_id stream callback s =
    register_or_join (lookup stream s.logical) stream consumer_id callback
      (record s { consumer_map = insert consumer_id stream s.consumer_map })

abbrev pub fresh_entry : ℕ → Stream → ℕ → ℕ → Entry
fresh_entry ws_sub_id stream consumer_id callback = record {
  ws_sub_id = ws_sub_id;
  refcount = 1;
  exchange = stream.0;
  symbol = stream.1;
  channel = stream.2;
  callbacks = insert consumer_id callback [];
}

-- `subscribe` from its await on, with the id of the stream that was opened
unfoldable pub subscribe_finish : ℕ → ℕ → Stream → ℕ → SubscriptionManager → SubscriptionManager
subscribe_finish ws_sub_id consumer_id stream callback s = record s {
  logical = insert stream (fresh_entry ws_sub_id stream consumer_id callback) s.logical;
}

-- a consumer leaves an entry that has others
abbrev pub left : ℕ → Entry → Entry
left consumer_id entry = record entry {
  refcount = entry.refcount - 1;
  callbacks = erase consumer_id entry.callbacks;
}

module _ {Ext : Type 0} (subscribe_fn : Text → Text → Text → ℕ → Ext → Result ℕ ℕ × Ext)
    (unsubscribe_fn : ℕ → Ext → Result ℕ (Unit {0}) × Ext) where
  abbrev pub finish_with :
      Result ℕ ℕ × Ext
      → ℕ
      → Stream
      → ℕ
      → SubscriptionManager
      → Result ℕ ℕ × SubscriptionManager × Ext
  finish_with (err e, ext) consumer_id stream callback s = (err e, s, ext)
  finish_with (ok ws_sub_id, ext) consumer_id stream callback s =
      (ok consumer_id, subscribe_finish ws_sub_id consumer_id stream callback s, ext)

  abbrev pub subscribe_rest :
      Bool × SubscriptionManager
      → ℕ
      → Text
      → Text
      → Text
      → ℕ
      → Ext
      → Result ℕ ℕ × SubscriptionManager × Ext
  subscribe_rest (true, s) consumer_id exchange symbol channel callback ext =
      (ok consumer_id, s, ext)
  subscribe_rest (false, s) consumer_id exchange symbol channel callback ext =
      finish_with (subscribe_fn exchange symbol channel callback ext) consumer_id
        (logical_key exchange symbol channel) callback s

  unfoldable pub subscribe :
      ℕ
      → Text
      → Text
      → Text
      → ℕ
      → SubscriptionManager
      → Ext
      → Result ℕ ℕ × SubscriptionManager × Ext
  unfolding logical_key subscribe_start
  subscribe consumer_id exchange symbol channel callback s ext =
      subscribe_rest (subscribe_start consumer_id (logical_key exchange symbol channel) callback s)
        consumer_id exchange symbol channel callback ext

  abbrev pub leave_entry :
      Option Entry
      → ℕ
      → Stream
      → SubscriptionManager
      → Ext
      → Result ℕ (Unit {0}) × SubscriptionManager × Ext
  leave_entry none consumer_id stream s ext = (ok tt, s, ext)
  leave_entry (some entry) consumer_id stream s ext =
      if leb entry.refcount 1
      then (let (answer, ext') = unsubscribe_fn entry.ws_sub_id ext in
          (answer, record s { logical = erase stream s.logical }, ext'))
      else (ok tt, record s { logical = insert stream (left consumer_id entry) s.logical }, ext)

  abbrev pub leave_stream :
      Option Stream
      → ℕ
      → SubscriptionManager
      → Ext
      → Result ℕ (Unit {0}) × SubscriptionManager × Ext
  leave_stream none consumer_id s ext = (ok tt, s, ext)
  leave_stream (some stream) consumer_id s ext =
      leave_entry (lookup stream s.logical) consumer_id stream
        (record s { consumer_map = erase consumer_id s.consumer_map }) ext

  unfoldable pub unsubscribe :
      ℕ → SubscriptionManager → Ext → Result ℕ (Unit {0}) × SubscriptionManager × Ext
  unsubscribe consumer_id s ext = leave_stream (lookup consumer_id s.consumer_map) consumer_id s ext

abbrev pub matches : Option Text → Text → Bool
matches none t = true
matches (some u) t = text_eq t u

abbrev pub count_matching : Option Text → Option Text → Dict Stream Entry → ℕ
count_matching ex sym [] = 0
count_matching ex sym (((e, s, c), entry) ∷ d) =
    if matches ex e && matches sym s then 1 + count_matching ex sym d else count_matching ex sym d

abbrev pub total_refcount : Dict Stream Entry → ℕ
total_refcount [] = 0
total_refcount ((k, entry) ∷ d) = entry.refcount + total_refcount d

-- active_count; an argument that is not given and an empty one both are `none`
unfoldable pub active_count : Option Text → Option Text → SubscriptionManager → ℕ
unfolding lower upper
active_count exchange symbol s =
    count_matching (elim exchange [ none ↦ none | some t ↦ some (lower t) ])
      (elim symbol [ none ↦ none | some t ↦ some (upper t) ]) s.logical

unfoldable pub consumer_count : SubscriptionManager → ℕ
consumer_count s = total_refcount s.logical

unfoldable pub is_active : Text → Text → Text → SubscriptionManager → Bool
unfolding logical_key
is_active exchange symbol channel s =
    is_some (lookup (logical_key exchange symbol channel) s.logical)

-- fan_out: the callbacks that are called, in order; what one raises is dropped
unfoldable pub fan_out : Text → Text → Text → SubscriptionManager → List ℕ
unfolding logical_key
fan_out exchange symbol channel s = elim (lookup (logical_key exchange symbol channel) s.logical) [
  | none ↦ []
  | some entry ↦ values entry.callbacks
]

unfoldable pub clear : SubscriptionManager → SubscriptionManager
clear s = record { logical = []; consumer_map = [] }
