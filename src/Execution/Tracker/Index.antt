-- ===== src/Execution/Tracker/Index.antt =====
-- The tracker's two dicts agree: every tracked order is found again by its request, under its own
-- account, and the operations keep it so.
use utos.Prelude.{ℕ, ◌<◌, ◌≡◌, ◌≢◌, refl, Option, none, some, arith, Bool}
use utos.Prelude.Dict.{
  lookup, erase, pair_key, number_key, lookup-insert, lookup-erase, pair_eq_iff,
}
use utos.Execution.Models.{OrderResult, TrackedOrder, Status}
use utos.Execution.Tracker.{
  OrderTracker, OrderKey, Ref, assign, fresh_order, track, get, get_by_request_id, re_key,
  re_key_found, set_status, update, update_found,
}

-- What holds of the entry `key ↦ ref`.
pub record IsFiled (t : OrderTracker) (key : OrderKey) (ref : Ref) : Type 0 where
  pub bounded : ref < t.next
  pub owned : (t.objects ref).exchange_account_id ≡ key.0
  pub indexed : lookup (t.objects ref).request_id t.request_index ≡ some key

-- Every entry is filed.
abbrev pub IsConsistent : OrderTracker → Type 0
IsConsistent t = (key : OrderKey) (ref : Ref) → lookup key t.orders ≡ some ref → IsFiled t key ref

-- An order that is in the dict is found by its request id.
pub found_by_request :
    (t : OrderTracker) (key : OrderKey) (ref : Ref)
    → IsConsistent t
    → lookup key t.orders ≡ some ref
    → get_by_request_id (t.objects ref).request_id t ≡ some ref
unfolding get_by_request_id
found_by_request t key ref c h = rw ((c key ref h).indexed) h

-- Tracking a request that is new, under a key that is new, keeps the tracker consistent.
pub track-IsConsistent :
    (rid account : ℕ) (result : OrderResult) (s : Status) (now : ℕ) (t : OrderTracker)
    → IsConsistent t
    → lookup rid t.request_index ≡ none
    → IsConsistent (track rid account result s now t).1
unfolding track
track-IsConsistent rid account result s now t c new key ref h = ground (
  arith,
  lookup-insert (account, result.order_id) key t.next t.orders,
  pair_eq_iff (account, result.order_id) key,
  lookup-insert rid rid (account, result.order_id) t.request_index,
  lookup-insert rid (t.objects ref).request_id (account, result.order_id) t.request_index,
  c key ref,
)

-- A new request is found at once, as the object that was made for it.
pub get_by_request_id-track :
    (rid account : ℕ) (result : OrderResult) (s : Status) (now : ℕ) (t : OrderTracker)
    → let (ref, t') = track rid account result s now t in
      (get_by_request_id rid t' ≡ some ref)
      × (t'.objects ref ≡ fresh_order rid account result s now)
unfolding track get_by_request_id
get_by_request_id-track rid account result s now t = ground (
  arith,
  lookup-insert rid rid (account, result.order_id) t.request_index,
  lookup-insert (account, result.order_id) (account, result.order_id) t.next t.orders,
)

re_key_found-IsConsistent :
    (found : Option Ref) (account old new : ℕ) (t : OrderTracker)
    → IsConsistent t
    → lookup (account, old) t.orders ≡ found
    → IsConsistent (re_key_found found account old new t).1
unfolding re_key_found
re_key_found-IsConsistent none account old new t c e key ref h = c key ref h
re_key_found-IsConsistent (some moved) account old new t c e key ref h = ground (
  arith,
  lookup-insert (account, new) key moved (erase (account, old) t.orders),
  lookup-erase (account, old) key t.orders,
  pair_eq_iff (account, new) key,
  pair_eq_iff (account, old) key,
  lookup-insert (t.objects moved).request_id (t.objects ref).request_id (account, new)
      t.request_index,
  c key ref,
  c (account, old) moved,
)

-- Moving an order to another id keeps the tracker consistent.
pub re_key-IsConsistent :
    (account old new : ℕ) (t : OrderTracker)
    → IsConsistent t
    → IsConsistent (re_key account old new t).1
unfolding re_key
re_key-IsConsistent account old new t c =
    re_key_found-IsConsistent (lookup (account, old) t.orders) account old new t c refl

-- A moved order is found by its new id and by its request, and no longer by its old id.
pub re_key_moves :
    (account old new : ℕ) (ref : Ref) (t : OrderTracker)
    → IsConsistent t
    → old ≢ new
    → get account old t ≡ some ref
    → let (moved, t') = re_key account old new t in
      (moved ≡ some ref)
      × (get account new t' ≡ some ref)
      × (get account old t' ≡ none)
      × (get_by_request_id (t.objects ref).request_id t' ≡ some ref)
      × (t'.objects ≡ t.objects)
unfolding re_key get get_by_request_id
re_key_moves account old new ref t c ne h =
    rw (h, re_key_found)
      (ground (
        arith,
        lookup-insert (account, new) (account, new) ref (erase (account, old) t.orders),
        lookup-insert (account, new) (account, old) ref (erase (account, old) t.orders),
        lookup-erase (account, old) (account, old) t.orders,
        lookup-insert (t.objects ref).request_id (t.objects ref).request_id (account, new)
            t.request_index,
      ))

-- A change of an object that leaves its request and its account alone.
pub assign-IsConsistent :
    (t : OrderTracker) (target : Ref) (order : TrackedOrder)
    → IsConsistent t
    → order.request_id ≡ (t.objects target).request_id
    → order.exchange_account_id ≡ (t.objects target).exchange_account_id
    → IsConsistent (record t { objects = assign t.objects target order })
assign-IsConsistent t target order c p q key ref h = ground (arith, c key ref h)

pub set_status-IsConsistent :
    (target : Ref) (s : Status) (now : ℕ) (t : OrderTracker)
    → IsConsistent t
    → IsConsistent (set_status target s now t)
unfolding set_status
set_status-IsConsistent target s now t c = assign-IsConsistent t target _ c refl refl

update_found-IsConsistent :
    (found : Option Ref) (result : OrderResult) (s : Option Status) (retry : Bool) (now : ℕ)
    (t : OrderTracker)
    → IsConsistent t
    → IsConsistent (update_found found result s retry now t).1
unfolding update_found
update_found-IsConsistent none result s retry now t c = c
update_found-IsConsistent (some target) result s retry now t c =
    assign-IsConsistent t target _ c refl refl

-- A refreshed result and status keep the tracker consistent.
pub update-IsConsistent :
    (account id : ℕ) (result : OrderResult) (s : Option Status) (retry : Bool) (now : ℕ)
    (t : OrderTracker)
    → IsConsistent t
    → IsConsistent (update account id result s retry now t).1
unfolding update
update-IsConsistent account id result s retry now t c =
    update_found-IsConsistent (lookup (account, id) t.orders) result s retry now t c
