-- ===== src/Execution/Tracker.antt =====
-- backend/engine/execution/tracker.py. A TrackedOrder is an object that the tracker's dict and its
-- callers share, so the dict holds references into a store of objects.
pub mod Index
use utos.Prelude.{
  ℕ, suc, ◌+◌, ◌==◌, Bool, true, false, Option, none, some, List, [], ◌∷◌, ◌&&◌, if◌then◌else◌, map,
  filter,
}
use utos.Prelude.Text.{Text, codes, lower, text_eq}
use utos.Prelude.Dict.{Dict, lookup, insert, erase, pair_key, number_key}
use utos.Execution.Models.{OrderResult, TrackedOrder, Status, is_active}

abbrev pub Ref : Type 0
Ref = ℕ

-- (exchange_account_id, order_id)
abbrev pub OrderKey : Type 0
OrderKey = ℕ × ℕ

-- The objects numbered below `next` have been created.
pub record OrderTracker : Type 0 where
  pub objects : Ref → TrackedOrder
  pub next : Ref
  pub orders : Dict OrderKey Ref
  pub request_index : Dict ℕ OrderKey

abbrev pub assign : (Ref → TrackedOrder) → Ref → TrackedOrder → Ref → TrackedOrder
assign objects ref order r = if ref == r then order else objects r

-- the new object, before it is stored
abbrev pub fresh_order : ℕ → ℕ → OrderResult → Status → ℕ → TrackedOrder
fresh_order request_id account result status now = record {
  request_id = request_id;
  exchange_account_id = account;
  result = result;
  status = status;
  created_at = now;
  updated_at = now;
  retry_count = 0;
}

unfoldable pub track : ℕ → ℕ → OrderResult → Status → ℕ → OrderTracker → Ref × OrderTracker
track request_id account result status now t = (
  t.next,
  record {
    objects = assign t.objects t.next (fresh_order request_id account result status now);
    next = suc t.next;
    orders = insert (account, result.order_id) t.next t.orders;
    request_index = insert request_id (account, result.order_id) t.request_index;
  },
)

-- the second lookup, on the key that the index gives
abbrev follow : Option OrderKey → Dict OrderKey Ref → Option Ref
follow none orders = none
follow (some key) orders = lookup key orders

unfoldable pub get_by_request_id : ℕ → OrderTracker → Option Ref
get_by_request_id request_id t = follow (lookup request_id t.request_index) t.orders

unfoldable pub get : ℕ → ℕ → OrderTracker → Option Ref
get account order_id t = lookup (account, order_id) t.orders

re_key_found : Option Ref → ℕ → ℕ → ℕ → OrderTracker → Option Ref × OrderTracker
re_key_found none account old new t = (none, t)
re_key_found (some ref) account old new t = (
  some ref,
  record t {
    orders = insert (account, new) ref (erase (account, old) t.orders);
    request_index = insert (t.objects ref).request_id (account, new) t.request_index;
  },
)

unfoldable pub re_key : ℕ → ℕ → ℕ → OrderTracker → Option Ref × OrderTracker
unfolding re_key_found
re_key account old new t = re_key_found (lookup (account, old) t.orders) account old new t

-- tracked.status = status; tracked.touch()
unfoldable pub set_status : Ref → Status → ℕ → OrderTracker → OrderTracker
set_status ref status now t = record t {
  objects = assign t.objects ref (record (t.objects ref) { status = status; updated_at = now });
}

abbrev new_status : Option Status → Status → Status
new_status none old = old
new_status (some status) old = status

update_found :
    Option Ref → OrderResult → Option Status → Bool → ℕ → OrderTracker → Option Ref × OrderTracker
update_found none result status increment_retry now t = (none, t)
update_found (some ref) result status increment_retry now t = (
  some ref,
  record t {
    objects = assign t.objects ref (record (t.objects ref) {
      result = result;
      status = new_status status (t.objects ref).status;
      updated_at = now;
      retry_count = (t.objects ref).retry_count + (if increment_retry then 1 else 0);
    });
  },
)

unfoldable pub update :
    ℕ → ℕ → OrderResult → Option Status → Bool → ℕ → OrderTracker → Option Ref × OrderTracker
unfolding update_found
update account order_id result status increment_retry now t =
    update_found (lookup (account, order_id) t.orders) result status increment_retry now t

update_status_found : Option Ref → Status → ℕ → OrderTracker → Option Ref × OrderTracker
unfolding set_status
update_status_found none status now t = (none, t)
update_status_found (some ref) status now t = (some ref, set_status ref status now t)

unfoldable pub update_status : ℕ → ℕ → Status → ℕ → OrderTracker → Option Ref × OrderTracker
unfolding update_status_found
update_status account order_id status now t =
    update_status_found (lookup (account, order_id) t.orders) status now t

-- exchange_account_id is None or acct_id == exchange_account_id
abbrev pub for_account : Option ℕ → ℕ → Bool
for_account none account = true
for_account (some wanted) account = account == wanted

abbrev collect :
    (Ref → TrackedOrder) → (TrackedOrder → Bool) → Option ℕ → Dict OrderKey Ref → List TrackedOrder
collect objects keep account [] = []
collect objects keep account ((key, ref) ∷ orders) =
    let rest = collect objects keep account orders in
    if keep (objects ref) && for_account account key.0 then objects ref ∷ rest else rest

unfoldable pub list_active : Option ℕ → OrderTracker → List TrackedOrder
list_active account t = collect t.objects is_active account t.orders

unfoldable pub list_all : Option ℕ → OrderTracker → List TrackedOrder
list_all account t = collect t.objects (λ _. true) account t.orders

unfoldable pub clear : OrderTracker → OrderTracker
clear t = record t { orders = []; request_index = [] }

-- A status that the table does not hold counts as open.
unfoldable pub map_exchange_status : Text → Status
map_exchange_status status =
    let value = lower status in
    if text_eq value (codes "pending")
    then Status.pending
    else if text_eq value (codes "open")
    then Status.opened
    else if text_eq value (codes "partially_filled")
    then Status.partially_filled
    else if text_eq value (codes "filled")
    then Status.filled
    else if text_eq value (codes "cancelled")
    then Status.cancelled
    else if text_eq value (codes "rejected")
    then Status.rejected
    else if text_eq value (codes "expired")
    then Status.cancelled
    else Status.opened
