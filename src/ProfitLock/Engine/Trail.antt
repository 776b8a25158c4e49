-- ===== src/ProfitLock/Engine/Trail.antt =====
-- The trailing lock price under every sequence of events, backend/engine/profit_lock/engine.py.
use utos.Prelude.{
  ℕ, ◌≡◌, refl, sym, ◌∙◌, ◌⊎◌, inl, inr, ap, subst, true, false, Option, some, List, ok, arith,
}
use utos.Prelude.Text.{Text}
use utos.Prelude.Decimal.{Decimal, mul_dec, sub_dec, whole, le_dec}
use utos.Prelude.Decimal.Order.{le_dec_trans, le_dec_of_lt, le_dec_refl}
use utos.Prelude.Dict.{lookup, lookup-insert_self, number_key}
use utos.Execution.Executor.{RetryPolicy}
use utos.ProfitLock.State
use utos.ProfitLock.State.{
  ProfitLockStatus, ProfitLockState, PositionSide, LockFailure, with_lock_status,
}
use utos.ProfitLock.Policy.{Division, compute_lock_price, new_highest, raises_lock}
use utos.ProfitLock.Policy.Decisions.{
  trigger_from_monitoring, trigger_price, update_price, update_raises,
}
use utos.ProfitLock.Engine.{ProfitLockEngine, is_monitoring, raised_highest, locked_at}
use utos.ProfitLock.Engine.Settings.{enable, valid_settings, enabled_state}
use utos.ProfitLock.Engine.Events.{LockEvent, Meets, Holds, run}
use utos.ProfitLock.Engine.Events.Steps.{IsKept}
use utos.ProfitLock.Engine.Events.Keeps.{run_keeps}

-- The state is past monitoring, and its lock price is at least `floor`.
abbrev pub LocksAbove : Decimal → ProfitLockState → Type 0
LocksAbove floor s =
    (is_monitoring s.status ≡ false)
    × ((l : Decimal) × ((s.lock_price ≡ some l) × (le_dec floor l ≡ true)))

raises_above :
    (floor l l' : Decimal) (lock : Option Decimal)
    → lock ≡ some l
    → le_dec floor l ≡ true
    → raises_lock l' lock ≡ true
    → le_dec floor l' ≡ true
raises_above floor l l' lock same above raised =
    le_dec_trans floor l l' above
      (le_dec_of_lt l l' (subst (λ o. raises_lock l' o ≡ true) same raised))

not_past_monitoring :
    (s : ProfitLockState)
    → s.status ≡ ProfitLockStatus.monitoring
    → is_monitoring s.status ≡ false
    → ⊥
not_past_monitoring s h p = ground arith

LocksAbove-IsKept : (divide : Division) (floor : Decimal) → IsKept divide (LocksAbove floor)
LocksAbove-IsKept divide floor = record {
  moved = λ status s m n h. (m, h.1);
  with_id = λ order_id s h. h;
  without_id = λ s h. h;
  done = λ s h. h;
  at_position = λ p q s h. h;
  updated = λ c l profit s positive decided h. (
    h.0,
    (
      l,
      (
        refl,
        raises_above floor h.1.0 l s.lock_price h.1.1.0 h.1.1.1
            (update_raises divide c l profit s decided),
      ),
    ),
  );
  triggers = λ c l profit s positive decided h.
      elim (not_past_monitoring s (trigger_from_monitoring divide c l profit s decided) h.0) [ ];
}

-- Once an instance has a lock price and is past monitoring, no sequence of prices, position updates,
-- fills and cancellations lowers its lock price or brings it back to monitoring.
pub lock_never_falls :
    (divide : Division) (policy : RetryPolicy) (id : ℕ) (events : List LockEvent)
    (s : ProfitLockState) (l : Decimal) (e : ProfitLockEngine)
    → lookup id e.store.states ≡ some s
    → is_monitoring s.status ≡ false
    → s.lock_price ≡ some l
    → Holds (LocksAbove l) id (run divide policy id events e)
lock_never_falls divide policy id events s l e found past locked =
    run_keeps divide (LocksAbove l) (LocksAbove-IsKept divide l) id policy events e
      (rw found (past, (l, (locked, le_dec_refl l))))

-- a price that is a percentage below another
abbrev pub trail_below : Division → Decimal → Decimal → Decimal
trail_below divide price percentage =
    mul_dec price (sub_dec (whole 1) (divide percentage (whole 100)))

-- The highest price is positive, and past monitoring the lock price is the trail below it.
abbrev pub IsTrailing : Division → ProfitLockState → Type 0
IsTrailing divide s =
    (h : Decimal) × ((s.highest_price ≡ some h)
      × ((le_dec h (whole 0) ≡ false)
          × ((is_monitoring s.status ≡ true)
              ⊎ (s.lock_price ≡ some (trail_below divide h s.trail_percentage)))))

-- For a positive highest price, the engine and the policy raise it alike.
raised_highest-new_highest :
    (c h : Decimal)
    → le_dec h (whole 0) ≡ false
    → raised_highest c (some h) ≡ new_highest c (some h)
raised_highest-new_highest c h positive = ground arith

new_highest_positive :
    (c h : Decimal)
    → le_dec c (whole 0) ≡ false
    → le_dec h (whole 0) ≡ false
    → le_dec (new_highest c (some h)) (whole 0) ≡ false
new_highest_positive c h p q = ground arith

locked_trails :
    (divide : Division) (c l : Decimal) (s : ProfitLockState)
    → le_dec c (whole 0) ≡ false
    → l ≡ compute_lock_price divide (new_highest c s.highest_price) s.trail_percentage
    → IsTrailing divide s
    → (status : ProfitLockStatus) → IsTrailing divide (with_lock_status status (locked_at c l s))
unfolding mul_dec compute_lock_price
locked_trails divide c l s positive price (h, (highest, (above, lock))) status = (
  new_highest c (some h),
  (
    rw highest (ap some (raised_highest-new_highest c h above)),
    (
      new_highest_positive c h positive above,
      inr (
          ap some (
            price
            ∙ ap (λ o. compute_lock_price divide (new_highest c o) s.trail_percentage) highest)),
    ),
  ),
)

on_and_off :
    (status : ProfitLockStatus) → is_monitoring status ≡ true → is_monitoring status ≡ false → ⊥
on_and_off status p q = ground arith

IsTrailing-IsKept : (divide : Division) → IsKept divide (IsTrailing divide)
IsTrailing-IsKept divide = record {
  moved = λ status s m n h. (
    h.0,
    (
      h.1.0,
      (
        h.1.1.0,
        elim h.1.1.1 [ inl on ↦ elim (on_and_off s.status on n) [ ] | inr trails ↦ inr trails ],
      ),
    ),
  );
  with_id = λ order_id s h. h;
  without_id = λ s h. h;
  done = λ s h. h;
  at_position = λ p q s h. h;
  updated = λ c l profit s positive decided h.
      locked_trails divide c l s positive (update_price divide c l profit s decided) h s.status;
  triggers = λ c l profit s positive decided h.
      locked_trails divide c l s positive (trigger_price divide c l profit s decided) h
        ProfitLockStatus.triggered;
}

-- From `enable` with a positive entry price and settings that its guards accept, after every
-- sequence of prices, position updates, fills and cancellations the instance has a positive highest
-- price, and unless it is still monitoring its lock price is exactly the trail below it.
pub lock_trails :
    (divide : Division) (policy : RetryPolicy) (id account : ℕ) (symbol : Text)
    (entry_price quantity : Decimal) (side : PositionSide) (trigger trail most : Decimal)
    (events : List LockEvent) (e : ProfitLockEngine)
    → le_dec entry_price (whole 0) ≡ false
    → valid_settings trigger trail ≡ ok tt
    → Holds (IsTrailing divide) id (
        run divide policy id events
          (enable id account symbol entry_price quantity side trigger trail most e).1)
unfolding enable State.put
lock_trails divide policy id account symbol entry_price quantity side trigger trail most events e
      positive valid =
    let s = enabled_state account symbol entry_price quantity side trigger trail most in
    run_keeps divide (IsTrailing divide) (IsTrailing-IsKept divide) id policy events
      (enable id account symbol entry_price quantity side trigger trail most e).1
      (rw valid (
        subst (Meets (IsTrailing divide)) (sym (lookup-insert_self id s e.store.states))
          (entry_price, (refl, (positive, inl refl)))))
