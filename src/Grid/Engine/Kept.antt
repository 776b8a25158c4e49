-- ===== src/Grid/Engine/Kept.antt =====
-- A price update of backend/engine/grid/engine.py lets no waiting level hold a buy order.
use utos.Prelude.{
  is_some, not, ◌||◌, ℕ, ◌+◌, gets, pure, refl, Bool, true, false, Option, none, some, List, [],
  ◌∷◌, if◌then◌else◌, if_both, Option-cases, inl, inr, ◌>>=◌, ◌>>◌, ◌&&◌,
}
use utos.Prelude.Decimal.{Decimal}
use utos.Prelude.Dict.{lookup, number_key}
use utos.Grid.Models.{GridLevel}
use utos.Grid.State.{list_levels}
use utos.Grid.Planner.{GridAction, plan}
use utos.Grid.Engine.{Action, write_grid, place_order, at_price}
use utos.Grid.Engine.Fills.{cancel_all_pending_buys, is_active_grid}
use utos.Grid.Engine.Levels.{Levels}
use utos.Grid.Engine.Steps.{Preserves, then_keeps, write_grid_keeps}
use utos.Grid.Engine.Pending.{HoldsNoPending, all_stay, order_keeps}
use utos.Grid.Breaker.{CircuitBreakerState, check_new_day, should_trigger, trigger}
use utos.Grid.Planner.{ActionKind}
use utos.Grid.Engine.Pending.{cancel_keeps}
use utos.Grid.Engine.Prices.{
  Tick, check_breaker, ta_gate, act_on, act_each, tell_lock, tell_locks, forward, price_update,
  on_price_update, set_breaker, triggered_gate, passes, is_filled, is_triggered_breaker, widening,
}

module _ (t : Tick) (id : ℕ) (price : Decimal) where
  check_keeps :
      (b : Option CircuitBreakerState) → Preserves HoldsNoPending id (check_breaker t id price b)
  unfolding check_breaker
  check_keeps none = λ e h. h
  check_keeps (some b) =
      let b' : CircuitBreakerState = check_new_day t.today price b in
      let set : Action (Unit {0}) = set_breaker id (trigger t.now price b') in
      if_both (Preserves HoldsNoPending id) (should_trigger t.divide price b')
        (set >> (cancel_all_pending_buys id >> pure true)) (set_breaker id b' >> pure false)
        (then_keeps HoldsNoPending id set (λ u. cancel_all_pending_buys id >> pure true) (λ e h. h)
          (λ u.
            then_keeps HoldsNoPending id (cancel_all_pending_buys id) (λ v. pure true)
              (λ e h. rw (all_stay id e h) h) (λ v e h. h)))
        (λ e h. h)

  gate_keeps : (b : Option CircuitBreakerState) → Preserves HoldsNoPending id (ta_gate t id price b)
  unfolding ta_gate
  gate_keeps none = λ e h. h
  gate_keeps (some b) =
      if_both (Preserves HoldsNoPending id) b.triggered (triggered_gate t id price b)
        (pure (passes t.gate price true)) (λ e h. h) (λ e h. h)

  act_keeps :
      (blocked : Bool) (n : ℕ) (action : GridAction) (kind : ActionKind)
      → Preserves HoldsNoPending id (act_on t id blocked n action kind)
  unfolding act_on
  act_keeps blocked n action ActionKind.cancel = cancel_keeps id action
  act_keeps blocked n action ActionKind.place_buy =
      if_both (Preserves HoldsNoPending id) blocked (pure tt)
        (place_order t.policy id (t.ids n) action) (λ e h. h)
        (order_keeps id t.policy (t.ids n) action)
  act_keeps blocked n action ActionKind.place_sell = order_keeps id t.policy (t.ids n) action

  act_each_keeps :
      (blocked : Bool) (n : ℕ) (actions : List GridAction)
      → Preserves HoldsNoPending id (act_each t id blocked n actions)
  unfolding act_each
  act_each_keeps blocked n [] = λ e h. h
  act_each_keeps blocked n (action ∷ actions) =
      then_keeps HoldsNoPending id (act_on t id blocked n action action.action)
        (λ u. act_each t id blocked (n + 1) actions) (act_keeps blocked n action action.action)
        (λ u. act_each_keeps blocked (n + 1) actions)

  tell_keeps :
      (n : ℕ) (lvs : List GridLevel) → Preserves HoldsNoPending id (tell_locks t price n lvs)
  unfolding tell_locks tell_lock
  tell_keeps n [] = λ e h. h
  tell_keeps n (lv ∷ lvs) =
      let tell : Action (Unit {0}) =
        if is_filled lv.status then tell_lock t price n lv.level else pure tt in
      then_keeps HoldsNoPending id tell (λ u. tell_locks t price (n + 1) lvs)
        (if_both (Preserves HoldsNoPending id) (is_filled lv.status) (tell_lock t price n lv.level)
          (pure tt) (λ e h. h) (λ e h. h))
        (λ u. tell_keeps (n + 1) lvs)

  forward_keeps : Preserves HoldsNoPending id (forward t id price)
  unfolding forward
  forward_keeps e h =
      if_both (λ (m : Action (Unit {0})). Levels HoldsNoPending id (m e).1.grids)
        (e.has_profit_lock && is_some (lookup id e.trailing))
        (tell_locks t price 0 (list_levels id e.grids)) (pure tt)
        (tell_keeps 0 (list_levels id e.grids) e h) h

  price_update_keeps : Preserves HoldsNoPending id (price_update t id price)
  unfolding price_update
  price_update_keeps =
      let look : Action (Option CircuitBreakerState) = gets (λ e. lookup id e.breakers) in
      let plans : Option CircuitBreakerState → Action (List GridAction) =
        λ b. gets (λ e. plan id price (is_triggered_breaker b) (widening b) e.grids) in
      let rest4 : Bool → List GridAction → Bool → Action (Unit {0}) =
        λ just actions passed. act_each t id (just || not passed) 0 actions >> forward t id price in
      let rest3 : Bool → Option CircuitBreakerState → List GridAction → Action (Unit {0}) =
        λ just b actions. ta_gate t id price b >>= rest4 just actions in
      let rest2 : Bool → Action (Unit {0}) = λ just. look >>= λ b. plans b >>= rest3 just b in
      then_keeps HoldsNoPending id (write_grid id (at_price price))
        (λ u. look >>= λ b. check_breaker t id price b >>= rest2)
        (write_grid_keeps HoldsNoPending id (at_price price) (λ x. refl))
        (λ u.
          then_keeps HoldsNoPending id look (λ b. check_breaker t id price b >>= rest2) (λ e h. h)
            (λ b.
              then_keeps HoldsNoPending id (check_breaker t id price b) rest2 (check_keeps b)
                (λ just.
                  then_keeps HoldsNoPending id look (λ b'. plans b' >>= rest3 just b') (λ e h. h)
                    (λ b'.
                      then_keeps HoldsNoPending id (plans b') (rest3 just b') (λ e h. h)
                        (λ actions.
                          then_keeps HoldsNoPending id (ta_gate t id price b') (rest4 just actions)
                            (gate_keeps b')
                            (λ passed.
                              then_keeps HoldsNoPending id
                                (act_each t id (just || not passed) 0 actions)
                                (λ v. forward t id price)
                                (act_each_keeps (just || not passed) 0 actions)
                                (λ v. forward_keeps)))))))

  pub price_keeps : Preserves HoldsNoPending id (on_price_update t id price)
  unfolding on_price_update
  price_keeps e h = elim (Option-cases (lookup id e.grids)) [
    | inl unknown ↦ rw unknown h
    | inr (state, found) ↦ rw found (
        if_both (λ (m : Action (Unit {0})). Levels HoldsNoPending id (m e).1.grids)
          (is_active_grid state.status) (price_update t id price) (pure tt) (price_update_keeps e h)
          h)
  ]
