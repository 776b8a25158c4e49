-- ===== src/Grid/Engine/Pending.antt =====
-- The buys that wait when the breaker of backend/engine/grid/engine.py triggers.
use utos.Prelude.{
  ℕ, ◌+◌, ◌≡◌, ◌⊎◌, refl, subst, false, Option, none, some, List, [], ◌∷◌, ok, err, arith, All,
  Bool-cases, Option-cases, inl, inr, ◌>>=◌, ◌>>◌,
}
use utos.Prelude.Dict.{lookup, number_key}
use utos.Execution.Executor.{RetryPolicy}
use utos.Execution.Models.{OrderResult}
use utos.Execution.Engine
use utos.Grid.Models.{LevelStatus, GridLevel, GridState, GridFailure}
use utos.Grid.State.{transition_level, update_level, validate_level_transition}
use utos.Grid.Planner.{GridAction, Side}
use utos.Grid.Engine.{
  GridEngine, Action, Ids, in_store, in_exec, place_order, cancel_order, place_each, cancel_each,
  with_level_order, level_request, grid_of, cancel_with,
}
use utos.Grid.Engine.Fills.{is_waiting_level, cancel_pending_each, cancel_all_pending_buys}
use utos.Grid.Engine.Levels.{Levels, list_levels-found}
use utos.Grid.Engine.Steps.{
  Preserves, then_keeps, grid_of_keeps, in_exec_keeps, store_update_keeps, move_keeps,
  store_then_move_keeps,
}

-- the level does not wait, or it holds no buy order
abbrev pub HoldsNoPending : GridLevel → Type 0
HoldsNoPending lv = (is_waiting_level lv.status ≡ false) ⊎ (lv.buy_order_id ≡ none)

each_stays :
    (account id : ℕ) (lvs : List GridLevel) (e : GridEngine)
    → All HoldsNoPending lvs
    → cancel_pending_each account id lvs e ≡ (ok tt, e)
unfolding cancel_pending_each
each_stays account id [] e h = refl
each_stays account id (lv ∷ lvs) e (inl other, h) = rw (other, each_stays account id lvs e h) refl
each_stays account id (lv ∷ lvs) e (inr no_buy, h) =
    elim (Bool-cases (is_waiting_level lv.status)) [
      | inl waits ↦ rw (waits, no_buy, each_stays account id lvs e h) refl
      | inr other ↦ rw (other, each_stays account id lvs e h) refl
    ]

pub all_stay :
    (id : ℕ) (e : GridEngine)
    → Levels HoldsNoPending id e.grids
    → cancel_all_pending_buys id e ≡ (ok tt, e)
unfolding cancel_all_pending_buys
all_stay id e h = elim (Option-cases (lookup id e.grids)) [
  | inl unknown ↦ rw unknown refl
  | inr (state, found) ↦ rw found (
      each_stays state.exchange_account_id id state.levels e
        (subst (All HoldsNoPending) (list_levels-found id state e.grids found) h))
]

-- Only a level that does not wait can refuse to open.
opens :
    (s : LevelStatus) (x : GridFailure)
    → validate_level_transition s LevelStatus.opened ≡ err x
    → is_waiting_level s ≡ false
unfolding validate_level_transition
opens s x refused = ground arith

pub with_order_stays :
    (side : Side) (order_id : ℕ) (lv : GridLevel) (x : GridFailure)
    → validate_level_transition (with_level_order side (some order_id) lv).status LevelStatus.opened
      ≡ err x
    → HoldsNoPending (with_level_order side (some order_id) lv)
with_order_stays Side.buy order_id lv x refused = inl (opens lv.status x refused)
with_order_stays Side.sell order_id lv x refused = inl (opens lv.status x refused)

pub same_number :
    (side : Side) (o : Option ℕ) (lv : GridLevel) → (with_level_order side o lv).level ≡ lv.level
same_number Side.buy o lv = refl
same_number Side.sell o lv = refl

without_order_stays :
    (side : Side) (lv : GridLevel)
    → HoldsNoPending lv
    → HoldsNoPending (with_level_order side none lv)
without_order_stays Side.buy lv h = inr refl
without_order_stays Side.sell lv h = h

module _ (id : ℕ) where
  pub order_keeps :
      (p : RetryPolicy) (ids : ℕ × ℕ) (action : GridAction)
      → Preserves HoldsNoPending id (place_order p id ids action)
  unfolding place_order
  order_keeps p ids action =
      let f : OrderResult → GridLevel → GridLevel =
        λ result. with_level_order action.side (some result.order_id) in
      let store : OrderResult → Action (Unit {0}) = λ result.
        in_store (update_level id action.level (f result))
        >> in_store (transition_level id action.level LevelStatus.opened) in
      let send : GridState → Action OrderResult =
        λ state. in_exec (Engine.place_order p (level_request ids.0 state action) ids.1) in
      then_keeps HoldsNoPending id (grid_of id) (λ state. send state >>= store)
        (grid_of_keeps HoldsNoPending id)
        (λ state.
          then_keeps HoldsNoPending id (send state) store
            (in_exec_keeps HoldsNoPending id
              (Engine.place_order p (level_request ids.0 state action) ids.1))
            (λ result.
              store_then_move_keeps HoldsNoPending id action.level (f result) LevelStatus.opened
                (same_number action.side (some result.order_id)) (λ lv. inl refl)
                (with_order_stays action.side result.order_id)))

  cancelled_keeps :
      (state : GridState) (action : GridAction) (o : Option ℕ)
      → Preserves HoldsNoPending id (cancel_with id state action o)
  unfolding cancel_with
  cancelled_keeps state action none = λ e h. h
  cancelled_keeps state action (some order_id) =
      let update : Action (Unit {0}) =
        in_store (update_level id action.level (with_level_order action.side none)) in
      let move : Action (Unit {0}) =
        in_store (transition_level id action.level LevelStatus.cancelled) in
      let send : Action OrderResult =
        in_exec (Engine.cancel_order state.exchange_account_id order_id) in
      then_keeps HoldsNoPending id send (λ result. update >> move)
        (in_exec_keeps HoldsNoPending id (Engine.cancel_order state.exchange_account_id order_id))
        (λ result.
          then_keeps HoldsNoPending id update (λ u. move)
            (store_update_keeps HoldsNoPending id action.level (with_level_order action.side none)
              (without_order_stays action.side))
            (λ u.
              move_keeps HoldsNoPending id action.level LevelStatus.cancelled
                (λ lv same h. inl refl)))

  pub cancel_keeps : (action : GridAction) → Preserves HoldsNoPending id (cancel_order id action)
  unfolding cancel_order
  cancel_keeps action =
      then_keeps HoldsNoPending id (grid_of id)
        (λ state. cancel_with id state action action.order_id) (grid_of_keeps HoldsNoPending id)
        (λ state. cancelled_keeps state action action.order_id)

  pub place_each_keeps :
      (p : RetryPolicy) (ids : Ids) (n : ℕ) (actions : List GridAction)
      → Preserves HoldsNoPending id (place_each p id ids n actions)
  unfolding place_each
  place_each_keeps p ids n [] = λ e h. h
  place_each_keeps p ids n (action ∷ actions) =
      then_keeps HoldsNoPending id (place_order p id (ids n) action)
        (λ u. place_each p id ids (n + 1) actions) (order_keeps p (ids n) action)
        (λ u. place_each_keeps p ids (n + 1) actions)

  pub cancel_each_keeps :
      (actions : List GridAction) → Preserves HoldsNoPending id (cancel_each id actions)
  unfolding cancel_each
  cancel_each_keeps [] = λ e h. h
  cancel_each_keeps (action ∷ actions) =
      then_keeps HoldsNoPending id (cancel_order id action) (λ u. cancel_each id actions)
        (cancel_keeps action) (λ u. cancel_each_keeps actions)
