-- ===== src/Grid/Engine/Forced.antt =====
-- The force operations of backend/engine/grid/engine.py let no waiting level hold a buy order.
use utos.Prelude.{
  ℕ, ◌+◌, refl, inl, Option, none, some, List, [], ◌∷◌, Result, pure, gets, lift, ◌>>=◌, ◌>>◌,
}
use utos.Prelude.Decimal.{Decimal}
use utos.Execution.Models.{OrderResult, OrderSide}
use utos.Execution.Executor.{RetryPolicy}
use utos.Execution.Engine
use utos.Grid.Models.{LevelStatus, GridLevel, GridState}
use utos.Grid.State.{update_level}
use utos.Grid.Planner.{Side}
use utos.Grid.Engine.{EngineFault, Action, Ids, in_store, in_exec, grid_of, with_level_order}
use utos.Grid.Engine.Force.{
  force_buy, force_sell, sell_each, must_be_active, level_to_buy, levels_to_sell, cancel_existing,
  forced_request, store_forced_buy, given_or, sell_quantity, sell_price,
}
use utos.Grid.Engine.Steps.{
  Preserves, then_keeps, grid_of_keeps, store_update_keeps, store_then_move_keeps,
}
use utos.Grid.Engine.Pending.{HoldsNoPending, with_order_stays}

module _ (id : ℕ) where
  store_keeps :
      (level : ℕ) (result : OrderResult)
      → Preserves HoldsNoPending id (store_forced_buy id level result)
  unfolding store_forced_buy
  store_keeps level result =
      store_then_move_keeps HoldsNoPending id level
        (with_level_order Side.buy (some result.order_id)) LevelStatus.opened (λ lv. refl)
        (λ lv. inl refl) (with_order_stays Side.buy result.order_id)

  existing_keeps :
      (account : ℕ) (o : Option ℕ) → Preserves HoldsNoPending id (cancel_existing account o)
  unfolding cancel_existing
  existing_keeps account none = λ e h. h
  existing_keeps account (some order_id) = λ e h. h

  pub force_buy_keeps :
      (p : RetryPolicy) (ids : ℕ × ℕ) (level : Option ℕ) (price quantity : Option Decimal)
      → Preserves HoldsNoPending id (force_buy p id ids level price quantity)
  unfolding force_buy in_exec
  force_buy_keeps p ids level price quantity =
      let send : GridState → GridLevel → Action OrderResult = λ state lv. in_exec (
        Engine.place_order p
          (forced_request ids.0 state OrderSide.buy (given_or quantity lv.quantity)
            (some (given_or price lv.buy_price)))
          ids.1) in
      let done : GridLevel → OrderResult → Action (ℕ × ℕ) =
        λ lv result. store_forced_buy id lv.level result >> pure (result.order_id, lv.level) in
      let rest : GridState → GridLevel → Action (ℕ × ℕ) = λ state lv.
        cancel_existing state.exchange_account_id lv.buy_order_id >> (send state lv >>= done lv) in
      let look : GridState → Action (Result EngineFault GridLevel) =
        λ state. gets (λ e. level_to_buy id level state e.grids) in
      let choose : GridState → Action (ℕ × ℕ) =
        λ state. look state >>= λ target. lift target >>= rest state in
      then_keeps HoldsNoPending id (grid_of id)
        (λ state. lift (must_be_active state.status) >> choose state)
        (grid_of_keeps HoldsNoPending id)
        (λ state.
          then_keeps HoldsNoPending id (lift (must_be_active state.status)) (λ u. choose state)
            (λ e h. h)
            (λ u.
              then_keeps HoldsNoPending id (look state) (λ target. lift target >>= rest state)
                (λ e h. h)
                (λ target.
                  then_keeps HoldsNoPending id (lift target) (rest state) (λ e h. h)
                    (λ lv.
                      then_keeps HoldsNoPending id
                        (cancel_existing state.exchange_account_id lv.buy_order_id)
                        (λ v. send state lv >>= done lv)
                        (existing_keeps state.exchange_account_id lv.buy_order_id)
                        (λ v.
                          then_keeps HoldsNoPending id (send state lv) (done lv) (λ e h. h)
                            (λ result.
                              then_keeps HoldsNoPending id (store_forced_buy id lv.level result)
                                (λ w. pure (result.order_id, lv.level))
                                (store_keeps lv.level result) (λ w e h. h)))))))

  sell_each_keeps :
      (p : RetryPolicy) (ids : Ids) (n : ℕ) (state : GridState) (price quantity : Option Decimal)
      (lvs : List GridLevel)
      → Preserves HoldsNoPending id (sell_each p id ids n state price quantity lvs)
  unfolding sell_each in_exec
  sell_each_keeps p ids n state price quantity [] = λ e h. h
  sell_each_keeps p ids n state price quantity (lv ∷ lvs) =
      let send : Action OrderResult = in_exec (
        Engine.place_order p
          (forced_request (ids n).0 state OrderSide.sell (sell_quantity quantity lv) price)
          (ids n).1) in
      let store : OrderResult → Action (Unit {0}) = λ result.
        in_store (update_level id lv.level (with_level_order Side.sell (some result.order_id))) in
      let more : Action (List ℕ) = sell_each p id ids (n + 1) state price quantity lvs in
      let done : OrderResult → Action (List ℕ) =
        λ result. store result >> (more >>= λ order_ids. pure (result.order_id ∷ order_ids)) in
      then_keeps HoldsNoPending id (cancel_existing state.exchange_account_id lv.sell_order_id)
        (λ u. send >>= done) (existing_keeps state.exchange_account_id lv.sell_order_id)
        (λ u.
          then_keeps HoldsNoPending id send done (λ e h. h)
            (λ result.
              then_keeps HoldsNoPending id (store result)
                (λ v. more >>= λ order_ids. pure (result.order_id ∷ order_ids))
                (store_update_keeps HoldsNoPending id lv.level
                  (with_level_order Side.sell (some result.order_id)) (λ x h. h))
                (λ v.
                  then_keeps HoldsNoPending id more
                    (λ order_ids. pure (result.order_id ∷ order_ids))
                    (sell_each_keeps p ids (n + 1) state price quantity lvs) (λ os e h. h))))

  pub force_sell_keeps :
      (p : RetryPolicy) (ids : Ids) (level : Option ℕ) (price quantity : Option Decimal)
      → Preserves HoldsNoPending id (force_sell p id ids level price quantity)
  unfolding force_sell
  force_sell_keeps p ids level price quantity =
      let rest : GridState → List GridLevel → Action (List ℕ) =
        λ state. sell_each p id ids 0 state (sell_price price state.current_price) quantity in
      let look : GridState → Action (Result EngineFault (List GridLevel)) =
        λ state. gets (λ e. levels_to_sell id level state e.grids) in
      let choose : GridState → Action (List ℕ) =
        λ state. look state >>= λ chosen. lift chosen >>= rest state in
      then_keeps HoldsNoPending id (grid_of id)
        (λ state. lift (must_be_active state.status) >> choose state)
        (grid_of_keeps HoldsNoPending id)
        (λ state.
          then_keeps HoldsNoPending id (lift (must_be_active state.status)) (λ u. choose state)
            (λ e h. h)
            (λ u.
              then_keeps HoldsNoPending id (look state) (λ chosen. lift chosen >>= rest state)
                (λ e h. h)
                (λ chosen.
                  then_keeps HoldsNoPending id (lift chosen) (rest state) (λ e h. h)
                    (sell_each_keeps p ids 0 state (sell_price price state.current_price)
                      quantity))))
