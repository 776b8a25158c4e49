-- ===== src/Grid/Engine/Started.antt =====
-- A grid that backend/engine/grid/engine.py sets up has no waiting level with a buy order.
use utos.Prelude.{
  ℕ, ◌≡◌, refl, sym, subst, inr, Option, none, some, List, Result, ok, err, All, modify,
}
use utos.Prelude.Text.{Text}
use utos.Prelude.Decimal.{Decimal}
use utos.Prelude.Dict.{insert, number_key}
use utos.Grid.Models.{GridStatus, GridState, GridFailure}
use utos.Grid.State
use utos.Grid.State.{transition_grid}
use utos.Grid.Calculator.{AveragingStep, GridData}
use utos.Grid.Calculator.Fresh.{DataOk, even_data_hold, averaging_data_hold}
use utos.ProfitLock.Policy.{Division}
use utos.Grid.Engine.{GridEngine, Action, in_store}
use utos.Grid.Engine.Setup.{install, initialize_grid, set_up, steps_given, grid_data}
use utos.Grid.Engine.Levels.{insert_keeps}
use utos.Grid.Engine.Steps.{Preserves, then_keeps, move_grid_keeps}
use utos.Grid.Engine.Pending.{HoldsNoPending}

data_hold :
    (divide : Division) (upper lower : Decimal) (n : ℕ) (investment : Decimal)
    (steps : Option (List AveragingStep))
    → DataOk HoldsNoPending (grid_data divide upper lower n investment steps)
data_hold divide upper lower n investment none =
    even_data_hold HoldsNoPending (λ i b s q. inr refl) divide upper lower n investment
data_hold divide upper lower n investment (some steps) =
    averaging_data_hold HoldsNoPending (λ i b s q. inr refl) divide upper investment steps

install_keeps :
    (id : ℕ) (make : GridData → GridState) (r : Result GridFailure GridData)
    → ((d : GridData) → (make d).levels ≡ d.0)
    → DataOk HoldsNoPending r
    → Preserves HoldsNoPending id (install id make r)
unfolding install State.put
install_keeps id make (err x) same h = λ e k. k
install_keeps id make (ok d) same h =
    let add : Action (Unit {0}) =
      modify (λ (e : GridEngine). record e { grids = insert id (make d) e.grids }) in
    then_keeps HoldsNoPending id add (λ u. in_store (transition_grid id GridStatus.initialized))
      (λ e k.
        insert_keeps HoldsNoPending id (make d) e.grids
          (subst (All HoldsNoPending) (sym (same d)) h))
      (λ u. move_grid_keeps HoldsNoPending id GridStatus.initialized)

pub initialize_keeps :
    (divide : Division) (id account : ℕ) (symbol : Text) (upper lower : Decimal) (n : ℕ)
    (investment : Decimal) (steps : Option (List AveragingStep))
    → Preserves HoldsNoPending id
        (initialize_grid divide id account symbol upper lower n investment steps)
unfolding initialize_grid
initialize_keeps divide id account symbol upper lower n investment steps =
    install_keeps id (set_up account symbol upper lower n investment (steps_given steps))
      (grid_data divide upper lower n investment (steps_given steps)) (λ d. refl)
      (data_hold divide upper lower n investment (steps_given steps))
