-- ===== src/Grid/Engine/Cycle.antt =====
-- The fill of a sell in backend/engine/grid/engine.py, which ends a cycle of its level.
use utos.Prelude.{
  ℕ, ◌+◌, ◌==◌, ◌≡◌, ◌∙◌, refl, sym, false, ap, subst, none, some, List, ok, if◌then◌else◌, ◌>>◌,
  bind_ok, pure,
}
use utos.Prelude.Decimal.{Decimal, add_dec, sub_dec, mul_dec}
use utos.Prelude.Dict.{lookup, insert, number_key, lookup-insert_self}
use utos.Grid.Models.{LevelStatus, GridStatus, GridLevel, GridState}
use utos.Grid.State.{
  find_level, change_level, with_status, transition_level, get_level, validate_level_transition,
}
use utos.Grid.State.Store.{found_and_moved, find_level-number}
use utos.Grid.Engine.{GridEngine, Action, in_store, write_level, write_grid, level_of}
use utos.Grid.Engine.Fills.{on_sell_filled, with_cycle, reopen, without_sell, is_active_grid}
use utos.Grid.Engine.Levels.{
  find_level-change_level_self, find_level-change_level_other, change_level-change_level,
  found_and_updated,
}

-- a level after its cycle
abbrev pub closed : GridLevel → GridLevel
closed lv = record lv { status = LevelStatus.waiting; sell_order_id = none }

abbrev pub with_levels : List GridLevel → GridState → GridState
with_levels lvs state = record state { levels = lvs }

abbrev stored_grid : ℕ → GridState → GridEngine → GridEngine
stored_grid id state e = record e { grids = insert id state e.grids }

move_ok :
    (id n : ℕ) (s : LevelStatus) (state : GridState) (lv : GridLevel) (e : GridEngine)
    → lookup id e.grids ≡ some state
    → find_level n state.levels ≡ some lv
    → validate_level_transition lv.status s ≡ ok tt
    → in_store (transition_level id n s) e
      ≡ (ok tt, stored_grid id (with_levels (change_level n (with_status s) state.levels) state) e)
unfolding in_store
move_ok id n s state lv e found here allowed =
    rw
      (
        found_and_moved id n s state lv e.grids found here allowed,
        find_level-number n state.levels lv here,
      )
      refl

write_level_ok :
    (id n : ℕ) (f : GridLevel → GridLevel) (state : GridState) (lv : GridLevel) (e : GridEngine)
    → lookup id e.grids ≡ some state
    → find_level n state.levels ≡ some lv
    → write_level id n f e
      ≡ (ok tt, stored_grid id (with_levels (change_level n f state.levels) state) e)
unfolding write_level
write_level_ok id n f state lv e found here =
    rw (found_and_updated id n f state lv e.grids found here) refl

write_grid_ok :
    (id : ℕ) (f : GridState → GridState) (state : GridState) (e : GridEngine)
    → lookup id e.grids ≡ some state
    → write_grid id f e ≡ (ok tt, stored_grid id (f state) e)
unfolding write_grid
write_grid_ok id f state e found = rw found refl

level_of_ok :
    (id n : ℕ) (state : GridState) (lv : GridLevel) (e : GridEngine)
    → lookup id e.grids ≡ some state
    → find_level n state.levels ≡ some lv
    → level_of id n e ≡ (ok lv, e)
unfolding get_level
level_of_ok id n state lv e found here = rw (get_level, found, here) refl

reopen_ok :
    (id n : ℕ) (state : GridState) (lv : GridLevel) (e : GridEngine)
    → lookup id e.grids ≡ some state
    → state.status ≡ GridStatus.active
    → find_level n state.levels ≡ some lv
    → validate_level_transition lv.status LevelStatus.waiting ≡ ok tt
    → reopen id n e ≡ (
      ok tt,
      stored_grid id
          (with_levels (change_level n (with_status LevelStatus.waiting) state.levels) state)
          e,
    )
unfolding reopen
reopen_ok id n state lv e found active here allowed = rw found (
    subst
      (λ (s : GridStatus).
        (if is_active_grid s then in_store (transition_level id n LevelStatus.waiting) else pure tt)
          e
        ≡ (
          ok tt,
          stored_grid id
              (with_levels (change_level n (with_status LevelStatus.waiting) state.levels) state) e,
        ))
      (sym active) (move_ok id n LevelStatus.waiting state lv e found here allowed))

-- the states of the grid on the way of the fill
abbrev sold_state : ℕ → GridState → GridState
sold_state n state =
    with_levels
      (change_level n without_sell (change_level n (with_status LevelStatus.tp_hit) state.levels))
      state

abbrev cycled_state : ℕ → Decimal → Decimal → GridState → GridLevel → GridState
cycled_state n price quantity state lv = with_cycle price lv.buy_price quantity (sold_state n state)

abbrev ended_state : ℕ → Decimal → Decimal → GridState → GridLevel → GridState
ended_state n price quantity state lv =
    with_levels (change_level n (with_status LevelStatus.waiting) (sold_state n state).levels)
      (cycled_state n price quantity state lv)

abbrev on_the_way : ℕ → ℕ → Decimal → Decimal → GridState → GridLevel → GridEngine → GridEngine
on_the_way id n price quantity state lv e =
    stored_grid id (cycled_state n price quantity state lv) (
      stored_grid id (sold_state n state) (
        stored_grid id
          (with_levels (change_level n (with_status LevelStatus.tp_hit) state.levels) state) e))

sold_ok :
    (id n : ℕ) (price quantity : Decimal) (state : GridState) (lv : GridLevel) (e : GridEngine)
    → lookup id e.grids ≡ some state
    → state.status ≡ GridStatus.active
    → find_level n state.levels ≡ some lv
    → validate_level_transition lv.status LevelStatus.tp_hit ≡ ok tt
    → on_sell_filled id n price quantity e ≡ (
      ok tt,
      stored_grid id
          (ended_state n price quantity state lv)
          (on_the_way id n price quantity state lv e),
    )
unfolding on_sell_filled validate_level_transition
sold_ok id n price quantity state lv e found active here allowed =
    let lv1 : GridLevel = with_status LevelStatus.tp_hit lv in
    let s1 : GridState =
      with_levels (change_level n (with_status LevelStatus.tp_hit) state.levels) state in
    let s2 : GridState = sold_state n state in
    let s3 : GridState = cycled_state n price quantity state lv in
    let e1 : GridEngine = stored_grid id s1 e in
    let e2 : GridEngine = stored_grid id s2 e1 in
    let e3 : GridEngine = stored_grid id s3 e2 in
    let here1 =
      find_level-change_level_self n (with_status LevelStatus.tp_hit) state.levels lv (λ x. refl)
        here in
    let here2 = find_level-change_level_self n without_sell s1.levels lv1 (λ x. refl) here1 in
    let move : Action (Unit {0}) = in_store (transition_level id n LevelStatus.tp_hit) in
    let write : Action (Unit {0}) = write_level id n without_sell in
    let cycle : GridLevel → Action (Unit {0}) =
      λ x. write_grid id (with_cycle price x.buy_price quantity) in
    bind_ok (level_of id n) (λ x. move >> (write >> (cycle x >> reopen id n))) e e lv
      (level_of_ok id n state lv e found here)
    ∙ bind_ok move (λ u. write >> (cycle lv >> reopen id n)) e e1 tt
        (move_ok id n LevelStatus.tp_hit state lv e found here allowed)
    ∙ bind_ok write (λ u. cycle lv >> reopen id n) e1 e2 tt
        (write_level_ok id n without_sell s1 lv1 e1 (lookup-insert_self id s1 e.grids) here1)
    ∙ bind_ok (cycle lv) (λ u. reopen id n) e2 e3 tt
        (write_grid_ok id (with_cycle price lv.buy_price quantity) s2 e2
          (lookup-insert_self id s2 e1.grids))
    ∙ reopen_ok id n s3 (without_sell lv1) e3 (lookup-insert_self id s3 e2.grids) active here2 refl

-- the three changes of the level are one
three_changes :
    (n : ℕ) (lvs : List GridLevel)
    → change_level n
        (with_status LevelStatus.waiting)
        (change_level n without_sell (change_level n (with_status LevelStatus.tp_hit) lvs))
      ≡ change_level n closed lvs
three_changes n lvs =
    ap (change_level n (with_status LevelStatus.waiting))
      (change_level-change_level n (with_status LevelStatus.tp_hit) without_sell lvs (λ x. refl))
    ∙ change_level-change_level n (λ x. without_sell (with_status LevelStatus.tp_hit x))
        (with_status LevelStatus.waiting) lvs (λ x. refl)

-- the grid after a cycle: one more cycle, its profit, and the new levels
abbrev pub with_sale : Decimal → Decimal → Decimal → List GridLevel → GridState → GridState
with_sale price buy_price quantity lvs state = record state {
  levels = lvs;
  total_cycles = state.total_cycles + 1;
  total_profit = add_dec state.total_profit (mul_dec (sub_dec price buy_price) quantity);
}

-- The level that was sold waits again without a sell order, the others are as they were.
pub record Reopened (n : ℕ) (lv : GridLevel) (before after : List GridLevel) : Type 0 where
  pub sold :
      find_level n after ≡ some (record lv { status = LevelStatus.waiting; sell_order_id = none })
  pub others : (m : ℕ) → (n == m) ≡ false → find_level m after ≡ find_level m before

change_level-Reopened :
    (n : ℕ) (lv : GridLevel) (lvs : List GridLevel)
    → find_level n lvs ≡ some lv
    → Reopened n lv lvs (change_level n closed lvs)
change_level-Reopened n lv lvs here = record {
  sold = find_level-change_level_self n closed lvs lv (λ x. refl) here;
  others = λ m other. find_level-change_level_other n m closed lvs (λ x. refl) other;
}

-- The fill of a sell of an active grid, at a level that may be sold: the level waits again without
-- a sell order, the others are as before, one cycle is added, and to the profit the difference of
-- the fill price and the level's buy price, times the quantity. Nothing else of the grid changes,
-- and neither the execution engine nor any profit lock is touched.
pub sell_ends_cycle :
    (id n : ℕ) (price quantity : Decimal) (state : GridState) (lv : GridLevel) (e : GridEngine)
    → lookup id e.grids ≡ some state
    → state.status ≡ GridStatus.active
    → find_level n state.levels ≡ some lv
    → validate_level_transition lv.status LevelStatus.tp_hit ≡ ok tt
    → let after = on_sell_filled id n price quantity e in
      (lvs : List GridLevel) × Reopened n lv state.levels lvs
      × (after.0 ≡ ok tt)
      × (lookup id after.1.grids ≡ some (with_sale price lv.buy_price quantity lvs state))
      × (after.1.locks ≡ e.locks)
      × (after.1.exec ≡ e.exec)
sell_ends_cycle id n price quantity state lv e found active here allowed =
    let sold = sold_ok id n price quantity state lv e found active here allowed in
    (
      change_level n closed state.levels,
      change_level-Reopened n lv state.levels here,
      ap (λ x. x.0) sold,
      ap (λ x. lookup id x.1.grids) sold
          ∙ lookup-insert_self id (ended_state n price quantity state lv)
              (on_the_way id n price quantity state lv e).grids
          ∙ ap (λ lvs. some (with_sale price lv.buy_price quantity lvs state))
              (three_changes n state.levels),
      ap (λ x. x.1.locks) sold,
      ap (λ x. x.1.exec) sold,
    )
