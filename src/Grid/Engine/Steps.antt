-- ===== src/Grid/Engine/Steps.antt =====
-- The steps of the methods of backend/engine/grid/engine.py, and a predicate on levels that they
-- keep.
use utos.Prelude.{
  ℕ, ◌≡◌, refl, sym, ap, subst, some, Result, ok, err, Exec, All, Option-cases, Result-cases, inl,
  inr, ◌>>=◌, ◌>>◌, bind_keeps, bind_ok, bind_err,
}
use utos.Prelude.Dict.{lookup, number_key, insert}
use utos.Execution.Executor.{World}
use utos.Execution.Models.{Failure}
use utos.Grid.Models.{LevelStatus, GridStatus, GridLevel, GridState, GridFailure}
use utos.Grid.State.{
  Store, with_status, transition_level, transition_grid, update_level, get_level,
  validate_level_transition, validate_grid_transition,
}
use utos.Grid.Engine.{
  GridEngine, EngineFault, Action, in_store, in_exec, write_level, write_grid, grid_of, level_of,
  stored,
}
use utos.Grid.Engine.Levels.{
  Levels, update_keeps, transition_keeps, update_then_move_keeps, update_err, insert_keeps,
  list_levels-found,
}

in_store_ok :
    {A : Type 0} (f : Store → Result GridFailure A × Store) (a : A) (e : GridEngine)
    → (f e.grids).0 ≡ ok a
    → in_store f e ≡ (ok tt, record e { grids = (f e.grids).1 })
unfolding in_store
in_store_ok f a e done = ap (λ r. (stored r, record e { grids = (f e.grids).1 })) done

in_store_err :
    {A : Type 0} (f : Store → Result GridFailure A × Store) (x : GridFailure) (e : GridEngine)
    → (f e.grids).0 ≡ err x
    → in_store f e ≡ (err (EngineFault.grid_fault x), record e { grids = (f e.grids).1 })
unfolding in_store
in_store_err f x e failed = ap (λ r. (stored r, record e { grids = (f e.grids).1 })) failed

module _ (P : GridLevel → Type 0) (id : ℕ) where
  -- the method keeps `P` on the levels of the grid
  abbrev pub Preserves : {A : Type 0} → Action A → Type 0
  Preserves m = (e : GridEngine) → Levels P id e.grids → Levels P id (m e).1.grids

  pub then_keeps :
      {A B : Type 0} (m : Action A) (f : A → Action B)
      → Preserves m
      → ((a : A) → Preserves (f a))
      → Preserves (m >>= f)
  then_keeps m f km kf e h =
      bind_keeps (λ (x : GridEngine). Levels P id x.grids) (m e) f e (km e h)
        (λ a eq. kf a (m e).1 (km e h))

  pub grid_of_keeps : Preserves (grid_of id)
  grid_of_keeps e h = elim (Option-cases (lookup id e.grids)) [
    | inl unknown ↦ rw unknown h
    | inr (state, found) ↦ rw found h
  ]

  pub level_of_keeps : (n : ℕ) → Preserves (level_of id n)
  level_of_keeps n e h = elim (Option-cases (get_level id n e.grids)) [
    | inl unknown ↦ rw unknown h
    | inr (state, found) ↦ rw found h
  ]

  pub in_exec_keeps : {A : Type 0} (m : Exec World Failure A) → Preserves (in_exec m)
  unfolding in_exec
  in_exec_keeps m e h = h

  pub write_level_keeps :
      (n : ℕ) (f : GridLevel → GridLevel)
      → ((lv : GridLevel) → P lv → P (f lv))
      → Preserves (write_level id n f)
  unfolding write_level
  write_level_keeps n f k e h = update_keeps P id n f e.grids h k

  pub store_update_keeps :
      (n : ℕ) (f : GridLevel → GridLevel)
      → ((lv : GridLevel) → P lv → P (f lv))
      → Preserves (in_store (update_level id n f))
  unfolding in_store
  store_update_keeps n f k e h = update_keeps P id n f e.grids h k

  pub move_keeps :
      (n : ℕ) (s : LevelStatus)
      → ((lv : GridLevel) → lv.level ≡ n → P lv → P (with_status s lv))
      → Preserves (in_store (transition_level id n s))
  unfolding in_store
  move_keeps n s k e h = transition_keeps P id n s e.grids h k

  grid_insert_keeps :
      (state state' : GridState) (g : Store)
      → lookup id g ≡ some state
      → state'.levels ≡ state.levels
      → Levels P id g
      → Levels P id (insert id state' g)
  grid_insert_keeps state state' g found same h =
      insert_keeps P id state' g
        (subst (All P) (sym same) (subst (All P) (list_levels-found id state g found) h))

  pub write_grid_keeps :
      (f : GridState → GridState)
      → ((s : GridState) → (f s).levels ≡ s.levels)
      → Preserves (write_grid id f)
  unfolding write_grid
  write_grid_keeps f same e h = elim (Option-cases (lookup id e.grids)) [
    | inl unknown ↦ rw unknown h
    | inr (state, found) ↦ rw found (grid_insert_keeps state (f state) e.grids found (same state) h)
  ]

  pub move_grid_keeps : (s : GridStatus) → Preserves (in_store (transition_grid id s))
  unfolding in_store transition_grid
  move_grid_keeps s e h = elim (Option-cases (lookup id e.grids)) [
    | inl unknown ↦ rw unknown h
    | inr (state, found) ↦ elim (Result-cases (validate_grid_transition state.status s)) [
      | inl (u, allowed) ↦
          rw (found, allowed)
            (grid_insert_keeps state (record state { status = s }) e.grids found refl h)
      | inr (x, refused) ↦ rw (found, refused) h
    ]
  ]

  -- an order of a level is stored, and then the level moves
  pub store_then_move_keeps :
      (n : ℕ) (f : GridLevel → GridLevel) (s : LevelStatus)
      → ((lv : GridLevel) → (f lv).level ≡ lv.level)
      → ((lv : GridLevel) → P (with_status s (f lv)))
      → ((lv : GridLevel) (x : GridFailure)
          → validate_level_transition (f lv).status s ≡ err x
          → P (f lv))
      → Preserves (in_store (update_level id n f) >> in_store (transition_level id n s))
  unfolding in_store
  store_then_move_keeps n f s same moved stuck e h =
      let after : GridEngine = record e { grids = (update_level id n f e.grids).1 } in
      elim (Result-cases (update_level id n f e.grids).0) [
        | inl (lv, updated) ↦
            subst (λ (x : Result EngineFault (Unit {0}) × GridEngine). Levels P id x.1.grids)
              (sym (
                bind_ok (in_store (update_level id n f)) (λ u. in_store (transition_level id n s)) e
                  after tt (in_store_ok (update_level id n f) lv e updated)))
              (update_then_move_keeps P id n f s e.grids h same moved stuck)
        | inr (x, failed) ↦
            subst (λ (x : Result EngineFault (Unit {0}) × GridEngine). Levels P id x.1.grids)
              (sym (
                bind_err (in_store (update_level id n f)) (λ u. in_store (transition_level id n s))
                  e after (EngineFault.grid_fault x)
                  (in_store_err (update_level id n f) x e failed)))
              (subst (Levels P id) (sym (update_err id n f e.grids x failed)) h)
      ]
