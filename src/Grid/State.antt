-- ===== src/Grid/State.antt =====
-- backend/engine/grid/state.py: the two state machines and the store of grids. A grid that the store
-- hands out is the stored object; the model has the store's own view of it.
pub mod Machine
pub mod Store
use utos.Prelude.{
  ℕ, ◌==◌, Bool, true, false, Option, none, some, List, [], ◌∷◌, ◌||◌, Result, ok, err,
  if◌then◌else◌,
}
use utos.Prelude.Dict.{Dict, number_key, lookup, insert, erase}
use utos.Grid.Models.{
  LevelStatus, GridStatus, GridLevel, GridState, GridFailure, grid_not_found, level_not_found,
  invalid_grid_transition, invalid_level_transition,
}

abbrev grid_ordinal : GridStatus → ℕ
grid_ordinal GridStatus.idle = 0
grid_ordinal GridStatus.initialized = 1
grid_ordinal GridStatus.active = 2
grid_ordinal GridStatus.paused = 3
grid_ordinal GridStatus.completed = 4
grid_ordinal GridStatus.error = 5

abbrev level_ordinal : LevelStatus → ℕ
level_ordinal LevelStatus.waiting = 0
level_ordinal LevelStatus.opened = 1
level_ordinal LevelStatus.filled = 2
level_ordinal LevelStatus.cancelled = 3
level_ordinal LevelStatus.tp_hit = 4

-- GRID_TRANSITIONS
unfoldable pub grid_transitions : GridStatus → List GridStatus
grid_transitions GridStatus.idle = GridStatus.initialized ∷ []
grid_transitions GridStatus.initialized = GridStatus.active ∷ GridStatus.error ∷ []
grid_transitions GridStatus.active =
    GridStatus.paused ∷ GridStatus.completed ∷ GridStatus.error ∷ []
grid_transitions GridStatus.paused =
    GridStatus.active ∷ GridStatus.completed ∷ GridStatus.error ∷ []
grid_transitions GridStatus.error = GridStatus.active ∷ GridStatus.paused ∷ []
grid_transitions GridStatus.completed = []

-- LEVEL_TRANSITIONS
unfoldable pub level_transitions : LevelStatus → List LevelStatus
level_transitions LevelStatus.waiting = LevelStatus.opened ∷ LevelStatus.cancelled ∷ []
level_transitions LevelStatus.opened =
    LevelStatus.filled ∷ LevelStatus.cancelled ∷ LevelStatus.waiting ∷ LevelStatus.tp_hit ∷ []
level_transitions LevelStatus.filled =
    LevelStatus.opened ∷ LevelStatus.tp_hit ∷ LevelStatus.cancelled ∷ []
level_transitions LevelStatus.tp_hit = LevelStatus.waiting ∷ LevelStatus.opened ∷ []
level_transitions LevelStatus.cancelled = LevelStatus.waiting ∷ []

unfoldable pub grid_member : GridStatus → List GridStatus → Bool
grid_member s [] = false
grid_member s (t ∷ ts) = grid_ordinal t == grid_ordinal s || grid_member s ts

unfoldable pub level_member : LevelStatus → List LevelStatus → Bool
level_member s [] = false
level_member s (t ∷ ts) = level_ordinal t == level_ordinal s || level_member s ts

unfoldable pub validate_grid_transition : GridStatus → GridStatus → Result GridFailure (Unit {0})
unfolding grid_transitions grid_member
validate_grid_transition from_status to_status =
    if grid_member to_status (grid_transitions from_status)
    then ok tt
    else err (invalid_grid_transition from_status to_status)

unfoldable pub validate_level_transition : LevelStatus → LevelStatus → Result GridFailure (Unit {0})
unfolding level_transitions level_member
validate_level_transition from_status to_status =
    if level_member to_status (level_transitions from_status)
    then ok tt
    else err (invalid_level_transition from_status to_status)

unfoldable pub is_grid_terminal : GridStatus → Bool
is_grid_terminal status = grid_ordinal status == grid_ordinal GridStatus.completed

unfoldable pub is_level_terminal : LevelStatus → Bool
is_level_terminal status = level_ordinal status == level_ordinal LevelStatus.tp_hit

abbrev pub Store : Type 0
Store = Dict ℕ GridState

-- for lv in state.levels: the first level with that number
unfoldable pub find_level : ℕ → List GridLevel → Option GridLevel
find_level level [] = none
find_level level (lv ∷ lvs) = if lv.level == level then some lv else find_level level lvs

-- the levels after a change of the first one with that number
unfoldable pub change_level : ℕ → (GridLevel → GridLevel) → List GridLevel → List GridLevel
change_level level f [] = []
change_level level f (lv ∷ lvs) =
    if lv.level == level then f lv ∷ lvs else lv ∷ change_level level f lvs

move_grid :
    Result GridFailure (Unit {0})
    → ℕ
    → GridState
    → GridStatus
    → Store
    → Result GridFailure GridState × Store
move_grid (err e) id state to_status g = (err e, g)
move_grid (ok _) id state to_status g =
    let state' = record state { status = to_status } in (ok state', insert id state' g)

move_found_grid : Option GridState → ℕ → GridStatus → Store → Result GridFailure GridState × Store
unfolding move_grid
move_found_grid none id to_status g = (err grid_not_found, g)
move_found_grid (some state) id to_status g =
    move_grid (validate_grid_transition state.status to_status) id state to_status g

unfoldable pub transition_grid : ℕ → GridStatus → Store → Result GridFailure GridState × Store
unfolding move_found_grid
transition_grid id to_status g = move_found_grid (lookup id g) id to_status g

abbrev pub with_status : LevelStatus → GridLevel → GridLevel
with_status status lv = record lv { status = status }

move_level :
    Result GridFailure (Unit {0})
    → ℕ
    → GridState
    → GridLevel
    → LevelStatus
    → Store
    → Result GridFailure GridLevel × Store
move_level (err e) id state lv to_status g = (err e, g)
move_level (ok _) id state lv to_status g = (
  ok (with_status to_status lv),
  insert id (record state { levels = change_level lv.level (with_status to_status) state.levels })
      g,
)

move_found_level :
    Option GridLevel → ℕ → GridState → LevelStatus → Store → Result GridFailure GridLevel × Store
unfolding move_level
move_found_level none id state to_status g = (err level_not_found, g)
move_found_level (some lv) id state to_status g =
    move_level (validate_level_transition lv.status to_status) id state lv to_status g

transition_level_in :
    Option GridState → ℕ → ℕ → LevelStatus → Store → Result GridFailure GridLevel × Store
unfolding move_found_level
transition_level_in none id level to_status g = (err grid_not_found, g)
transition_level_in (some state) id level to_status g =
    move_found_level (find_level level state.levels) id state to_status g

unfoldable pub transition_level : ℕ → ℕ → LevelStatus → Store → Result GridFailure GridLevel × Store
unfolding transition_level_in
transition_level id level to_status g = transition_level_in (lookup id g) id level to_status g

unfoldable pub list_levels : ℕ → Store → List GridLevel
list_levels id g = elim (lookup id g) [ none ↦ [] | some state ↦ state.levels ]

unfoldable pub get_level : ℕ → ℕ → Store → Option GridLevel
get_level id level g = elim (lookup id g) [
  | none ↦ none
  | some state ↦ find_level level state.levels
]

update_found_level :
    Option GridLevel
    → ℕ
    → GridState
    → ℕ
    → (GridLevel → GridLevel)
    → Store
    → Result GridFailure GridLevel × Store
update_found_level none id state level f g = (err level_not_found, g)
update_found_level (some lv) id state level f g =
    (ok (f lv), insert id (record state { levels = change_level level f state.levels }) g)

update_level_in :
    Option GridState
    → ℕ
    → ℕ
    → (GridLevel → GridLevel)
    → Store
    → Result GridFailure GridLevel × Store
unfolding update_found_level
update_level_in none id level f g = (err level_not_found, g)
update_level_in (some state) id level f g =
    update_found_level (find_level level state.levels) id state level f g

-- `f` sets the attributes that the keyword arguments name.
unfoldable pub update_level :
    ℕ → ℕ → (GridLevel → GridLevel) → Store → Result GridFailure GridLevel × Store
unfolding update_level_in
update_level id level f g = update_level_in (lookup id g) id level f g

unfoldable pub put : ℕ → GridState → Store → Store
put id state g = insert id state g

unfoldable pub remove : ℕ → Store → Option GridState × Store
remove id g = (lookup id g, erase id g)

-- GridStateStore.clear
unfoldable pub clear : Store → Store
clear g = []
