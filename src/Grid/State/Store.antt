-- ===== src/Grid/State/Store.antt =====
-- A transition of one level touches that level of that grid and nothing else.
use utos.Prelude.{
  ℕ, ◌==◌, ◌&&◌, ◌≡◌, ◌≢◌, refl, none, some, List, [], ◌∷◌, ok, err, arith, if◌then◌else◌,
  Option-cases, Result-cases, inl, inr,
}
use utos.Prelude.Dict.{number_key, lookup, insert, lookup-insert, lookup-insert_self}
use utos.Grid.Models.{LevelStatus, GridStatus, GridLevel, GridState, GridFailure}
use utos.Grid.State.{
  Store, find_level, change_level, with_status, transition_grid, transition_level, get_level,
  validate_grid_transition, validate_level_transition,
}

pub find_level-number :
    (n : ℕ) (lvs : List GridLevel) (lv : GridLevel) → find_level n lvs ≡ some lv → lv.level ≡ n
unfolding find_level
find_level-number n [] lv e = absurd (ground arith)
find_level-number n (x ∷ xs) lv e = ground (arith, find_level-number n xs lv)

find_level-change_level :
    (n m : ℕ) (s : LevelStatus) (lvs : List GridLevel)
    → find_level m (change_level n (with_status s) lvs) ≡ (
        if n == m
        then elim (find_level m lvs) [ none ↦ none | some lv ↦ some (with_status s lv) ]
        else find_level m lvs)
unfolding find_level change_level
find_level-change_level n m s [] = ground arith
find_level-change_level n m s (x ∷ xs) = ground (arith, find_level-change_level n m s xs)

-- what `transition_level` does once the grid and the level are found and the move is allowed
pub found_and_moved :
    (id n : ℕ) (s : LevelStatus) (state : GridState) (lv : GridLevel) (g : Store)
    → lookup id g ≡ some state
    → find_level n state.levels ≡ some lv
    → validate_level_transition lv.status s ≡ ok tt
    → transition_level id n s g ≡ (
      ok (with_status s lv),
      insert id (record state { levels = change_level lv.level (with_status s) state.levels }) g,
    )
unfolding transition_level
found_and_moved id n s state lv g e e' allowed = rw (e, e', allowed)

get_level-found :
    (id n : ℕ) (lv : GridLevel) (g : Store)
    → get_level id n g ≡ some lv
    → (state : GridState) × (lookup id g ≡ some state) × (find_level n state.levels ≡ some lv)
unfolding get_level
get_level-found id n lv g e = elim (Option-cases (lookup id g)) [
  | inl missing ↦ absurd (ground arith)
  | inr (state, found) ↦ (state, found, rw (get_level, found) at e)
]

get_level-insert_other :
    (id id' m : ℕ) (state : GridState) (g : Store)
    → id ≢ id'
    → get_level id' m (insert id state g) ≡ get_level id' m g
unfolding get_level
get_level-insert_other id id' m state g ne = ground (arith, lookup-insert id id' state g)

get_level-insert_self :
    (id m : ℕ) (state : GridState) (g : Store)
    → get_level id m (insert id state g) ≡ find_level m state.levels
unfolding get_level
get_level-insert_self id m state g = rw (get_level, lookup-insert_self id state g)

-- A level that may move moves: the level of that number in that grid has the new status, and every
-- other level of every grid is as before.
pub transition_level_lem :
    (id n : ℕ) (s : LevelStatus) (lv : GridLevel) (g : Store)
    → get_level id n g ≡ some lv
    → validate_level_transition lv.status s ≡ ok tt
    → let (answer, g') = transition_level id n s g in
      (answer ≡ ok (with_status s lv))
      × ((id' m : ℕ)
          → get_level id' m g'
            ≡ (if id == id' && n == m then some (with_status s lv) else get_level id' m g))
unfolding get_level find_level
transition_level_lem id n s lv g e allowed =
    let (state, found, here) = get_level-found id n lv g e in
    let moved = found_and_moved id n s state lv g found here allowed in
    let number = find_level-number n state.levels lv here in
    rw moved (
      refl,
      λ id' m.
          let put =
            lookup-insert id id'
              (record state { levels = change_level lv.level (with_status s) state.levels }) g in
          ground
            (arith, put, found, here, number, find_level-change_level lv.level m s state.levels),
    )

-- A level that may not move, or is not there, leaves the store as it is.
pub transition_level_fails :
    (id n : ℕ) (s : LevelStatus) (e : GridFailure) (g : Store)
    → (transition_level id n s g).0 ≡ err e
    → (transition_level id n s g).1 ≡ g
unfolding transition_level
transition_level_fails id n s e g h = elim (Option-cases (lookup id g)) [
  | inl missing ↦ rw missing refl
  | inr (state, found) ↦ elim (Option-cases (find_level n state.levels)) [
    | inl missing ↦ rw (found, missing) refl
    | inr (lv, here) ↦ elim (Result-cases (validate_level_transition lv.status s)) [
      | inl (t, allowed) ↦
          let broken = rw (found_and_moved id n s state lv g found here allowed) at h in
          absurd (ground arith)
      | inr (f, refused) ↦ rw (found, here, refused) refl
    ]
  ]
]

-- A grid that may move gets the new status and keeps its levels; the other grids are untouched.
pub transition_grid_lem :
    (id : ℕ) (s : GridStatus) (state : GridState) (g : Store)
    → lookup id g ≡ some state
    → validate_grid_transition state.status s ≡ ok tt
    → let (answer, g') = transition_grid id s g in
      (answer ≡ ok (record state { status = s }))
      × ((id' : ℕ)
          → lookup id' g'
            ≡ (if id == id' then some (record state { status = s }) else lookup id' g))
unfolding transition_grid
transition_grid_lem id s state g e allowed =
    rw (e, allowed) (refl, λ id'. lookup-insert id id' (record state { status = s }) g)
