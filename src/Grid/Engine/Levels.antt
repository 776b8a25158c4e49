-- ===== src/Grid/Engine/Levels.antt =====
-- A predicate on levels through the calls of the store, backend/engine/grid/state.py.
use utos.Prelude.{
  false, ℕ, ◌≡◌, ◌∙◌, refl, sym, subst, ◌==◌, some, List, [], ◌∷◌, ok, err, arith, All, Bool-cases,
  Option-cases, Result-cases, inl, inr,
}
use utos.Prelude.Dict.{lookup, insert, number_key, lookup-insert_self}
use utos.Grid.Models.{LevelStatus, GridLevel, GridState, GridFailure}
use utos.Grid.State.Store.{found_and_moved, find_level-number}
use utos.Grid.State.{
  Store, find_level, change_level, with_status, transition_level, update_level, list_levels,
  validate_level_transition,
}

pub find_level-change_level_self :
    (n : ℕ) (f : GridLevel → GridLevel) (lvs : List GridLevel) (lv : GridLevel)
    → ((x : GridLevel) → (f x).level ≡ x.level)
    → find_level n lvs ≡ some lv
    → find_level n (change_level n f lvs) ≡ some (f lv)
unfolding find_level change_level
find_level-change_level_self n f [] lv same e = absurd (ground arith)
find_level-change_level_self n f (x ∷ xs) lv same e =
    ground (arith, find_level-change_level_self n f xs lv same, same x)

pub find_level-change_level_other :
    (n m : ℕ) (f : GridLevel → GridLevel) (lvs : List GridLevel)
    → ((x : GridLevel) → (f x).level ≡ x.level)
    → (n == m) ≡ false
    → find_level m (change_level n f lvs) ≡ find_level m lvs
unfolding find_level change_level
find_level-change_level_other n m f [] same other = refl
find_level-change_level_other n m f (x ∷ xs) same other =
    ground (arith, find_level-change_level_other n m f xs same other, same x)

pub change_level-change_level :
    (n : ℕ) (f h : GridLevel → GridLevel) (lvs : List GridLevel)
    → ((x : GridLevel) → (f x).level ≡ x.level)
    → change_level n h (change_level n f lvs) ≡ change_level n (λ x. h (f x)) lvs
unfolding change_level
change_level-change_level n f h [] same = refl
change_level-change_level n f h (x ∷ xs) same =
    ground (arith, change_level-change_level n f h xs same, same x)

pub change_level-All :
    (P : GridLevel → Type 0) (n : ℕ) (f : GridLevel → GridLevel) (lvs : List GridLevel)
    → All P lvs
    → ((lv : GridLevel) → find_level n lvs ≡ some lv → P (f lv))
    → All P (change_level n f lvs)
unfolding find_level change_level
change_level-All P n f [] h k = tt
change_level-All P n f (x ∷ xs) h k = elim (Bool-cases (x.level == n)) [
  | inl here ↦ rw here (k x (rw here refl), h.1)
  | inr other ↦ rw other (h.0, change_level-All P n f xs h.1 (λ lv e. k lv (rw other e)))
]

same_found : (lv y : GridLevel) → some lv ≡ some y → lv ≡ y
same_found lv y e = cc

find_level-All :
    (P : GridLevel → Type 0) (n : ℕ) (lvs : List GridLevel) (lv : GridLevel)
    → All P lvs
    → find_level n lvs ≡ some lv
    → P lv
unfolding find_level
find_level-All P n [] lv h e = absurd (ground arith)
find_level-All P n (x ∷ xs) lv h e = elim (Bool-cases (x.level == n)) [
  | inl here ↦ subst P (same_found x lv (rw here at e)) h.0
  | inr other ↦ find_level-All P n xs lv h.1 (rw other at e)
]

-- every level of a grid satisfies `P`
abbrev pub Levels : (GridLevel → Type 0) → ℕ → Store → Type 0
Levels P id g = All P (list_levels id g)

pub list_levels-found :
    (id : ℕ) (state : GridState) (g : Store)
    → lookup id g ≡ some state
    → list_levels id g ≡ state.levels
unfolding list_levels
list_levels-found id state g found = rw (list_levels, found) refl

list_levels-insert :
    (id : ℕ) (state : GridState) (g : Store) → list_levels id (insert id state g) ≡ state.levels
list_levels-insert id state g =
    list_levels-found id state (insert id state g) (lookup-insert_self id state g)

pub insert_keeps :
    (P : GridLevel → Type 0) (id : ℕ) (state : GridState) (g : Store)
    → All P state.levels
    → Levels P id (insert id state g)
insert_keeps P id state g h = subst (All P) (sym (list_levels-insert id state g)) h

pub update_keeps :
    (P : GridLevel → Type 0) (id n : ℕ) (f : GridLevel → GridLevel) (g : Store)
    → Levels P id g
    → ((lv : GridLevel) → P lv → P (f lv))
    → Levels P id (update_level id n f g).1
unfolding update_level
update_keeps P id n f g h k = elim (Option-cases (lookup id g)) [
  | inl unknown ↦ rw (update_level, unknown) h
  | inr (state, found) ↦
      let all = subst (All P) (list_levels-found id state g found) h in
      elim (Option-cases (find_level n state.levels)) [
        | inl missing ↦ rw (update_level, found, missing) h
        | inr (lv, here) ↦
            rw (update_level, found, here)
              (insert_keeps P id (record state { levels = change_level n f state.levels }) g
                (change_level-All P n f state.levels all
                  (λ x e. k x (find_level-All P n state.levels x all e))))
      ]
]

pub transition_keeps :
    (P : GridLevel → Type 0) (id n : ℕ) (s : LevelStatus) (g : Store)
    → Levels P id g
    → ((lv : GridLevel) → lv.level ≡ n → P lv → P (with_status s lv))
    → Levels P id (transition_level id n s g).1
unfolding transition_level
transition_keeps P id n s g h k = elim (Option-cases (lookup id g)) [
  | inl unknown ↦ rw (transition_level, unknown) h
  | inr (state, found) ↦
      let all = subst (All P) (list_levels-found id state g found) h in
      elim (Option-cases (find_level n state.levels)) [
        | inl missing ↦ rw (transition_level, found, missing) h
        | inr (lv, here) ↦ elim (Result-cases (validate_level_transition lv.status s)) [
          | inl (u, allowed) ↦ rw (found_and_moved id n s state lv g found here allowed) (
              insert_keeps P id
                (record state { levels = change_level lv.level (with_status s) state.levels }) g
                (rw (find_level-number n state.levels lv here) (
                  change_level-All P n (with_status s) state.levels all (λ x e.
                    k x (find_level-number n state.levels x e)
                      (find_level-All P n state.levels x all e)))))
          | inr (x, refused) ↦ rw (transition_level, found, here, refused) h
        ]
      ]
]

-- what `update_level` does once the grid and the level are found
pub found_and_updated :
    (id n : ℕ) (f : GridLevel → GridLevel) (state : GridState) (lv : GridLevel) (g : Store)
    → lookup id g ≡ some state
    → find_level n state.levels ≡ some lv
    → update_level id n f g
      ≡ (ok (f lv), insert id (record state { levels = change_level n f state.levels }) g)
unfolding update_level
found_and_updated id n f state lv g found here = rw (found, here)

-- An update of a level and its move to a status, as one order makes them.
pub update_then_move_keeps :
    (P : GridLevel → Type 0) (id n : ℕ) (f : GridLevel → GridLevel) (s : LevelStatus) (g : Store)
    → Levels P id g
    → ((lv : GridLevel) → (f lv).level ≡ lv.level)
    → ((lv : GridLevel) → P (with_status s (f lv)))
    → ((lv : GridLevel) (x : GridFailure)
        → validate_level_transition (f lv).status s ≡ err x
        → P (f lv))
    → Levels P id (transition_level id n s (update_level id n f g).1).1
unfolding update_level transition_level
update_then_move_keeps P id n f s g h same moved stuck = elim (Option-cases (lookup id g)) [
  | inl unknown ↦ rw (unknown, unknown) h
  | inr (state, found) ↦
      let all = subst (All P) (list_levels-found id state g found) h in
      elim (Option-cases (find_level n state.levels)) [
        | inl missing ↦ rw (found, missing, found, missing) h
        | inr (lv, here) ↦
            let state' : GridState = record state { levels = change_level n f state.levels } in
            let g' : Store = insert id state' g in
            let found' = lookup-insert_self id state' g in
            let here' = find_level-change_level_self n f state.levels lv same here in
            rw (found_and_updated id n f state lv g found here)
              (elim (Result-cases (validate_level_transition (f lv).status s)) [
                | inl (u, allowed) ↦
                    rw (found_and_moved id n s state' (f lv) g' found' here' allowed) (
                      insert_keeps P id
                        (record state' {
                          levels = change_level (f lv).level (with_status s) state'.levels;
                        })
                        g'
                        (rw
                          (
                            same lv,
                            find_level-number n state.levels lv here,
                            change_level-change_level n f (with_status s) state.levels same,
                          )
                          (change_level-All P n (λ x. with_status s (f x)) state.levels all
                            (λ x e. moved x))))
                | inr (x, refused) ↦
                    rw (found', here', refused)
                      (insert_keeps P id state' g (
                        change_level-All P n f state.levels all (λ y e. stuck y x (
                          subst
                            (λ (z : GridLevel). validate_level_transition (f z).status s ≡ err x)
                            (same_found lv y (sym here ∙ e)) refused))))
              ])
      ]
]

-- A failed update changes nothing.
pub update_err :
    (id n : ℕ) (f : GridLevel → GridLevel) (g : Store) (x : GridFailure)
    → (update_level id n f g).0 ≡ err x
    → (update_level id n f g).1 ≡ g
unfolding update_level
update_err id n f g x e = ground arith
