-- ===== src/Grid/State/Machine.antt =====
-- Histories of grids and of levels.
use utos.Prelude.{true, ◌≡◌, ◌≢◌, refl, ok, arith}
use utos.Grid.Models.{LevelStatus, GridStatus}
use utos.Grid.State.{
  validate_grid_transition, validate_level_transition, is_grid_terminal, is_level_terminal,
}

pub data GridHistory (s : GridStatus) : GridStatus → Type 0 where
  here : GridHistory s s
  next :
      {t : GridStatus} (u : GridStatus)
      → GridHistory s t
      → validate_grid_transition t u ≡ ok tt
      → GridHistory s u

completed_stuck :
    (t u : GridStatus) → is_grid_terminal t ≡ true → validate_grid_transition t u ≢ ok tt
unfolding validate_grid_transition is_grid_terminal
completed_stuck t u h e = ground arith

-- A completed grid stays completed.
pub completed_absorbs : {s t : GridStatus} → GridHistory s t → is_grid_terminal s ≡ true → t ≡ s
completed_absorbs here h = refl
completed_absorbs (next {t = t} u past e) h =
    absurd (completed_stuck t u (rw (completed_absorbs past h) h) e)

uninitialized :
    (t u : GridStatus)
    → validate_grid_transition t u ≡ ok tt
    → u ≡ GridStatus.initialized
    → t ≡ GridStatus.idle
unfolding validate_grid_transition
uninitialized t u e h = ground arith

never_idle : (t : GridStatus) → validate_grid_transition t GridStatus.idle ≢ ok tt
unfolding validate_grid_transition
never_idle t e = ground arith

-- A grid is initialized at most once: no history leads back to idle, and only an idle grid can be
-- initialized.
pub initialized_once :
    {s t : GridStatus} (u : GridStatus)
    → GridHistory s t
    → validate_grid_transition t u ≡ ok tt
    → u ≡ GridStatus.initialized
    → s ≡ GridStatus.idle
initialized_once u here e h = uninitialized _ u e h
initialized_once u (next {t = t} v past step) e h =
    absurd (never_idle t (rw (uninitialized v u e h) at step))

-- No status of a level is final: also one that `is_level_terminal` calls terminal may be left.
pub level_never_final :
    (s : LevelStatus) → (t : LevelStatus) × (validate_level_transition s t ≡ ok tt)
unfolding validate_level_transition
level_never_final LevelStatus.waiting = (LevelStatus.opened, refl)
level_never_final LevelStatus.opened = (LevelStatus.filled, refl)
level_never_final LevelStatus.filled = (LevelStatus.tp_hit, refl)
level_never_final LevelStatus.cancelled = (LevelStatus.waiting, refl)
level_never_final LevelStatus.tp_hit = (LevelStatus.waiting, refl)

-- There is a status that the code calls terminal and that has a transition.
pub terminal_level_moves :
    (s : LevelStatus)
    → is_level_terminal s ≡ true
    → validate_level_transition s LevelStatus.waiting ≡ ok tt
unfolding validate_level_transition is_level_terminal
terminal_level_moves s h = ground arith
