-- ===== src/Recovery/Reconciler/Grid.antt =====
-- Reconciling a grid twice against the same orders changes its levels once.
use utos.Prelude.{
  sym, subst, false, none, Option, ◌||◌, ◌≡◌, refl, true, false, some, List, [], ◌∷◌, arith,
}
use utos.Execution.Models.{OrderResult}
use utos.Grid.Models.{GridLevel}
use utos.Recovery.Reconciler.{
  order_of, sync_level, sync_buy, sync_sell, sync_levels, reconcile_grid, is_over, is_filled,
  is_cancelled, is_filled_level, is_hit, is_open,
}

sync_level_twice :
    (orders : List OrderResult) (lv : GridLevel)
    → (sync_level orders (sync_level orders lv).0).0 ≡ (sync_level orders lv).0
unfolding sync_level
sync_level_twice orders lv = ground arith

-- What becomes of a level by what the exchange lists of its orders. An order that is missing there,
-- or that is neither filled nor cancelled, changes nothing.
pub record Becomes (orders : List OrderResult) (before after : GridLevel) : Type 0 where
  pub bought :
      (order : OrderResult)
      → order_of before.buy_order_id orders ≡ some order
      → is_filled order ≡ true
      → (is_filled_level after.status || is_hit after.status) ≡ true
  pub sold :
      (order : OrderResult)
      → order_of before.sell_order_id orders ≡ some order
      → is_filled order ≡ true
      → is_hit after.status ≡ true
  pub buy_cancelled :
      (order : OrderResult)
      → order_of before.buy_order_id orders ≡ some order
      → is_filled order ≡ false
      → is_cancelled order ≡ true
      → is_open before.status ≡ true
      → (after.buy_order_id ≡ none) × (is_open after.status ≡ false)
  pub sell_cancelled :
      (order : OrderResult)
      → order_of before.sell_order_id orders ≡ some order
      → is_filled order ≡ false
      → is_cancelled order ≡ true
      → is_open after.status ≡ true
      → after.sell_order_id ≡ none
  pub untouched :
      ((order : OrderResult)
        → order_of before.buy_order_id orders ≡ some order
        → is_over order ≡ false)
      → ((order : OrderResult)
          → order_of before.sell_order_id orders ≡ some order
          → is_over order ≡ false)
      → after ≡ before

-- level by level
abbrev pub Pairwise : (GridLevel → GridLevel → Type 0) → List GridLevel → List GridLevel → Type 0
Pairwise R [] [] = Unit
Pairwise R [] (y ∷ ys) = ⊥
Pairwise R (x ∷ xs) [] = ⊥
Pairwise R (x ∷ xs) (y ∷ ys) = R x y × Pairwise R xs ys

sync_buy_idle :
    (found : Option OrderResult) (lv : GridLevel)
    → ((order : OrderResult) → found ≡ some order → is_over order ≡ false)
    → (sync_buy found lv).0 ≡ lv
sync_buy_idle none lv h = refl
sync_buy_idle (some order) lv h = ground (arith, h order refl)

sync_sell_idle :
    (found : Option OrderResult) (lv : GridLevel)
    → ((order : OrderResult) → found ≡ some order → is_over order ≡ false)
    → (sync_sell found lv).0 ≡ lv
sync_sell_idle none lv h = refl
sync_sell_idle (some order) lv h = ground (arith, h order refl)

sync_level-Becomes :
    (orders : List OrderResult) (lv : GridLevel) → Becomes orders lv (sync_level orders lv).0
unfolding sync_level
sync_level-Becomes orders lv = record {
  bought = λ order found filled. ground arith;
  sold = λ order found filled. ground arith;
  buy_cancelled = λ order found filled cancelled waits. ground arith;
  sell_cancelled = λ order found filled cancelled waits. ground arith;
  untouched = λ buy sell.
      subst (λ x. (sync_sell (order_of x.sell_order_id orders) x).0 ≡ lv)
        (sym (sync_buy_idle (order_of lv.buy_order_id orders) lv buy))
        (sync_sell_idle (order_of lv.sell_order_id orders) lv sell);
}

sync_levels_twice :
    (orders : List OrderResult) (lvs : List GridLevel)
    → (sync_levels orders (sync_levels orders lvs).0).0 ≡ (sync_levels orders lvs).0
unfolding sync_levels
sync_levels_twice orders [] = refl
sync_levels_twice orders (lv ∷ lvs) =
    λ i. sync_level_twice orders lv i ∷ sync_levels_twice orders lvs i

sync_levels-Becomes :
    (orders : List OrderResult) (lvs : List GridLevel)
    → Pairwise (Becomes orders) lvs (sync_levels orders lvs).0
unfolding sync_levels
sync_levels-Becomes orders [] = tt
sync_levels-Becomes orders (lv ∷ lvs) =
    (sync_level-Becomes orders lv, sync_levels-Becomes orders lvs)

-- By a reconciliation, level by level: one whose buy order the exchange lists as filled is filled or
-- sold, and one whose sell order it lists as filled is sold; an open one with a cancelled buy order
-- loses it and is not open any more, and none stays open with a cancelled sell order; one of whose
-- orders none is listed as filled or cancelled is unchanged. A second reconciliation against the
-- same orders changes no level.
pub reconcile_grid_settles :
    (orders : List OrderResult) (levels : List GridLevel)
    → Pairwise (Becomes orders) levels (reconcile_grid orders levels).0
      × ((reconcile_grid orders (reconcile_grid orders levels).0).0
          ≡ (reconcile_grid orders levels).0)
unfolding reconcile_grid
reconcile_grid_settles orders levels =
    (sync_levels-Becomes orders levels, sync_levels_twice orders levels)
