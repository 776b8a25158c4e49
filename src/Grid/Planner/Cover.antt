-- ===== src/Grid/Planner/Cover.antt =====
-- Which levels a plan acts on.
use utos.Prelude.{ℕ, ◌+◌, ◌≡◌, refl, true, false, none, List, [], ◌∷◌, arith, length, All}
use utos.Prelude.Decimal.{Decimal}
use utos.Grid.Models.{GridLevel}
use utos.Grid.State.{Store, list_levels}
use utos.Grid.Planner.{
  plan, plan_each, plan_level, skip_buy_levels, plan_initial, plan_initial_each, is_waiting,
}

cover_each :
    (p : Decimal) (lvs : List GridLevel)
    → All (λ lv. is_waiting lv.status ≡ true) lvs
    → length (plan_each none p lvs) + length (plan_initial_each p lvs) ≡ length lvs
unfolding plan_each plan_level plan_initial_each
cover_each p [] h = refl
cover_each p (lv ∷ lvs) h = ground (arith, cover_each p lvs h.1, h.0)

-- While all levels of a grid wait, the initial plan and the plan of the same price without the
-- breaker divide the levels between them: together they place as many buys as there are levels.
pub plans_cover :
    (id : ℕ) (p multiplier : Decimal) (g : Store)
    → All (λ lv. is_waiting lv.status ≡ true) (list_levels id g)
    → length (plan id p false multiplier g) + length (plan_initial id p g)
      ≡ length (list_levels id g)
unfolding plan plan_initial skip_buy_levels
plans_cover id p multiplier g h = cover_each p (list_levels id g) h
