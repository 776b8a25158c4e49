-- ===== src/Grid/Planner/Widen.antt =====
-- What the daily-drop breaker takes out of a plan.
use native.Mathlib.Nat.{div-eq_of_lt-le, mul-le-mul_right, one-le-pow}
use utos.Prelude.{
  ℕ, ◌+◌, ◌*◌, ◌/◌, ◌^◌, ◌≤◌, leb, not, subst, ◌%◌, ◌==◌, ltb, ◌≡◌, refl, Bool, true, false, none,
  some, List, [], ◌∷◌, arith, if◌then◌else◌, filter, All, Option-cases, inl, inr,
}
use utos.Prelude.Int.{ℤ, pos, negsuc, pos_part, neg_part}
use utos.Prelude.Decimal.{Decimal, whole, le_dec, lt_dec}
use utos.Grid.Models.{GridLevel}
use utos.Grid.State.{Store, list_levels}
use utos.Grid.Planner.{
  GridAction, is_place_buy, skipped, not_multiples, truncate, plan, plan_each, plan_level,
  skip_buy_levels,
}

-- an action that stays when buys are widened to every `n`th level
abbrev pub stays : ℕ → GridAction → Bool
stays n a = if is_place_buy a.action then a.level % n == 0 else true

abbrev numbers : List GridLevel → List ℕ
numbers [] = []
numbers (lv ∷ lvs) = lv.level ∷ numbers lvs

skipped-not_multiples :
    (n l : ℕ) (lvs : List GridLevel)
    → skipped l (not_multiples n lvs) ≡ (if l % n == 0 then false else skipped l (numbers lvs))
unfolding skipped not_multiples
skipped-not_multiples n l [] = ground arith
skipped-not_multiples n l (lv ∷ lvs) = ground (arith, skipped-not_multiples n l lvs)

All-listed :
    (all lvs : List GridLevel)
    → ((l : ℕ) → skipped l (numbers lvs) ≡ true → skipped l (numbers all) ≡ true)
    → All (λ lv. skipped lv.level (numbers all) ≡ true) lvs
unfolding skipped
All-listed all [] h = tt
All-listed all (lv ∷ lvs) h =
    (h lv.level (ground arith), All-listed all lvs (λ l e. h l (ground arith)))

level_of_plan :
    (lv : GridLevel) (p : Decimal) (a : GridAction) → plan_level lv p ≡ some a → a.level ≡ lv.level
unfolding plan_level
level_of_plan lv p a h = ground arith

plan_each-stays :
    (n : ℕ) (p : Decimal) (all lvs : List GridLevel)
    → All (λ lv. skipped lv.level (numbers all) ≡ true) lvs
    → plan_each (some (not_multiples n all)) p lvs ≡ filter (stays n) (plan_each none p lvs)
unfolding plan_each
plan_each-stays n p all [] h = refl
plan_each-stays n p all (lv ∷ lvs) h = elim (Option-cases (plan_level lv p)) [
  | inl silent ↦ rw (silent) (plan_each-stays n p all lvs h.1)
  | inr (a, planned) ↦ rw (planned) (
      ground (
        arith,
        plan_each-stays n p all lvs h.1,
        level_of_plan lv p a planned,
        skipped-not_multiples n a.level all,
        h.0,
      ))
]

whole_part :
    (z : ℤ) (n k : ℕ)
    → leb (n * k + neg_part z * 1) (pos_part z * 1 + 0 * k) ≡ true
    → leb ((n + 1) * k + neg_part z * 1) (pos_part z * 1 + 0 * k) ≡ false
    → pos_part z / k ≡ n
whole_part (pos a) n k h g = div-eq_of_lt-le k (ground (arith, h)) (ground (arith, g))
whole_part (negsuc a) n k h g = absurd (ground (arith, h))

truncate_lem :
    (n : ℕ) (d : Decimal)
    → le_dec (whole n) d ≡ true
    → lt_dec d (whole (n + 1)) ≡ true
    → truncate d ≡ n
unfolding truncate le_dec
truncate_lem n d h g = whole_part d.coefficient n (10 ^ d.places) h (ground (arith, g))

above_parts :
    (z : ℤ) (n k : ℕ)
    → 2 ≤ n
    → 1 ≤ k
    → leb (n * k + neg_part z * 1) (pos_part z * 1 + 0 * k) ≡ true
    → not (leb (pos_part z * 1 + 0 * k) (1 * k + neg_part z * 1)) ≡ true
above_parts z n k two one h = ground (arith, h, one, mul-le-mul_right k two)

above_one : (n : ℕ) (d : Decimal) → 2 ≤ n → le_dec (whole n) d ≡ true → lt_dec (whole 1) d ≡ true
unfolding le_dec
above_one n d two h =
    above_parts d.coefficient n (10 ^ d.places) two (one-le-pow d.places 10 (omega arith)) h

-- When the breaker widens the step by a multiplier of at least two, whose whole part is `n`, the plan
-- is the plan without the breaker, less the buys at levels whose number `n` does not divide: every
-- sell stays, and nothing else changes.
pub plan_widened :
    (id n : ℕ) (p : Decimal) (multiplier : Decimal) (g : Store)
    → 2 ≤ n
    → le_dec (whole n) multiplier ≡ true
    → lt_dec multiplier (whole (n + 1)) ≡ true
    → plan id p true multiplier g ≡ filter (stays n) (plan id p false multiplier g)
unfolding plan skip_buy_levels
plan_widened id n p multiplier g two above below =
    let part = truncate_lem n multiplier above below in
    let more : ltb 1 (truncate multiplier) ≡ true = rw part (ground (arith, two)) in
    subst (λ m. plan id p true multiplier g ≡ filter (stays m) (plan id p false multiplier g)) part
      (rw (above_one n multiplier two above, more)
        (plan_each-stays (truncate multiplier) p (list_levels id g) (list_levels id g)
          (All-listed (list_levels id g) (list_levels id g) (λ l e. e))))
