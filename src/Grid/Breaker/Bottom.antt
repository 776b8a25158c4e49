-- ===== src/Grid/Breaker/Bottom.antt =====
-- The low that the breaker of backend/engine/grid/circuit_breaker.py measures a recovery from.
use utos.Prelude.{
  ℕ, subst, sym, ==_iff, ◌≢◌, none, ◌≡◌, ◌⊎◌, refl, inl, inr, true, false, Option, some, List, [],
  ◌∷◌, arith, All, Bool-cases,
}
use utos.Prelude.Decimal.{Decimal, le_dec, lt_dec}
use utos.Prelude.Decimal.Order.{le_dec_trans, le_dec_of_lt, le_dec_refl}
use utos.Grid.Breaker.{CircuitBreakerState, check_new_day, update_bottom, trigger}

-- What a price of the day `today` does to a breaker that is triggered: the rollover of the day is
-- checked first, and then the low is updated.
abbrev pub watch : ℕ → Decimal → CircuitBreakerState → CircuitBreakerState
watch today price b = update_bottom price (check_new_day today price b)

-- prices of one day, none of which resets the breaker
unfoldable pub watch_prices : ℕ → List Decimal → CircuitBreakerState → CircuitBreakerState
watch_prices today [] b = b
watch_prices today (price ∷ prices) b = watch_prices today prices (watch today price b)

same_day :
    (today : ℕ) (price : Decimal) (b : CircuitBreakerState)
    → b.trigger_date ≡ some today
    → check_new_day today price b ≡ b
unfolding check_new_day
same_day today price b dated = rw dated (rw ((==_iff today today).1 refl) refl)

other_day :
    (today day : ℕ) (price : Decimal) (b : CircuitBreakerState)
    → b.trigger_date ≡ some today
    → today ≢ day
    → ((watch day price b).bottom_price ≡ none) × ((watch day price b).triggered ≡ false)
unfolding check_new_day update_bottom
other_day today day price b dated apart = ground (arith, dated, apart, ==_iff today day)

dated_watched :
    (today : ℕ) (prices : List Decimal) (b : CircuitBreakerState)
    → b.trigger_date ≡ some today
    → (watch_prices today prices b).trigger_date ≡ some today
unfolding watch_prices update_bottom
dated_watched today [] b dated = dated
dated_watched today (price ∷ prices) b dated =
    dated_watched today prices (watch today price b)
      (rw (same_day today price b dated) (ground (arith, dated)))

-- the price is one of the list
abbrev pub IsOneOf : Decimal → List Decimal → Type 0
IsOneOf price [] = ⊥
IsOneOf price (p ∷ ps) = (price ≡ p) ⊎ IsOneOf price ps

-- the low is the lowest of the prices
abbrev pub IsMinimum : Option Decimal → List Decimal → Type 0
IsMinimum low prices =
    (bottom : Decimal) × ((low ≡ some bottom)
      × (IsOneOf bottom prices × All (λ p. le_dec bottom p ≡ true) prices))

insert_second :
    (a p q : Decimal) (ps : List Decimal) → IsOneOf a (p ∷ ps) → IsOneOf a (p ∷ (q ∷ ps))
insert_second a p q ps (inl same) = inl same
insert_second a p q ps (inr later) = inr (inr later)

not_lower : (a b : Decimal) → lt_dec a b ≡ false → le_dec b a ≡ true
not_lower a b h = ground arith

low_watched :
    (today : ℕ) (prices : List Decimal) (bottom : Decimal) (b : CircuitBreakerState)
    → b.trigger_date ≡ some today
    → b.triggered ≡ true
    → b.bottom_price ≡ some bottom
    → IsMinimum (watch_prices today prices b).bottom_price (bottom ∷ prices)
unfolding watch_prices update_bottom
low_watched today [] bottom b dated on low = (bottom, (low, (inl refl, (le_dec_refl bottom, tt))))
low_watched today (price ∷ prices) bottom b dated on low =
    subst
      (λ x.
        IsMinimum (watch_prices today prices (update_bottom price x)).bottom_price
          (bottom ∷ (price ∷ prices)))
      (sym (same_day today price b dated))
      (elim (Bool-cases (lt_dec price bottom)) [
        | inl falls ↦
            let (l, (same, (one, below))) =
              low_watched today prices price (update_bottom price b) (rw on dated) (rw on refl)
                (rw (on, low, falls) refl) in
            (
              l,
              (
                same,
                (
                  inr one,
                  (le_dec_trans l price bottom below.0 (le_dec_of_lt price bottom falls), below),
                ),
              ),
            )
        | inr stays ↦
            let (l, (same, (one, below))) =
              low_watched today prices bottom (update_bottom price b) (rw on dated) (rw on refl)
                (rw (on, low, stays) refl) in
            (
              l,
              (
                same,
                (
                  insert_second l bottom price prices one,
                  (
                    below.0,
                    (le_dec_trans l bottom price below.0 (not_lower price bottom stays), below.1),
                  ),
                ),
              ),
            )
      ])

-- A breaker that was triggered on the day `today` has as its low, after any further prices of that
-- day that do not reset it, one of the price of the trigger and those prices, and none of them is
-- below it. The first price of another day clears the low and the trigger.
pub bottom_is_lowest :
    (today now day : ℕ) (price next : Decimal) (prices : List Decimal) (b : CircuitBreakerState)
    → b.trigger_date ≡ some today
    → today ≢ day
    → let after = watch_prices today prices (trigger now price b) in
      IsMinimum after.bottom_price (price ∷ prices)
      × (((watch day next after).bottom_price ≡ none) × ((watch day next after).triggered ≡ false))
unfolding trigger
bottom_is_lowest today now day price next prices b dated apart = (
  low_watched today prices price (trigger now price b) dated refl refl,
  other_day today day next (watch_prices today prices (trigger now price b))
      (dated_watched today prices (trigger now price b) dated) apart,
)
