-- ===== src/Execution/Validator/Accepts.antt =====
-- Exactly which requests the validator lets pass.
use utos.Prelude.{
  ℕ, ◌≤◌, ◌⊎◌, ◌*◌, ◌+◌, ◌^◌, leb, true, false, Option, none, some, ◌≡◌, ◌↔◌, [], ◌∷◌, All, ok,
  arith,
}
use utos.Prelude.Text.{Text, is_blank, is_space}
use utos.Prelude.Decimal.{Decimal, le_dec}
use utos.Prelude.Int.{pos_part, neg_part, ℤ, pos, negsuc}
use utos.Execution.Models.{OrderRequest, OrderType, limit, market, stop_limit}
use utos.Execution.Validator.{validate, check, is_not_positive}

-- a character that str.strip removes
abbrev pub IsSpace : ℕ → Type 0
IsSpace c =
    ((9 ≤ c) × (c ≤ 13))
    ⊎ (((28 ≤ c) × (c ≤ 32))
        ⊎ ((c ≡ 133)
            ⊎ ((c ≡ 160)
                ⊎ ((c ≡ 5760)
                    ⊎ (((8192 ≤ c) × (c ≤ 8202))
                        ⊎ ((c ≡ 8232)
                            ⊎ ((c ≡ 8233) ⊎ ((c ≡ 8239) ⊎ ((c ≡ 8287) ⊎ (c ≡ 12288))))))))))

-- a text of such characters only
abbrev pub IsBlank : Text → Type 0
IsBlank symbol = All IsSpace symbol

is_space_iff : (c : ℕ) → (is_space c ≡ true) ↔ IsSpace c
unfolding is_space
is_space_iff c = ground arith

is_blank_iff : (t : Text) → (is_blank t ≡ true) ↔ IsBlank t
unfolding is_blank
is_blank_iff [] = ground arith
is_blank_iff (c ∷ t) = ground (arith, is_space_iff c, is_blank_iff t)

-- a number above zero
abbrev pub IsPositive : Decimal → Type 0
IsPositive d = 1 ≤ pos_part d.coefficient

above_zero_parts :
    (z : ℤ) (k : ℕ)
    → (leb (pos_part z * 1 + 0 * k) (0 * k + neg_part z * 1) ≡ false) ↔ (1 ≤ pos_part z)
above_zero_parts (pos n) k = ground arith
above_zero_parts (negsuc n) k = ground arith

above_zero_iff : (d : Decimal) → (is_not_positive d ≡ false) ↔ IsPositive d
unfolding is_not_positive le_dec
above_zero_iff d = above_zero_parts d.coefficient (10 ^ d.places)

-- an amount that is given and above zero
abbrev pub IsGiven : Option Decimal → Type 0
IsGiven none = ⊥
IsGiven (some d) = IsPositive d

-- What an order of each type has to say of its prices.
abbrev pub HasPrices : OrderType → Option Decimal → Option Decimal → Type 0
HasPrices limit p s = IsGiven p
HasPrices stop_limit p s = IsGiven p × IsGiven s
HasPrices market p s = p ≡ none

abbrev pub IsWellFormed : OrderRequest → Type 0
IsWellFormed r =
    (¬ IsBlank r.symbol) × IsPositive r.quantity × HasPrices r.order_type r.price r.stop_price

accepts :
    (n : Text) (q : Decimal) (t : OrderType) (p s : Option Decimal)
    → check n q t p s ≡ ok tt
    → (¬ IsBlank n) × IsPositive q × HasPrices t p s
unfolding check
accepts n q limit none s h = ground (arith, is_blank_iff n, above_zero_iff q)
accepts n q limit (some d) s h = ground (arith, is_blank_iff n, above_zero_iff q, above_zero_iff d)
accepts n q stop_limit none s h = ground (arith, is_blank_iff n, above_zero_iff q)
accepts n q stop_limit (some d) none h =
    ground (arith, is_blank_iff n, above_zero_iff q, above_zero_iff d)
accepts n q stop_limit (some d) (some e) h =
    ground (arith, is_blank_iff n, above_zero_iff q, above_zero_iff d, above_zero_iff e)
accepts n q market none s h = ground (arith, is_blank_iff n, above_zero_iff q)
accepts n q market (some d) s h = ground (arith, is_blank_iff n, above_zero_iff q, above_zero_iff d)

accepted :
    (n : Text) (q : Decimal) (t : OrderType) (p s : Option Decimal)
    → (¬ IsBlank n) × IsPositive q × HasPrices t p s
    → check n q t p s ≡ ok tt
unfolding check
accepted n q limit none s h = absurd h.2
accepted n q limit (some d) s h = ground (arith, is_blank_iff n, above_zero_iff q, above_zero_iff d)
accepted n q stop_limit none s h = absurd h.2.0
accepted n q stop_limit (some d) none h = absurd h.2.1
accepted n q stop_limit (some d) (some e) h =
    ground (arith, is_blank_iff n, above_zero_iff q, above_zero_iff d, above_zero_iff e)
accepted n q market none s h = ground (arith, is_blank_iff n, above_zero_iff q)
accepted n q market (some d) s h =
    ground (arith, is_blank_iff n, above_zero_iff q, above_zero_iff d)

-- The validator lets a request pass exactly when the symbol has a character that is no white space,
-- the quantity is above zero,
-- a limit order has a positive price, a stop-limit order a positive price and stop price, and a
-- market order no price.
pub validate_iff : (r : OrderRequest) → (validate r ≡ ok tt) ↔ IsWellFormed r
unfolding validate
validate_iff r = (
  accepts r.symbol r.quantity r.order_type r.price r.stop_price,
  accepted r.symbol r.quantity r.order_type r.price r.stop_price,
)
