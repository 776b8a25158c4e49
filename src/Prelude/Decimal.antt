-- ===== src/Prelude/Decimal.antt =====
-- Python's decimal.Decimal, for finite values: a signed coefficient and a number of decimal places.
-- Sums and products are exact, which they are in Python up to the 28 digits of its context.
pub mod Order
use Prim.Native.Nat.{ℕ, ◌+◌, ◌*◌, ◌^◌, max, ◌-◌}
use mathlib.Core.Bool.{Bool, not}
use utos.Prelude.Tests.{leb}
use utos.Prelude.Int.{ℤ, pos, pos_part, neg_part, ◌+ℤ◌, ◌-ℤ◌, ◌*ℤ◌}

pub record Decimal : Type 0 where
  pub coefficient : ℤ
  pub places : ℕ

abbrev pub whole : ℕ → Decimal
whole n = record { coefficient = pos n; places = 0 }

-- a <= b, by cross-multiplication of the two scales
unfoldable pub le_dec : Decimal → Decimal → Bool
le_dec a b =
    leb (pos_part a.coefficient * 10 ^ b.places + neg_part b.coefficient * 10 ^ a.places)
      (pos_part b.coefficient * 10 ^ a.places + neg_part a.coefficient * 10 ^ b.places)

-- a < b
abbrev pub lt_dec : Decimal → Decimal → Bool
lt_dec a b = not (le_dec b a)

-- the coefficient at a larger number of places
unfoldable pub rescale : ℕ → Decimal → ℤ
unfolding ◌*ℤ◌
rescale p a = a.coefficient *ℤ pos (10 ^ (p - a.places))

unfoldable pub add_dec : Decimal → Decimal → Decimal
unfolding rescale ◌+ℤ◌
add_dec a b =
    let p = max a.places b.places in record { coefficient = rescale p a +ℤ rescale p b; places = p }

unfoldable pub sub_dec : Decimal → Decimal → Decimal
unfolding rescale ◌-ℤ◌
sub_dec a b =
    let p = max a.places b.places in record { coefficient = rescale p a -ℤ rescale p b; places = p }

unfoldable pub mul_dec : Decimal → Decimal → Decimal
unfolding ◌*ℤ◌
mul_dec a b = record { coefficient = a.coefficient *ℤ b.coefficient; places = a.places + b.places }
