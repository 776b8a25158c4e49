-- ===== src/Prelude/Decimal/Order.antt =====
-- The order of decimals is the order of the numbers that they stand for.
use native.Mathlib.Nat.{mul-le-mul_left, le_of_mul-le-mul_left, one-le-pow}
use Prim.Native.Nat.{ℕ, ◌+◌, ◌*◌, ◌^◌, ◌≤◌, ◌<◌}
use mathlib.Core.Path.{◌≡◌}
use mathlib.Core.Bool.{true}
use native.Mathlib.Omega.{arith}
use utos.Prelude.Int.{pos_part, neg_part}
use utos.Prelude.Decimal.{Decimal, le_dec, lt_dec}

cross :
    (a a' b b' c c' x y z : ℕ)
    → 0 < y
    → a * y + b' * x ≤ b * x + a' * y
    → b * z + c' * y ≤ c * y + b' * z
    → a * z + c' * x ≤ c * x + a' * z
cross a a' b b' c c' x y z h p q =
    le_of_mul-le-mul_left {k = y} (omega (arith, mul-le-mul_left z p, mul-le-mul_left x q)) h

pub le_dec_trans : (a b c : Decimal) → le_dec a b ≡ true → le_dec b c ≡ true → le_dec a c ≡ true
unfolding le_dec
le_dec_trans a b c p q = ground (
  arith,
  cross (pos_part a.coefficient) (neg_part a.coefficient) (pos_part b.coefficient)
      (neg_part b.coefficient) (pos_part c.coefficient) (neg_part c.coefficient) (10 ^ a.places)
      (10 ^ b.places) (10 ^ c.places) (one-le-pow b.places 10 (omega arith)),
)

pub le_dec_of_lt : (a b : Decimal) → lt_dec a b ≡ true → le_dec a b ≡ true
unfolding le_dec
le_dec_of_lt a b h = ground arith

pub le_dec_refl : (a : Decimal) → le_dec a a ≡ true
unfolding le_dec
le_dec_refl a = ground arith
