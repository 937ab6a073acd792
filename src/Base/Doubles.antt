-- ===== src/Base/Doubles.antt =====
-- The numbers of Python's `float` that are not negative: fractions whose denominator is a power of
-- two, with 53 bits, to which the results of operations are rounded. No overflow is modelled.
use Prim.Native.Nat.{ℕ, zero, suc, ◌+◌, ◌*◌, ◌/◌, ◌%◌, ◌^◌}
use mathlib.Core.Path.{◌≡◌, refl}
use mathlib.Core.Bool.{true, false}
use pyaseba.Base.Tests.{leb, ltb, if◌then◌else◌}

-- The value is the quotient of the two.
pub record Double : Type 0 where
  pub numerator : ℕ
  pub denominator : ℕ

-- The integer next to `a / b`; from the middle between two of them the even one.
abbrev pub round_even : ℕ → ℕ → ℕ
round_even a b =
    let q = a / b in if ltb (a % b * 2) b then q else if ltb b (a % b * 2) then suc q else q + q % 2

-- The fraction `a / b` multiplied by two until it has 53 bits, and rounded. The fuel is the largest
-- exponent of a double, and `p` the power of two so far.
unfoldable pub scale_up : ℕ → ℕ → ℕ → ℕ → Double
scale_up zero p a b = record { numerator = round_even (a * p) b; denominator = p }
scale_up (suc fuel) p a b = elim (leb (2 ^ 52 * b) (a * p)) [
  | true ↦ record { numerator = round_even (a * p) b; denominator = p }
  | false ↦ scale_up fuel (p * 2) a b
]

-- The same divided by two.
unfoldable pub scale_down : ℕ → ℕ → ℕ → ℕ → Double
scale_down zero p a b = record { numerator = round_even a (b * p) * p; denominator = 1 }
scale_down (suc fuel) p a b = elim (ltb a (2 ^ 53 * b * p)) [
  | true ↦ record { numerator = round_even a (b * p) * p; denominator = 1 }
  | false ↦ scale_down fuel (p * 2) a b
]

-- The double next to `a / b`.
unfoldable pub nearest : ℕ → ℕ → Double
unfolding scale_up scale_down
nearest zero b = record { numerator = 0; denominator = 1 }
nearest (suc n) b = elim (ltb (suc n) (2 ^ 53 * b)) [
  | true ↦ scale_up 1074 1 (suc n) b
  | false ↦ scale_down 971 1 (suc n) b
]

-- The product with an integer, and `int(x)`.
unfoldable pub times : ℕ → Double → Double
unfolding nearest
times k x = nearest (k * x.numerator) x.denominator

abbrev pub truncated : Double → ℕ
truncated x = x.numerator / x.denominator

-- A tenth is rounded up, and 1.001, rounded down, stays below 1001 thousandths.
tenth : truncated (times 1000 (nearest 1 10)) ≡ 100
unfolding times nearest scale_up scale_down
tenth = refl

thousandth_lost : truncated (times 1000 (nearest 1001 1000)) ≡ 1000
unfolding times nearest scale_up scale_down
thousandth_lost = refl
