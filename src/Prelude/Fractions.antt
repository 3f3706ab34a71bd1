-- ===== src/Prelude/Fractions.antt =====
-- The non-negative numbers of the program as exact fractions, written num / den. A denominator of
-- zero stands for what JavaScript makes of a division by zero: n / 0 is Infinity and 0 / 0 is NaN.
-- Every comparison with NaN is false, and the products below give that without a special case.
-- The rounding of floating point numbers is left out here; where it matters it is a parameter (Rounding).
use Prim.Native.Nat.{ℕ, ◌+◌, ◌-◌, ◌*◌}
use mathlib.Core.Bool.{Bool, true, false}
use mathlib.Core.List.{List, [], ◌∷◌}
use stake_basket.Prelude.Tests.{if◌then◌else◌, ltb, leb}

pub record Ratio : Type 0 where
  pub num : ℕ
  pub den : ℕ

infixl 70 ◌over◌
abbrev pub ◌over◌ : ℕ → ℕ → Ratio
n over d = record { num = n; den = d }

-- `a < b` and `a <= b`, false on NaN. Only NaN has both parts zero.
abbrev pub is_nan : Ratio → Bool
is_nan a = if leb (a.num + a.den) 0 then true else false

abbrev pub less : Ratio → Ratio → Bool
less a b = ltb (a.num * b.den) (b.num * a.den)

abbrev pub add : Ratio → Ratio → Ratio
add a b = (a.num * b.den + b.num * a.den) over (a.den * b.den)

abbrev pub times : Ratio → Ratio → Ratio
times a b = (a.num * b.num) over (a.den * b.den)

-- a / b
abbrev pub quotient : Ratio → Ratio → Ratio
quotient a b = (a.num * b.den) over (a.den * b.num)

-- a - b where that is not negative, and 0 where it is
abbrev pub minus : Ratio → Ratio → Ratio
minus a b = (a.num * b.den - b.num * a.den) over (a.den * b.den)

-- `Math.abs(a - b)`
abbrev pub distance : Ratio → Ratio → Ratio
distance a b =
    (a.num * b.den - b.num * a.den + (b.num * a.den - a.num * b.den)) over (a.den * b.den)

-- `Math.max(a, b)` and `Math.min(a, b)` of numbers that are not NaN
abbrev pub larger : Ratio → Ratio → Ratio
larger a b = if less a b then b else a

abbrev pub smaller : Ratio → Ratio → Ratio
smaller a b = if less a b then a else b

abbrev pub sum_of : List Ratio → Ratio
sum_of [] = 0 over 1
sum_of (x ∷ xs) = add x (sum_of xs)
