-- ===== src/Prelude/Rounding.antt =====
-- What rounding keeps: the order of numbers that are finite.
use Prim.Native.Nat.{◌*◌, ◌≤◌, ◌<◌}
use mathlib.Core.Path.{◌≡◌}
use mathlib.Core.Bool.{false}
use native.Mathlib.Omega.{arith}
use native.Mathlib.Nat.{mul-pos, le_of_mul-le-mul_left, mul-le-mul_left}
use stake_basket.Prelude.Fractions.{Ratio, less, add, times, quotient}

-- a is at most b, and both are finite.
abbrev pub IsAtMost : Ratio → Ratio → Type 0
IsAtMost a b = (0 < a.den) × (0 < b.den) × (a.num * b.den ≤ b.num * a.den)

-- The documented behaviour of rounding: it keeps the order. A number that is rounded to Infinity is not
-- meant, nor those above it.
abbrev pub IsRounding : (Ratio → Ratio) → Type 0
IsRounding round = (a b : Ratio) → IsAtMost a b → 0 < (round b).den → IsAtMost (round a) (round b)

pub IsAtMost-times : (a b c : Ratio) → 0 < c.den → IsAtMost a b → IsAtMost (times a c) (times b c)
IsAtMost-times a b c finite (fa, fb, le) =
    (mul-pos fa finite, mul-pos fb finite, omega (arith, mul-le-mul_left (c.num * c.den) le))

pub IsAtMost-times_by :
    (c a b : Ratio) → 0 < c.den → IsAtMost a b → IsAtMost (times c a) (times c b)
IsAtMost-times_by c a b finite (fa, fb, le) =
    (mul-pos finite fa, mul-pos finite fb, omega (arith, mul-le-mul_left (c.num * c.den) le))

pub IsAtMost-add : (a b c d : Ratio) → IsAtMost a b → IsAtMost c d → IsAtMost (add a c) (add b d)
IsAtMost-add a b c d (fa, fb, le) (fc, fd, le') = (
  mul-pos fa fc,
  mul-pos fb fd,
  omega (arith, mul-le-mul_left (c.den * d.den) le, mul-le-mul_left (a.den * b.den) le'),
)

pub IsAtMost-quotient :
    (a b c : Ratio) → 0 < c.num → IsAtMost a b → IsAtMost (quotient a c) (quotient b c)
IsAtMost-quotient a b c positive (fa, fb, le) =
    (mul-pos fa positive, mul-pos fb positive, omega (arith, mul-le-mul_left (c.num * c.den) le))

-- What is not below a bound is not below it either when it is larger.
pub not_less-IsAtMost :
    (a b bound : Ratio) → IsAtMost a b → less a bound ≡ false → less b bound ≡ false
not_less-IsAtMost a b bound (fa, fb, le) h =
    let low : bound.num * a.den ≤ a.num * bound.den = ground (arith, h) in
    let enough : bound.num * b.den ≤ b.num * bound.den =
      le_of_mul-le-mul_left {k = a.den}
        (omega (arith, mul-le-mul_left b.den low, mul-le-mul_left bound.den le)) fa in
    ground (arith, enough)
