-- ===== src/Redemption/Tests.antt =====
-- Redemptions from a pool.
use stake_basket.Prelude.{
  Answer, answered, thrown, ap, ℕ, ◌*◌, ◌/◌, ◌≤◌, ◌≡◌, refl, arith, Ratio, ◌over◌,
}
use native.Mathlib.Nat.{le-div_iff_mul-le, mul-le-mul_left, le_of_mul-le-mul_left, mul-div-le}
use stake_basket.Redemption.{
  RedemptionCalculationParams, RedemptionResult, redeemed, calculate_redemption_amount,
  can_fulfill_redemption, can_fulfill, ether, too_many_shares,
}
use stake_basket.Prelude.Rounding.{IsAtMost}
use stake_basket.Redemption.Pool.{IsValid, IsFinite, larger_redemption_returns_more}

-- A `parseEther` that drops what is below one wei.
abbrev parse_down : Ratio → Answer ℕ
parse_down a = answered (a.num * ether / a.den)

abbrev in_wei : Answer ℕ → ℕ
in_wei (answered wei) = wei
in_wei (thrown e) = 0

parse_down-le :
    (a b : Ratio) (m n : ℕ)
    → IsAtMost a b
    → parse_down a ≡ answered m
    → parse_down b ≡ answered n
    → m ≤ n
parse_down-le a b m n (fa, fb, le) ea eb =
    let q = a.num * ether / a.den in
    let scaled : q * b.den ≤ b.num * ether =
      le_of_mul-le-mul_left {k = a.den}
        (omega (
          arith,
          mul-le-mul_left b.den (mul-div-le (a.num * ether) a.den),
          mul-le-mul_left ether le,
        ))
        fa in
    rw (← ap in_wei ea, ← ap in_wei eb) ((le-div_iff_mul-le fb).1 scaled)

abbrev pool : RedemptionCalculationParams
pool = record {
  shares = 5 * ether;
  total_supply = 10 * ether;
  pooled_core = 40 * ether;
  pooled_btc = 2 * ether;
  core_price = 15 over 10;
  btc_price = 60000 over 1;
}

abbrev core_only : RedemptionCalculationParams
core_only = record pool { pooled_btc = 0 }

abbrev larger : RedemptionCalculationParams
larger = record core_only { shares = 6 * ether }

larger-IsValid : IsValid larger
larger-IsValid = record {
  supplied = omega arith;
  within = omega arith;
  core_priced = omega arith;
  core_finite = omega arith;
  btc_priced = omega arith;
  btc_finite = omega arith;
}

-- Rounding that changes nothing.
abbrev exact : Ratio → Ratio
exact a = a

larger-IsFinite : IsFinite exact larger
larger-IsFinite = record {
  shares_finite = omega arith;
  supply_positive = omega arith;
  pool_finite = omega arith;
  share_finite = omega arith;
  value_finite = omega arith;
  amount_finite = omega arith;
}

larger_redemption_returns_more_example :
    (small large : RedemptionResult) × (calculate_redemption_amount exact parse_down core_only
      ≡ redeemed small)
    × (calculate_redemption_amount exact parse_down larger ≡ redeemed large)
    × IsAtMost small.usd_value large.usd_value
    × (small.core_to_return ≤ large.core_to_return)
    × (can_fulfill_redemption large.core_to_return (40 * ether) ≡ can_fulfill
        → can_fulfill_redemption small.core_to_return (40 * ether) ≡ can_fulfill)
larger_redemption_returns_more_example =
    larger_redemption_returns_more exact parse_down core_only (6 * ether) (20 * ether) (24 * ether)
      (40 * ether) (λ a b h f. h) parse_down-le (omega arith) larger-IsValid larger-IsFinite refl
      refl

too_many :
    calculate_redemption_amount exact parse_down (record pool { shares = 11 * ether })
    ≡ too_many_shares
unfolding calculate_redemption_amount
too_many = refl
