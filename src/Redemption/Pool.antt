-- ===== src/Redemption/Pool.antt =====
-- What a larger redemption takes from the pool.
use stake_basket.Prelude.{
  Answer, answered, ℕ, ◌≤◌, ◌<◌, ◌≡◌, refl, false, Ratio, ltb, ◌==◌, arith, ◌over◌,
}
use native.Mathlib.Nat.{mul-le-mul_left}
use stake_basket.Prelude.Rounding.{IsAtMost, IsRounding, IsAtMost-times_by, IsAtMost-quotient}
use stake_basket.Redemption.{
  core_amount, redeemed_as, RedemptionCalculationParams, RedemptionResult, redeemed,
  calculate_redemption_amount, result_of, is_no_price, ether, in_ether, total_value_of,
  share_percentage, redemption_value, can_fulfill_redemption, can_fulfill,
}

-- What is accepted: a share of a pool that exists, at two positive prices.
pub record IsValid (p : RedemptionCalculationParams) : Type 0 where
  pub supplied : 0 < p.total_supply
  pub within : p.shares ≤ p.total_supply
  pub core_priced : 0 < p.core_price.num
  pub core_finite : 0 < p.core_price.den
  pub btc_priced : 0 < p.btc_price.num
  pub btc_finite : 0 < p.btc_price.den

-- No result is rounded to Infinity, and the supply is not rounded to 0.
pub record IsFinite (round : Ratio → Ratio) (p : RedemptionCalculationParams) : Type 0 where
  pub shares_finite : 0 < (in_ether round p.shares).den
  pub supply_positive : 0 < (in_ether round p.total_supply).num
  pub pool_finite : 0 < (total_value_of round p).den
  pub share_finite : 0 < (share_percentage round p).den
  pub value_finite : 0 < (redemption_value round p).den
  pub amount_finite : 0 < (core_amount round p).den

module _ (round : Ratio → Ratio) (parse_ether : Ratio → Answer ℕ) where
  accepted :
      (p : RedemptionCalculationParams) (wei : ℕ)
      → IsValid p
      → parse_ether (core_amount round p) ≡ answered wei
      → calculate_redemption_amount round parse_ether p ≡ redeemed (result_of round p wei)
  unfolding calculate_redemption_amount redeemed_as
  accepted p wei v readable =
      let supply : (p.total_supply == 0) ≡ false = ground (arith, v.supplied) in
      let few : ltb p.total_supply p.shares ≡ false = ground (arith, v.within) in
      let core_fine : is_no_price p.core_price ≡ false = ground (arith, v.core_priced) in
      let btc_fine : is_no_price p.btc_price ≡ false = ground (arith, v.btc_priced) in
      rw (supply, few, core_fine, btc_fine, readable) refl

  module _ (p : RedemptionCalculationParams) (more : ℕ) where
    abbrev larger_one : RedemptionCalculationParams
    larger_one = record p { shares = more }

    value-IsAtMost :
        IsRounding round
        → p.shares ≤ more
        → IsFinite round larger_one
        → IsAtMost (redemption_value round p) (redemption_value round larger_one)
    value-IsAtMost law le f =
        let shares =
          law (p.shares over ether) (more over ether)
            (omega arith, omega arith, omega (arith, mul-le-mul_left ether le)) f.shares_finite in
        let share =
          law _ _ (IsAtMost-quotient _ _ (in_ether round p.total_supply) f.supply_positive shares)
            f.share_finite in
        law _ _ (IsAtMost-times_by (total_value_of round p) _ _ f.pool_finite share) f.value_finite

    amount-IsAtMost :
        IsRounding round
        → p.shares ≤ more
        → 0 < p.core_price.num
        → IsFinite round larger_one
        → IsAtMost (core_amount round p) (core_amount round larger_one)
    amount-IsAtMost law le priced f =
        law _ _ (IsAtMost-quotient _ _ p.core_price priced (value-IsAtMost law le f))
          f.amount_finite

    -- Of two valid redemptions from the same pool, whose amounts can be read, the one of more shares is worth
    -- as much or more and returns as much or more; so a contract that can pay it can pay the other as well.
    -- However the operations round, if rounding keeps the order of numbers and nothing here exceeds the
    -- numbers; of parseEther: it keeps the order of what it reads.
    pub larger_redemption_returns_more :
        (wei more_wei balance : ℕ)
        → IsRounding round
        → ((a b : Ratio) (m n : ℕ)
            → IsAtMost a b
            → parse_ether a ≡ answered m
            → parse_ether b ≡ answered n
            → m ≤ n)
        → p.shares ≤ more
        → IsValid larger_one
        → IsFinite round larger_one
        → parse_ether (core_amount round p) ≡ answered wei
        → parse_ether (core_amount round larger_one) ≡ answered more_wei
        → (small large : RedemptionResult) × (calculate_redemption_amount round parse_ether p
            ≡ redeemed small)
          × (calculate_redemption_amount round parse_ether larger_one ≡ redeemed large)
          × IsAtMost small.usd_value large.usd_value
          × (small.core_to_return ≤ large.core_to_return)
          × (can_fulfill_redemption large.core_to_return balance ≡ can_fulfill
              → can_fulfill_redemption small.core_to_return balance ≡ can_fulfill)
    unfolding result_of can_fulfill_redemption
    larger_redemption_returns_more wei more_wei balance law reads le v f small_read large_read =
        let fewer : IsValid p = record {
          supplied = v.supplied;
          within = omega (arith, v.within);
          core_priced = v.core_priced;
          core_finite = v.core_finite;
          btc_priced = v.btc_priced;
          btc_finite = v.btc_finite;
        } in
        let least : wei ≤ more_wei =
          reads _ _ wei more_wei (amount-IsAtMost law le v.core_priced f) small_read large_read in
        (
          result_of round p wei,
          result_of round larger_one more_wei,
          accepted p wei fewer small_read,
          accepted larger_one more_wei v large_read,
          value-IsAtMost law le f,
          least,
          λ h. ground (h, least, arith),
        )
