-- ===== src/DualStaking/Store/Positions.antt =====
-- Which position decides whether to rebalance.
use stake_basket.Prelude.{◌<◌, ◌≡◌, ◌≢◌, refl, true, none, some, Ratio, ◌over◌, times, arith}
use native.Mathlib.Nat.{mul-pos}
use stake_basket.DualStaking.Tiers.{amount-pos}
use stake_basket.DualStaking.Store.{
  StoreTier, base, boost, super, satoshi, DualStakePosition, DualStaking, target_ratio,
  current_ratio, is_off, set_position, calculate_required_core, calculate_optimal_tier,
}

ratio_zero_off : (tier : StoreTier) → tier ≢ base → is_off (0 over 1) (target_ratio tier) 5 ≡ true
unfolding is_off
ratio_zero_off base above = absurd (above refl)
ratio_zero_off boost above = refl
ratio_zero_off super above = refl
ratio_zero_off satoshi above = refl

-- Where nothing is stored and the threshold is the usual five percent, storing a position of a tier
-- above Base always says that it needs rebalancing, whatever its amounts are. Storing the same position
-- once more judges it by the ratio of its own amounts.
set_position_judges_previous :
    (p : DualStakePosition) (s : DualStaking)
    → p.tier ≢ base
    → s.position ≡ none
    → s.rebalance_threshold ≡ 5
    → ((set_position p s).needs_rebalancing ≡ true)
      × ((set_position p (set_position p s)).needs_rebalancing
          ≡ is_off (current_ratio (some p)) (target_ratio p.tier) 5)
unfolding set_position is_off
set_position_judges_previous p s above empty usual =
    (rw (empty, usual) (ratio_zero_off p.tier above), rw usual refl)

-- The amount of CORE that is required for a tier, with that amount of BTC, has the tier as its best one.
optimal_tier_of_required_core :
    (btc : Ratio) (tier : StoreTier)
    → 0 < btc.num
    → 0 < btc.den
    → calculate_optimal_tier (calculate_required_core btc tier) btc ≡ tier
unfolding calculate_optimal_tier calculate_required_core
optimal_tier_of_required_core btc base pos fin =
    let k = mul-pos pos fin in rw (amount-pos btc pos) (ground (arith, k))
optimal_tier_of_required_core btc boost pos fin =
    let k = mul-pos pos fin in
    rw (amount-pos btc pos, amount-pos (times btc (2000 over 1)) (omega (arith, pos)))
      (ground (arith, k))
optimal_tier_of_required_core btc super pos fin =
    let k = mul-pos pos fin in
    rw (amount-pos btc pos, amount-pos (times btc (6000 over 1)) (omega (arith, pos)))
      (ground (arith, k))
optimal_tier_of_required_core btc satoshi pos fin =
    let k = mul-pos pos fin in
    rw (amount-pos btc pos, amount-pos (times btc (16000 over 1)) (omega (arith, pos)))
      (ground (arith, k))
