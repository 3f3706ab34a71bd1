-- ===== src/Rebalancing/Advice.antt =====
-- What `generateRebalancingRecommendation` recommends, and the improvement that it estimates.
use native.Mathlib.Decide.{dec_lt}
use native.Mathlib.Nat.{mul-lt-mul_of_pos_right, mul-le-mul_right}
use stake_basket.Prelude.{
  ℕ, ◌*◌, ◌<◌, ◌≤◌, ◌≡◌, true, ◌||◌, Ratio, ◌over◌, less, larger, times, minus, arith,
}
use stake_basket.Monitoring.{ValidatorMetrics}
use stake_basket.Rebalancing.{
  Recommendation, check_performance, check_uptime, check_inactive, inactive_ratio_of,
  generate_recommendation,
}

above_by_products :
    (an ad bn bd : ℕ) → 0 < ad → 15 * bd < bn * 100 → bn * ad ≤ an * bd → 15 * ad < an * 100
above_by_products an ad bn bd pos h k = elim (dec_lt (15 * ad) (an * 100)) [
  | yes done ↦ done
  | no low ↦
      let le : an * 100 ≤ 15 * ad = omega arith in
      absurd (omega (arith, mul-lt-mul_of_pos_right {k = ad} h pos, mul-le-mul_right bd le))
]

larger-above :
    (a b : Ratio) → 0 < a.den → less (15 over 100) b ≡ true → less (15 over 100) (larger a b) ≡ true
larger-above a b pos h = ground (arith, above_by_products a.num a.den b.num b.den pos)

-- The estimate is a number, and above 0.15 exactly if a rebalancing is recommended.
abbrev IsFounded : Recommendation → Type 0
IsFounded r =
    (0 < r.estimated_improvement_apy.den)
    × (less (15 over 100) r.estimated_improvement_apy ≡ r.should_rebalance)

larger-IsFounded :
    (r : Recommendation) (b : Ratio)
    → IsFounded r
    → 0 < b.den
    → less (15 over 100) b ≡ true
    → (0 < (larger r.estimated_improvement_apy b).den)
      × (less (15 over 100) (larger r.estimated_improvement_apy b) ≡ true)
larger-IsFounded r b h pos k = (ground arith, larger-above r.estimated_improvement_apy b h.0 k)

check_performance-IsFounded :
    (p : Ratio) (r : Recommendation) → IsFounded r → IsFounded (check_performance p r)
unfolding check_performance
check_performance-IsFounded p r h = ground arith

check_uptime-IsFounded :
    (u : Ratio) (r : Recommendation) → IsFounded r → IsFounded (check_uptime u r)
unfolding check_uptime
check_uptime-IsFounded u r h =
    ground (arith, larger-IsFounded r (times (minus (98 over 1) u) (5 over 100)) h)

check_inactive-IsFounded :
    (m : ValidatorMetrics) (r : Recommendation)
    → IsFounded r
    → IsFounded (check_inactive (inactive_ratio_of m) r)
unfolding check_inactive
check_inactive-IsFounded m r h =
    ground (arith, larger-IsFounded r (times (inactive_ratio_of m) (2 over 1)) h)

-- For any metrics, those of no validator included, a rebalancing is recommended exactly if the
-- estimated improvement is above 0.15.
generate_recommendation-estimate :
    (m : ValidatorMetrics)
    → let rec = generate_recommendation m in
      less (15 over 100) rec.estimated_improvement_apy ≡ rec.should_rebalance
unfolding generate_recommendation
generate_recommendation-estimate m =
    (check_inactive-IsFounded m _ (
      check_uptime-IsFounded m.average_uptime _
        (check_performance-IsFounded m.average_performance _ (ground arith)))).1

-- It is recommended exactly if the performance is below 80, the uptime below 95, or more than a
-- fifth of the validators inactive.
pub generate_recommendation-causes :
    (m : ValidatorMetrics)
    → (generate_recommendation m).should_rebalance ≡ (
        less m.average_performance (80 over 1)
        || less m.average_uptime (95 over 1)
        || less (2 over 10) (inactive_ratio_of m))
unfolding generate_recommendation
generate_recommendation-causes m = ground arith
