-- ===== src/Validators/Figures.antt =====
-- The ranges of the simulated figures, and what the rebalancer makes of the served validators.
use stake_basket.Prelude.{ℕ, ◌<◌, ◌≡◌, true, false, Ratio, ◌over◌, less, arith, [], ◌∷◌}
use stake_basket.Monitoring.{ValidatorMetrics}
use stake_basket.Validators.{
  Reading, alpha, beta, gamma, get_validator_info, validator_performance, validator_uptime,
  check_validators,
}
use stake_basket.Rebalancing.{generate_recommendation}
use stake_basket.Rebalancing.Advice.{generate_recommendation-causes}

-- For a random number in [0, 1) the performance lies between 75 and 100 and the uptime between 90
-- and 100, whatever the address.
figures_in_range :
    (random : Ratio) (hash : ℕ)
    → random.num < random.den
    → (less (validator_performance random hash) (75 over 1) ≡ false)
      × (less (100 over 1) (validator_performance random hash) ≡ false)
      × (less (validator_uptime random) (90 over 1) ≡ false)
      × (less (100 over 1) (validator_uptime random) ≡ false)
unfolding validator_performance validator_uptime
figures_in_range random hash h = (ground arith, ground arith, ground arith, ground arith)

-- the validators that the monitor serves
abbrev pub served : Reading → Reading → Reading → ℕ → ValidatorMetrics
served a b c now =
    check_validators
      (get_validator_info alpha a ∷ get_validator_info beta b ∷ get_validator_info gamma c ∷ []) now

-- One of the three served validators is inactive, so a rebalancing is recommended at every check,
-- whatever chance decides.
served_always_rebalanced :
    (a b c : Reading) (now : ℕ)
    → (generate_recommendation (served a b c now)).should_rebalance ≡ true
unfolding check_validators get_validator_info
served_always_rebalanced a b c now =
    rw (generate_recommendation-causes (served a b c now)) (ground arith)
