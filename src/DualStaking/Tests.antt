-- ===== src/DualStaking/Tests.antt =====
-- Deposits and positions of dual staking.
use stake_basket.Prelude.{◌≤◌, ◌≡◌, refl, arith, false, some, none, ◌over◌, Ratio, ◌*◌, ◌/◌}
use stake_basket.DualStaking.{
  gold, silver, bronze, total_usd_value, core_for_value, calculate_tier, auto_calculate, PriceData,
  validate_deposit, accepted, too_little_btc,
}
use stake_basket.DualStaking.Tiers.{rank, larger_deposit_keeps_tier}
use stake_basket.DualStaking.Store.{DualStakePosition, current_ratio, target_ratio, is_off, super}

abbrev prices : PriceData
prices = record { core_price = 7 over 10; btc_price = 0 over 1 }

-- Rounding that changes nothing.
abbrev exact : Ratio → Ratio
exact a = a

larger_deposit_keeps_tier_example :
    rank (calculate_tier exact prices (10 over 1) (1 over 2))
    ≤ rank (calculate_tier exact prices (700000 over 1) (1 over 2))
unfolding total_usd_value
larger_deposit_keeps_tier_example =
    larger_deposit_keeps_tier exact prices (10 over 1) (700000 over 1) (1 over 2) (1 over 2)
      (λ a b h f. h) (omega arith) (omega arith) (omega arith, omega arith, omega arith)
      (omega arith, omega arith, omega arith) (omega arith) (omega arith) (omega arith)

tiers :
    (calculate_tier exact prices (10 over 1) (1 over 2) ≡ bronze)
    × (calculate_tier exact prices (700000 over 1) (1 over 2) ≡ gold)
unfolding calculate_tier total_usd_value
tiers = (refl, refl)

-- Rounding down to cents. The deposit that is proposed for Gold at 0.7 and 65000 is then worth less than the
-- threshold of Gold, by the amount that is read again.
abbrev cents : Ratio → Ratio
cents a = (a.num * 100 / a.den) over 100

abbrev proposed : Ratio × Ratio
proposed = auto_calculate cents prices gold

rounded_proposal_is_silver : calculate_tier cents prices proposed.0 proposed.1 ≡ silver
unfolding auto_calculate core_for_value calculate_tier total_usd_value
rounded_proposal_is_silver = refl

deposit_accepted :
    validate_deposit exact
      (record prices { btc_price = 60000 over 1 })
      (10 over 1)
      (1 over 1000)
      (some "0x1")
      (10 over 1)
      (1 over 1)
    ≡ accepted
unfolding validate_deposit
deposit_accepted = refl

deposit_too_small :
    validate_deposit exact prices (10 over 1) (1 over 10000) none (0 over 1) (0 over 1)
    ≡ too_little_btc
unfolding validate_deposit
deposit_too_small = refl

-- Exactly in the ratio of its tier
abbrev balanced : DualStakePosition
balanced = record {
  core_amount = 6000 over 1;
  btc_amount = 1 over 1;
  shares = 10 over 1;
  tier = super;
  ratio = 6000 over 1;
  apy = 16 over 1;
  rewards = 0 over 1;
  last_claim_time = 0;
}

balanced_is_not_off : is_off (current_ratio (some balanced)) (target_ratio super) 5 ≡ false
unfolding is_off
balanced_is_not_off = refl
