-- ===== src/DualStaking.antt =====
-- The five tiers of dual staking: src/config/dualStakingTiers.ts and the hooks
-- src/hooks/useDualStakingTiers.ts and useDualStakingValidation.ts. An amount is the number that its
-- text is read as, which is not negative, and 0 / 0 if it is none. Every result of an operation is rounded to
-- a number of double precision, which is the parameter `round`, and so is a constant that is none itself.
pub mod Store
pub mod Tiers
mod Tests
use stake_basket.Prelude.{
  ℕ, ◌*◌, Bool, true, false, not, ◌&&◌, ◌||◌, Option, none, some, String, Ratio, ◌over◌, less, add,
  minus, times, quotient, distance, larger, smaller, ltb, if◌then◌else◌,
}

pub data DualTier : Type 0 where
  base bronze silver gold satoshi : DualTier

-- `TIER_OPTIMAL_RATIOS`
abbrev pub optimal_ratio : DualTier → ℕ
optimal_ratio base = 10000
optimal_ratio _ = 50000

-- `TIER_USD_THRESHOLDS[tier].min`
abbrev pub threshold : DualTier → ℕ
threshold base = 1000
threshold bronze = 10000
threshold silver = 100000
threshold gold = 500000
threshold satoshi = 1000000

-- `TIER_MAX_BONUS`
abbrev pub max_bonus : DualTier → Ratio
max_bonus base = 5 over 100
max_bonus bronze = 10 over 100
max_bonus silver = 25 over 100
max_bonus gold = 40 over 100
max_bonus satoshi = 50 over 100

-- `MIN_DEPOSIT_REQUIREMENTS`
abbrev pub min_core : Ratio
min_core = 10 over 1

abbrev pub min_btc : Ratio
min_btc = 1 over 1000

abbrev pub min_usd : Ratio
min_usd = 50 over 1

-- `a || b` of numbers: 0 and NaN count as absent.
abbrev pub or_else : Ratio → Ratio → Ratio
or_else a b = if ltb 0 a.num then a else b

abbrev pub amount : Ratio → Ratio
amount a = or_else a (0 over 1)

pub record PriceData : Type 0 where
  pub core_price : Ratio
  pub btc_price : Ratio

-- `getAssetPrices`
abbrev pub core_asset : PriceData → Ratio
core_asset p = or_else p.core_price (15 over 10)

abbrev pub btc_asset : PriceData → Ratio
btc_asset p = or_else p.btc_price (65000 over 1)

abbrev is_base : DualTier → Bool
is_base base = true
is_base _ = false

-- The amounts of `handleAutoCalculate` for a tier above Base.
abbrev pub tier_btc : DualTier → Ratio
tier_btc base = min_btc
tier_btc bronze = 1 over 100
tier_btc silver = 1 over 10
tier_btc gold = 1 over 2
tier_btc satoshi = 2 over 1

abbrev pub tier_core : DualTier → Ratio
tier_core base = min_core
tier_core bronze = 1000 over 1
tier_core silver = 5000 over 1
tier_core gold = 25000 over 1
tier_core satoshi = 100000 over 1

pub data Deposit : Type 0 where
  accepted no_amount too_little_core too_little_btc too_little_value no_wallet : Deposit
  core_balance_low btc_balance_low no_prices : Deposit

-- The checks of a deposit that need a wallet; a balance that is no number refuses nothing.
abbrev check_wallet : PriceData → Ratio → Ratio → Option String → Ratio → Ratio → Deposit
check_wallet p core btc none core_balance btc_balance = no_wallet
check_wallet p core btc (some address) core_balance btc_balance =
    if less core_balance (amount core)
    then core_balance_low
    else if less btc_balance (amount btc)
    then btc_balance_low
    else if not (ltb 0 p.core_price.num && ltb 0 p.btc_price.num)
    then no_prices
    else accepted

module _ (round : Ratio → Ratio) where
  unfoldable pub total_usd_value : PriceData → Ratio → Ratio → Ratio
  total_usd_value p core btc =
      round (
        add (round (times (amount core) (core_asset p))) (round (times (amount btc) (btc_asset p))))

  unfoldable pub calculate_tier : PriceData → Ratio → Ratio → DualTier
  unfolding total_usd_value
  calculate_tier p core btc =
      let value = total_usd_value p core btc in
      if less (amount core) min_core || less (amount btc) (round min_btc)
      then base
      else if less value min_usd
      then base
      else if not (less value (threshold satoshi over 1))
      then satoshi
      else if not (less value (threshold gold over 1))
      then gold
      else if not (less value (threshold silver over 1))
      then silver
      else if not (less value (threshold bronze over 1))
      then bronze
      else base

  -- `calculateRatioBonus`, over the logarithm
  unfoldable pub ratio_bonus : (Ratio → Ratio) → PriceData → Ratio → Ratio → DualTier → Ratio
  unfolding total_usd_value
  ratio_bonus log10 p core btc tier =
      if is_base tier
      then 0 over 1
      else if not (ltb 0 (amount btc).num)
      then 0 over 1
      else let optimal = optimal_ratio tier over 1 in
        let actual = round (quotient (amount core) (amount btc)) in
        let off_by = round (quotient (round (distance actual optimal)) optimal) in
        let score = round (minus (1 over 1) off_by) in
        let size = round (
          quotient
            (log10
              (larger (1 over 1) (round (quotient (total_usd_value p core btc) (1000 over 1)))))
            (2 over 1)) in
        let most = round (max_bonus tier) in
        smaller most (round (times (round (times score most)) (round (add (1 over 1) size))))

  -- `finalCoreAmount` before the last `Math.max`
  unfoldable pub core_for_value : PriceData → DualTier → Ratio
  core_for_value p tier =
      let btc = round (tier_btc tier) in
      let for_ratio = round (times btc (optimal_ratio tier over 1)) in
      let current =
        round (add (round (times for_ratio (core_asset p))) (round (times btc (btc_asset p)))) in
      if less current (threshold tier over 1)
      then round (
          add for_ratio
            (round (quotient (round (minus (threshold tier over 1) current)) (core_asset p))))
      else for_ratio

  -- `handleAutoCalculate`: the amount of CORE and the amount of BTC
  unfoldable pub auto_calculate : PriceData → DualTier → Ratio × Ratio
  unfolding core_for_value
  auto_calculate p tier =
      if is_base tier
      then (min_core, round min_btc)
      else (larger (core_for_value p tier) (tier_core tier), round (tier_btc tier))

  -- `validateDeposit`
  unfoldable pub validate_deposit :
      PriceData → Ratio → Ratio → Option String → Ratio → Ratio → Deposit
  unfolding total_usd_value
  validate_deposit p core btc wallet core_balance btc_balance =
      if not (ltb 0 (amount core).num) && not (ltb 0 (amount btc).num)
      then no_amount
      else if less (amount core) min_core
      then too_little_core
      else if less (amount btc) (round min_btc)
      then too_little_btc
      else if less (total_usd_value p core btc) min_usd
      then too_little_value
      else check_wallet p core btc wallet core_balance btc_balance
