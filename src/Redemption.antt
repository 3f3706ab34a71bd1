-- ===== src/Redemption.antt =====
-- The calculation of src/utils/redemptionCalculator.ts. An amount is the number of wei that `parseEther`
-- reads, which is not negative; the texts are left out. `parseEther` of the text of a calculated number,
-- which may throw, is a parameter, and so is the rounding of every result to double precision, `round`.
pub mod Pool
pub mod Hybrid
pub mod Hooks
mod HookTests
mod Tests
use stake_basket.Prelude.{
  String, Answer, answered, thrown, ℕ, ◌-◌, Bool, true, false, ◌&&◌, ◌||◌, not, Ratio, ◌over◌, add,
  times, quotient, ltb, leb, ◌==◌, if◌then◌else◌,
}

abbrev pub ether : ℕ
ether = 1000000000000000000

pub record RedemptionCalculationParams : Type 0 where
  pub shares : ℕ
  pub total_supply : ℕ
  pub pooled_core : ℕ
  pub pooled_btc : ℕ
  pub core_price : Ratio
  pub btc_price : Ratio

pub record RedemptionResult : Type 0 where
  pub core_to_return : ℕ
  pub usd_value : Ratio
  pub core_value : Ratio
  pub btc_value : Ratio
  pub total_asset_value : Ratio
  pub share_of_pool : Ratio

pub data Redemption : Type 0 where
  no_supply too_many_shares invalid_prices : Redemption
  unreadable : String → Redemption
  redeemed : RedemptionResult → Redemption

-- `price <= 0`, which NaN is not
abbrev pub is_no_price : Ratio → Bool
is_no_price p = not (ltb 0 p.num) && ltb 0 p.den

pub data Fulfillment : Type 0 where
  can_fulfill : Fulfillment
  shortfall : ℕ → Fulfillment

unfoldable pub can_fulfill_redemption : ℕ → ℕ → Fulfillment
can_fulfill_redemption core_to_return contract_balance =
    if leb core_to_return contract_balance
    then can_fulfill
    else shortfall (core_to_return - contract_balance)

module _ (round : Ratio → Ratio) where
  -- `Number(formatEther(n))`
  abbrev pub in_ether : ℕ → Ratio
  in_ether n = round (n over ether)

  abbrev pub core_value_of : RedemptionCalculationParams → Ratio
  core_value_of p = round (times (in_ether p.pooled_core) p.core_price)

  abbrev pub btc_value_of : RedemptionCalculationParams → Ratio
  btc_value_of p = round (times (in_ether p.pooled_btc) p.btc_price)

  abbrev pub total_value_of : RedemptionCalculationParams → Ratio
  total_value_of p = round (add (core_value_of p) (btc_value_of p))

  abbrev pub share_percentage : RedemptionCalculationParams → Ratio
  share_percentage p = round (quotient (in_ether p.shares) (in_ether p.total_supply))

  abbrev pub redemption_value : RedemptionCalculationParams → Ratio
  redemption_value p = round (times (total_value_of p) (share_percentage p))

  -- `coreToReturn`, the number
  abbrev pub core_amount : RedemptionCalculationParams → Ratio
  core_amount p = round (quotient (redemption_value p) p.core_price)

  -- What is returned for valid parameters, with the amount in wei.
  unfoldable pub result_of : RedemptionCalculationParams → ℕ → RedemptionResult
  result_of p core_to_return_wei = record {
    core_to_return = core_to_return_wei;
    usd_value = redemption_value p;
    core_value = core_value_of p;
    btc_value = btc_value_of p;
    total_asset_value = total_value_of p;
    share_of_pool = round (times (share_percentage p) (100 over 1));
  }

  unfoldable pub redeemed_as : RedemptionCalculationParams → Answer ℕ → Redemption
  unfolding result_of
  redeemed_as p (answered wei) = redeemed (result_of p wei)
  redeemed_as p (thrown e) = unreadable e

  unfoldable pub calculate_redemption_amount :
      (Ratio → Answer ℕ) → RedemptionCalculationParams → Redemption
  unfolding redeemed_as
  calculate_redemption_amount parse_ether p =
      if p.total_supply == 0
      then no_supply
      else if ltb p.total_supply p.shares
      then too_many_shares
      else if is_no_price p.core_price || is_no_price p.btc_price
      then invalid_prices
      else redeemed_as p (parse_ether (core_amount p))

  unfoldable pub calculate_simple_redemption : ℕ → RedemptionResult
  calculate_simple_redemption shares = record {
    core_to_return = shares;
    usd_value = round (times (in_ether shares) (15 over 10));
    core_value = round (times (in_ether shares) (15 over 10));
    btc_value = 0 over 1;
    total_asset_value = round (times (in_ether shares) (15 over 10));
    share_of_pool = 100 over 1;
  }
