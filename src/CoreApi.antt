-- ===== src/CoreApi.antt =====
-- The answers of the API of Core, in backend/src/services/CoreAPIService.ts. What `parseFloat` reads of a
-- deposit or a fee is a number here.
pub mod Ranking
mod Tests
use Prim.Native.String.{◌++◌ as append}
use stake_basket.Prelude.{
  ℕ, suc, ◌+◌, String, Bool, true, false, not, Option, none, some, List, [], ◌∷◌, Ratio, ◌over◌,
  times, quotient, Answer, answered, thrown, filter, find, take, length, total, sort_down, sort_by,
  ltb, ◌==◌, str_eq, if◌then◌else◌, max,
}
use stake_basket.Validation.{lower_case}

pub record CoreValidator : Type 0 where
  pub operator_address : String
  pub consensus_address : String
  pub fee_address : String
  pub validator_name : String
  pub validator_status : String
  pub validator_voting_power : String
  pub total_deposit : ℕ
  pub fee_percent : ℕ

-- What a request gives: the text of what it threw, or a status, a result and a message.
pub data ApiResponse (A : Type 0) : Type 0 where
  failed : String → ApiResponse A
  response : String → A → String → ApiResponse A

-- `getValidators`, `getCorePrice` and `getCoreSupply`, by what they name in their error
unfoldable pub fetched : {A : Type 0} → String → ApiResponse A → Answer A
fetched what (failed e) = thrown (append "Failed to fetch " (append what (append ": " e)))
fetched what (response status result message) =
    if str_eq status "1"
    then answered result
    else thrown (append "Failed to fetch " (append what (append ": Error: API Error: " message)))

abbrev pub is_active : CoreValidator → Bool
is_active v = str_eq v.validator_status "1"

abbrev pub active_validators : List CoreValidator → List CoreValidator
active_validators validators = filter is_active validators

abbrev pub deposit_of : CoreValidator → ℕ
deposit_of v = v.total_deposit

-- `getTopValidatorsByDeposit`, of what `getValidators` gives, for a limit that is not negative; what the
-- route makes of another one is limit_of in OracleRoutes.
unfoldable pub get_top_validators_by_deposit : ℕ → List CoreValidator → List CoreValidator
get_top_validators_by_deposit limit validators =
    take limit (sort_down deposit_of (active_validators validators))

-- `getLowestFeeValidators`, for a limit that is not negative
unfoldable pub get_lowest_fee_validators : ℕ → List CoreValidator → List CoreValidator
get_lowest_fee_validators limit validators =
    take limit (sort_by (λ a b. ltb a.fee_percent b.fee_percent) (active_validators validators))

unfoldable pub calculate_average_fee : List CoreValidator → Ratio
calculate_average_fee [] = 0 over 1
calculate_average_fee (v ∷ validators) =
    quotient
      (quotient (total (λ w. w.fee_percent) (v ∷ validators) over 1)
        (length (v ∷ validators) over 1))
      (100 over 1)

pub record CorePrice : Type 0 where
  pub core_usd : Ratio
  pub core_btc : Ratio
  pub core_usd_timestamp : ℕ
  pub core_btc_timestamp : ℕ

-- The market cap is rounded to two digits when it is printed.
pub record NetworkStats : Type 0 where
  pub total_validators : ℕ
  pub active : ℕ
  pub total_staked : ℕ
  pub average_fee : Ratio
  pub usd : Ratio
  pub btc : Ratio
  pub last_update : ℕ
  pub supply_total : ℕ
  pub market_cap : Ratio

-- `getNetworkStats`, of the three results
unfoldable pub get_network_stats : List CoreValidator → CorePrice → ℕ → NetworkStats
unfolding calculate_average_fee
get_network_stats validators price supply = record {
  total_validators = length validators;
  active = length (active_validators validators);
  total_staked = total deposit_of (active_validators validators);
  average_fee = calculate_average_fee (active_validators validators);
  usd = price.core_usd;
  btc = price.core_btc;
  last_update = max price.core_usd_timestamp price.core_btc_timestamp;
  supply_total = supply;
  market_cap = times (supply over 1000000000000000000) price.core_usd;
}

abbrev pub shifted : Option ℕ → Option ℕ
shifted none = none
shifted (some i) = some (suc i)

unfoldable pub find_index : (CoreValidator → Bool) → List CoreValidator → Option ℕ
find_index p [] = none
find_index p (v ∷ validators) =
    let rest = shifted (find_index p validators) in if p v then some 0 else rest

-- `findIndex(...) + 1`
abbrev pub place : Option ℕ → ℕ
place none = 0
place (some i) = suc i

unfoldable pub calculate_validator_rank : CoreValidator → List CoreValidator → ℕ
unfolding find_index
calculate_validator_rank v validators = place (
    find_index (λ w. str_eq w.operator_address v.operator_address)
      (sort_down deposit_of (active_validators validators)))

pub record PerformanceMetrics : Type 0 where
  pub address : String
  pub active : Bool
  pub total_deposit : ℕ
  pub fee_percent : Ratio
  pub voting_power : String
  pub name : String
  pub rank : ℕ

unfoldable pub metrics_of : List CoreValidator → CoreValidator → PerformanceMetrics
unfolding calculate_validator_rank
metrics_of validators v = record {
  address = v.operator_address;
  active = is_active v;
  total_deposit = v.total_deposit;
  fee_percent = v.fee_percent over 100;
  voting_power = v.validator_voting_power;
  name = if str_eq v.validator_name "" then "Unnamed" else v.validator_name;
  rank = calculate_validator_rank v validators;
}

abbrev pub found_metrics :
    String → List CoreValidator → Option CoreValidator → Answer PerformanceMetrics
found_metrics address validators none = thrown (append "Validator " (append address " not found"))
found_metrics address validators (some v) = answered (metrics_of validators v)

-- `getValidatorPerformanceMetrics`
unfoldable pub get_validator_performance_metrics :
    String → List CoreValidator → Answer PerformanceMetrics
unfolding metrics_of
get_validator_performance_metrics address validators =
    found_metrics address validators
      (find (λ v. str_eq (lower_case v.operator_address) (lower_case address)) validators)
