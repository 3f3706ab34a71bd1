-- ===== src/Validators.antt =====
-- The class ValidatorMonitor of backend/src/services/ValidatorMonitor.ts: the mock data it serves
-- and the metrics over them.
pub mod Figures
mod Tests
use stake_basket.Prelude.{
  ℕ, zero, suc, ◌+◌, ◌-◌, ◌*◌, ◌/◌, ◌%◌, min, Bool, true, false, not, ◌&&◌, ◌||◌, Option, none,
  some, String, List, [], ◌∷◌, ◌++◌, map, Ratio, ◌over◌, less, add, minus, times, quotient, smaller,
  sum_of, filter, count, find, length, take, total, str_eq, sort_by, is_nan, ltb, ◌==◌,
  if◌then◌else◌,
}
use stake_basket.Monitoring.{
  ValidatorInfo, ValidatorMetrics, SlashingEvent, Advice, inactive, low_performance,
  high_commission, slashed, low_uptime, low_apy, high_risk, diversify, all_well,
}

-- `getValidatorList`
abbrev pub alpha : String
alpha = "0x1234567890123456789012345678901234567890"

abbrev pub beta : String
beta = "0x2345678901234567890123456789012345678901"

abbrev pub gamma : String
gamma = "0x3456789012345678901234567890123456789012"

unfoldable pub validator_list : List String
validator_list = alpha ∷ beta ∷ gamma ∷ []

pub record MockValidator : Type 0 where
  pub name : String
  pub is_active : Bool
  pub total_delegated : ℕ
  pub commission : ℕ

abbrev mock : String → Bool → ℕ → ℕ → MockValidator
mock name is_active total_delegated commission = record {
  name = name;
  is_active = is_active;
  total_delegated = total_delegated;
  commission = commission;
}

unfoldable pub mock_validator_data : String → MockValidator
mock_validator_data address =
    if str_eq address alpha
    then mock "Validator Alpha" true 1000000 5
    else if str_eq address beta
    then mock "Validator Beta" true 750000 3
    else if str_eq address gamma
    then mock "Validator Gamma" false 500000 10
    else mock "Unknown Validator" false 0 0

-- 85 + (random - 0.5) * 20 + (hash % 100) / 10, at most 100. The sum is not negative; `hash` is the
-- number that the last four digits of the address denote.
unfoldable pub validator_performance : Ratio → ℕ → Ratio
validator_performance random hash =
    let varied = minus (add (85 over 1) (times random (20 over 1))) (10 over 1) in
    smaller (100 over 1) (add varied ((hash % 100) over 10))

-- 95 + (random - 0.5) * 10, at most 100
unfoldable pub validator_uptime : Ratio → Ratio
validator_uptime random =
    smaller (100 over 1) (minus (add (95 over 1) (times random (10 over 1))) (5 over 1))

unfoldable pub slashing_history : String → ℕ → List SlashingEvent
slashing_history address now =
    if str_eq address gamma
    then record {
      timestamp = now - 86400000;
      amount = 1000;
      reason = "Double signing";
      validator = address;
    }
      ∷ []
    else []

-- What chance and the clock decide about one validator.
pub record Reading : Type 0 where
  pub performance_random : Ratio
  pub uptime_random : Ratio
  pub hash : ℕ
  pub now : ℕ

-- `getValidatorInfo`. It sets neither `effectiveAPY` nor `riskScore`: they are `undefined`, and every
-- comparison with them is false, as with 0 / 0.
unfoldable pub get_validator_info : String → Reading → ValidatorInfo
unfolding mock_validator_data validator_performance validator_uptime slashing_history
get_validator_info address r =
    let known = mock_validator_data address in
    record {
      address = address;
      name = known.name;
      is_active = known.is_active;
      total_delegated = known.total_delegated;
      commission = known.commission over 1;
      uptime = validator_uptime r.uptime_random;
      performance = validator_performance r.performance_random r.hash;
      slashing_history = slashing_history address r.now;
      last_update = r.now;
      effective_apy = 0 over 0;
      risk_score = 0 over 0;
    }

-- `if (n > 0) recommendations.push(text n)`
abbrev when_any : ℕ → (ℕ → Advice) → List Advice
when_any n text = if ltb 0 n then text n ∷ [] else []

unfoldable pub generate_recommendations : List ValidatorInfo → List Advice
generate_recommendations validators =
    let threshold = times (total (λ v. v.total_delegated) validators over 1) (4 over 10) in
    let concentrated = count (λ v. less threshold (v.total_delegated over 1)) validators in
    let first =
      when_any (count (λ v. not v.is_active) validators) inactive
      ++ when_any (count (λ v. less v.performance (70 over 1)) validators) low_performance
      ++ when_any (count (λ v. less (8 over 1) v.commission) validators) high_commission
      ++ when_any (count (λ v. ltb 0 (length v.slashing_history)) validators) slashed
      ++ when_any (count (λ v. less v.uptime (95 over 1)) validators) low_uptime
      ++ (if ltb 0 concentrated then diversify ∷ [] else []) in
    (if length first == 0 then all_well ∷ [] else first)
    ++ when_any (count (λ v. less v.effective_apy (6 over 1)) validators) low_apy
    ++ when_any (count (λ v. less (60 over 1) v.risk_score) validators) high_risk

-- `checkValidators`, once the details of every validator are there
unfoldable pub check_validators : List ValidatorInfo → ℕ → ValidatorMetrics
check_validators validators now = record {
  validators = validators;
  total_validators = length validators;
  active_validators = count (λ v. v.is_active) validators;
  average_uptime = quotient (sum_of (map (λ v. v.uptime) validators)) (length validators over 1);
  average_performance =
      quotient (sum_of (map (λ v. v.performance) validators)) (length validators over 1);
  total_slashing_events = total (λ v. length v.slashing_history) validators;
  recommendations = generate_recommendations validators;
  timestamp = now;
}

-- `getTopValidators`
unfoldable pub get_top_validators : ℕ → ValidatorMetrics → List ValidatorInfo
get_top_validators limit m =
    take limit (
      sort_by (λ a b. less b.effective_apy a.effective_apy)
        (filter (λ v. v.is_active) m.validators))
