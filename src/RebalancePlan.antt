-- ===== src/RebalancePlan.antt =====
-- The plan of a rebalancing in backend/src/services/ValidatorMonitor.ts: who gives, who receives, and
-- how much. The amounts of delegations are natural numbers; that printing and reading a number of
-- 10^21 or more changes it is not modelled.
pub mod Soundness
mod Tests
use stake_basket.Prelude.{
  ℕ, zero, suc, ◌+◌, ◌-◌, ◌*◌, ◌/◌, ◌%◌, min, Bool, true, false, not, ◌&&◌, ◌||◌, Option, none,
  some, String, List, [], ◌∷◌, ◌++◌, map, Ratio, ◌over◌, less, add, minus, times, quotient, smaller,
  larger, sum_of, filter, count, find, length, take, total, str_eq, sort_by, is_nan, ltb, ◌==◌,
  if◌then◌else◌,
}
use stake_basket.Monitoring.{ValidatorInfo}

-- The answer of a need analysis, with the number of the text.
pub data Need : Type 0 where
  inactive_ones high_risk_ones low_apy_ones : ℕ → Need
  adequate : Need

unfoldable pub analyze_rebalancing_need : List ValidatorInfo → Bool × Need
analyze_rebalancing_need validators =
    let idle = count (λ v. not v.is_active) validators in
    let risky = count (λ v. less (60 over 1) v.risk_score) validators in
    let poor = count (λ v. less v.effective_apy (6 over 1)) validators in
    if ltb 0 idle
    then (true, inactive_ones idle)
    else if ltb 0 risky
    then (true, high_risk_ones risky)
    else if ltb 0 poor
    then (true, low_apy_ones poor)
    else (false, adequate)

unfoldable pub is_problem : ValidatorInfo → Bool
is_problem v =
    not v.is_active
    || less (60 over 1) v.risk_score
    || less v.effective_apy (6 over 1)
    || less (8 over 1) v.commission

unfoldable pub is_good : ValidatorInfo → Bool
is_good v =
    v.is_active
    && less v.risk_score (40 over 1)
    && less (7 over 1) v.effective_apy
    && less v.commission (6 over 1)

unfoldable pub rebalance_reason : ValidatorInfo → String
rebalance_reason v =
    if not v.is_active
    then "Validator inactive"
    else if less (80 over 1) v.risk_score
    then "Very high risk score"
    else if less (60 over 1) v.risk_score
    then "High risk score"
    else if less v.effective_apy (5 over 1)
    then "Very low APY"
    else if less v.effective_apy (65 over 10)
    then "Low APY"
    else if less (10 over 1) v.commission
    then "Very high commission"
    else if less (8 over 1) v.commission
    then "High commission"
    else "Underperforming"

pub record Source : Type 0 where
  pub address : String
  pub amount : ℕ
  pub reason : String

pub record Target : Type 0 where
  pub address : String
  pub amount : ℕ
  pub expected_apy : Ratio

-- The sources: the problem validators with a delegation. `delegated` is `getCurrentDelegation`.
unfoldable pub sources : (String → ℕ) → List ValidatorInfo → List Source
sources delegated [] = []
sources delegated (v ∷ vs) =
    let rest = sources delegated vs in
    if ltb 0 (delegated v.address)
    then record { address = v.address; amount = delegated v.address; reason = rebalance_reason v }
      ∷ rest
    else rest

-- `goodValidators.slice(0, 3).forEach(...)` from an index on
unfoldable pub distribute_from : ℕ → ℕ → ℕ → List ValidatorInfo → List Target
distribute_from index per_validator remaining [] = []
distribute_from index per_validator remaining (v ∷ vs) =
    let amount = if index == 2 then remaining else per_validator in
    record { address = v.address; amount = amount; expected_apy = v.effective_apy }
    ∷ distribute_from (suc index) per_validator (remaining - amount) vs

unfoldable pub distribute : ℕ → List ValidatorInfo → List Target
distribute amount good =
    if ltb 0 (length good) && ltb 0 amount
    then distribute_from 0 (amount / min (length good) 3) amount (take 3 good)
    else []

-- `estimatedImprovementAPY` is the first average less the second one, and 0 if there is no target.
pub record RebalancePlan : Type 0 where
  pub from_validators : List Source
  pub to_validators : List Target
  pub average_after : Ratio
  pub average_before : Ratio

-- `validator?.effectiveAPY || 0`, where NaN counts as absent
abbrev apy_of : List ValidatorInfo → Source → Ratio
apy_of problems s = elim (find (λ v. str_eq v.address s.address) problems) [
  | none ↦ 0 over 1
  | some v ↦ if is_nan v.effective_apy then 0 over 1 else v.effective_apy
]

-- The body of `if (shouldRebalance)` in `generateRebalanceRecommendation`.
unfoldable pub rebalance_plan : (String → ℕ) → List ValidatorInfo → RebalancePlan
rebalance_plan delegated validators =
    let problems = filter is_problem validators in
    let good = sort_by (λ a b. less b.effective_apy a.effective_apy) (filter is_good validators) in
    let from = sources delegated problems in
    let to = distribute (total (λ s. s.amount) from) good in
    record {
      from_validators = from;
      to_validators = to;
      average_after = quotient (sum_of (map (λ t. t.expected_apy) to)) (length to over 1);
      average_before = quotient (sum_of (map (apy_of problems) from)) (length from over 1);
    }
