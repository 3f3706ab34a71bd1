-- ===== src/RebalancePlan/Tests.antt =====
-- Plans for concrete validators.
use stake_basket.Prelude.{
  filter, ℕ, ◌+◌, ◌%◌, ◌≤◌, ◌≡◌, Bool, true, false, String, List, [], ◌∷◌, ◌over◌, total, length,
  All, ◌==◌, if◌then◌else◌, arith,
}
use stake_basket.Monitoring.{ValidatorInfo}
use stake_basket.RebalancePlan.{is_good, is_problem, distribute, rebalance_plan}
use stake_basket.RebalancePlan.Soundness.{
  IsSource, IsTarget, distribute-total, rebalance_plan_sound,
}

abbrev validator : String → Bool → ℕ → ValidatorInfo
validator address is_active apy = record {
  address = address;
  name = address;
  is_active = is_active;
  total_delegated = 100;
  commission = 5 over 1;
  uptime = 99 over 1;
  performance = 90 over 1;
  slashing_history = [];
  last_update = 0;
  effective_apy = apy over 1;
  risk_score = 10 over 1;
}

abbrev pool : List ValidatorInfo
pool = validator "a" false 9 ∷ validator "b" true 8 ∷ validator "c" true 9 ∷ []

abbrev delegated : String → ℕ
delegated address = 7

abbrev pair : List ValidatorInfo
pair = validator "b" true 8 ∷ validator "c" true 9 ∷ []

distribute-total_example :
    total (λ t. t.amount) (distribute 7 pair) + (if length pair == 2 then 7 % 2 else 0) ≡ 7
distribute-total_example = distribute-total 7 pair (omega arith)

rebalance_plan_sound_example :
    let plan = rebalance_plan delegated pool in
    All (IsSource delegated pool) plan.from_validators
    × (total (λ s. s.amount) plan.from_validators
        ≡ total (λ v. delegated v.address) (filter is_problem pool))
    × All (IsTarget pool) plan.to_validators
    × ((v : ValidatorInfo) → is_good v ≡ true → is_problem v ≡ false)
    × (total (λ t. t.amount) plan.to_validators ≤ total (λ s. s.amount) plan.from_validators)
rebalance_plan_sound_example = rebalance_plan_sound delegated pool
