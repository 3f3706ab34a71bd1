-- ===== src/CoreApi/Tests.antt =====
-- Three validators, one of which is not active.
use mathlib.Core.List.{Perm, Mem}
use stake_basket.Prelude.{
  sort_down, put_down, ℕ, ◌<◌, ◌≤◌, min, true, String, List, [], ◌∷◌, ◌++◌, ◌≡◌, refl, All, count,
  length, IsDescending, ltb, leb, str_eq,
}
use stake_basket.CoreApi.{
  find_index, CoreValidator, active_validators, deposit_of, is_active,
  get_top_validators_by_deposit, calculate_validator_rank,
}
use stake_basket.CoreApi.Ranking.{
  get_top_validators_by_deposit_lead, calculate_validator_rank_counts,
}

abbrev validator : String → String → ℕ → CoreValidator
validator address status deposit = record {
  operator_address = address;
  consensus_address = "";
  fee_address = "";
  validator_name = "";
  validator_status = status;
  validator_voting_power = "1";
  total_deposit = deposit;
  fee_percent = 500;
}

abbrev validators : List CoreValidator
validators = validator "0xa" "1" 10 ∷ validator "0xb" "2" 50 ∷ validator "0xc" "1" 30 ∷ []

get_top_validators_by_deposit_lead_example :
    (others : List CoreValidator) × Perm
      (get_top_validators_by_deposit 1 validators ++ others)
      (active_validators validators)
    × IsDescending deposit_of (get_top_validators_by_deposit 1 validators)
    × All
        (λ v. All (λ w. deposit_of w ≤ deposit_of v) others)
        (get_top_validators_by_deposit 1 validators)
    × (length (get_top_validators_by_deposit 1 validators) ≡ min 1 (count is_active validators))
get_top_validators_by_deposit_lead_example = get_top_validators_by_deposit_lead 1 validators

calculate_validator_rank_counts_example :
    (w : CoreValidator) × (Mem w validators × (is_active w ≡ true))
    × (str_eq w.operator_address "0xa" ≡ true)
    × (count (λ u. ltb (deposit_of w) (deposit_of u)) (active_validators validators) < 2)
    × (2 ≤ count (λ u. leb (deposit_of w) (deposit_of u)) (active_validators validators))
unfolding calculate_validator_rank find_index sort_down put_down
calculate_validator_rank_counts_example =
    calculate_validator_rank_counts (validator "0xa" "1" 10) validators 1 refl

-- A validator that is listed but not active has the rank 0.
inactive_rank : calculate_validator_rank (validator "0xb" "2" 50) validators ≡ 0
unfolding calculate_validator_rank find_index sort_down put_down
inactive_rank = refl
