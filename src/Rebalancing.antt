-- ===== src/Rebalancing.antt =====
-- What a round of the rebalancer decides and records: the data, the recommendation and the results of
-- backend/src/services/AutomatedRebalancer.ts, apart from the state of the class. `undefined`, and a
-- sum with it, is the ratio 0 / 0, as NaN is.
pub mod Advice
pub mod Results
mod Tests
use stake_basket.Prelude.{
  ℕ, zero, suc, ◌+◌, ◌-◌, ◌*◌, ◌/◌, ◌%◌, min, Bool, true, false, not, ◌&&◌, ◌||◌, Option, none,
  some, String, List, [], ◌∷◌, ◌++◌, map, Ratio, ◌over◌, less, add, minus, times, quotient, smaller,
  larger, sum_of, filter, count, find, length, take, total, str_eq, sort_by, is_nan, ltb, ◌==◌,
  if◌then◌else◌,
}
use stake_basket.Monitoring.{ValidatorMetrics}

pub record Thresholds : Type 0 where
  pub apy_drop : Ratio
  pub risk_increase : Ratio
  pub min_improvement : Ratio

-- The texts of `reason`, by their templates.
pub data Reason : Type 0 where
  none_needed : Reason
  low_performance : Ratio → Reason
  low_uptime : Ratio → Reason
  high_inactive : Ratio → Reason
  below_threshold : (improvement threshold : Ratio) → Reason
  execution_failed : String → Reason
  error_text : String → Reason
  manual : Reason → Reason
  manual_message : String → Reason
  manual_failed : String → Reason

pub record RebalancingResult : Type 0 where
  pub executed : Bool
  pub reason : Reason
  pub tx_hash : Option String
  pub before_apy : Ratio
  pub after_apy : Ratio
  pub improvement : Ratio
  pub timestamp : ℕ
  pub changed_from : List String
  pub changed_to : List String

-- The recommendation; its lists of validators are empty in the code.
pub record Recommendation : Type 0 where
  pub should_rebalance : Bool
  pub reason : Reason
  pub estimated_improvement_apy : Ratio
  pub from_validators : List String
  pub to_validators : List String

check_performance : Ratio → Recommendation → Recommendation
check_performance average_performance r =
    if less average_performance (80 over 1)
    then record r {
      should_rebalance = true;
      reason = low_performance average_performance;
      estimated_improvement_apy = times (minus (85 over 1) average_performance) (1 over 10);
    }
    else r

check_uptime : Ratio → Recommendation → Recommendation
check_uptime average_uptime r =
    if less average_uptime (95 over 1)
    then record r {
      should_rebalance = true;
      reason = low_uptime average_uptime;
      estimated_improvement_apy =
          larger r.estimated_improvement_apy
            (times (minus (98 over 1) average_uptime) (5 over 100));
    }
    else r

check_inactive : Ratio → Recommendation → Recommendation
check_inactive inactive_ratio r =
    if less (2 over 10) inactive_ratio
    then record r {
      should_rebalance = true;
      reason = high_inactive inactive_ratio;
      estimated_improvement_apy =
          larger r.estimated_improvement_apy (times inactive_ratio (2 over 1));
    }
    else r

abbrev pub inactive_ratio_of : ValidatorMetrics → Ratio
inactive_ratio_of m = minus (1 over 1) (m.active_validators over m.total_validators)

-- `generateRebalancingRecommendation`
unfoldable pub generate_recommendation : ValidatorMetrics → Recommendation
unfolding check_performance check_uptime check_inactive
generate_recommendation m = check_inactive (inactive_ratio_of m) (
    check_uptime m.average_uptime (
      check_performance m.average_performance (record {
        should_rebalance = false;
        reason = none_needed;
        estimated_improvement_apy = 0 over 1;
        from_validators = [];
        to_validators = [];
      })))

-- The result of `executeAutomatedRebalancing`, by the two calls of `Math.random()`: the first one
-- decides, the second one is the hash that it is printed as.
pub record Execution : Type 0 where
  pub success : Bool
  pub message : String
  pub tx_hash : Option String

unfoldable pub execute_rebalancing : Ratio → String → Execution
execute_rebalancing random hash =
    if less (1 over 10) random
    then record {
      success = true;
      message = "Rebalancing completed successfully";
      tx_hash = some hash;
    }
    else record {
      success = false;
      message = "Rebalancing failed due to network conditions";
      tx_hash = none;
    }

-- What awaiting `checkValidators()` gives.
pub data Checked : Type 0 where
  measured : ValidatorMetrics → Checked
  thrown : String → Checked

abbrev undefined : Ratio
undefined = 0 over 0

-- a result of a round that did not execute
abbrev skipped : Reason → Ratio → ℕ → List String → RebalancingResult
skipped reason apy now changed_from = record {
  executed = false;
  reason = reason;
  tx_hash = none;
  before_apy = apy;
  after_apy = apy;
  improvement = 0 over 1;
  timestamp = now;
  changed_from = changed_from;
  changed_to = [];
}

-- The result that an automated check records.
unfoldable pub check_result : Thresholds → Checked → Ratio → String → ℕ → RebalancingResult
unfolding execute_rebalancing
check_result thresholds (thrown message) random hash now =
    skipped (error_text message) (0 over 1) now []
check_result thresholds (measured m) random hash now =
    let rec = generate_recommendation m in
    let done = execute_rebalancing random hash in
    if not rec.should_rebalance
    then skipped rec.reason m.average_performance now []
    else if less rec.estimated_improvement_apy thresholds.min_improvement
    then skipped (below_threshold rec.estimated_improvement_apy thresholds.min_improvement)
        undefined now []
    else if done.success
    then record {
      executed = true;
      reason = rec.reason;
      tx_hash = done.tx_hash;
      before_apy = m.average_performance;
      after_apy = add m.average_performance rec.estimated_improvement_apy;
      improvement = rec.estimated_improvement_apy;
      timestamp = now;
      changed_from = rec.from_validators;
      changed_to = rec.to_validators;
    }
    else skipped (execution_failed done.message) undefined now rec.from_validators

-- The result of `triggerManualRebalancing`, which asks neither the threshold nor `enabled`.
unfoldable pub manual_result : Checked → Ratio → String → ℕ → RebalancingResult
unfolding execute_rebalancing
manual_result (thrown message) random hash now = skipped (manual_failed message) (0 over 1) now []
manual_result (measured m) random hash now =
    let rec = generate_recommendation m in
    let done = execute_rebalancing random hash in
    if not rec.should_rebalance
    then skipped (manual rec.reason) m.average_performance now []
    else record {
      executed = done.success;
      reason = manual_message done.message;
      tx_hash = done.tx_hash;
      before_apy = undefined;
      after_apy = undefined;
      improvement = if done.success then rec.estimated_improvement_apy else 0 over 1;
      timestamp = now;
      changed_from = rec.from_validators;
      changed_to = if done.success then rec.to_validators else [];
    }
