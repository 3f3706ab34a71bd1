-- ===== src/Automation.antt =====
-- The class AutomationEngine of backend/src/services/AutomationEngine.ts: the tasks, what executing one
-- decides. Chance and the answers of the monitors come from the readings of a task.
pub mod Loop
pub mod Schedule
mod Tests
use stake_basket.Prelude.{
  Answer, answered, thrown, ℕ, zero, suc, ◌+◌, ◌*◌, Bool, true, false, not, Option, none, some,
  String, List, [], ◌∷◌, ◌&&◌, Ratio, ◌over◌, less, add, minus, times, quotient, distance, larger,
  smaller, Dict, lookup, insert, update_first, any, str_eq, leb, if◌then◌else◌,
}
use stake_basket.Monitoring.{ContractMetrics, ValidatorMetrics}
use stake_basket.AlertRules.{Severity, warning, error, critical, Payload, missing}
use stake_basket.Alerts.{AlertManager, add_custom_alert}

pub data TaskType : Type 0 where
  rebalancing liquidity fees risk_management : TaskType

pub record AutomationTask : Type 0 where
  pub id : String
  pub name : String
  pub kind : TaskType
  pub enabled : Bool
  pub last_run : ℕ
  pub next_run : ℕ
  pub parameters : Dict Ratio

-- `initializeAutomationTasks`, at the time of the constructor
unfoldable pub initial_tasks : ℕ → List AutomationTask
initial_tasks now =
    record {
      id = "auto-rebalance";
      name = "Automatic Portfolio Rebalancing";
      kind = TaskType.rebalancing;
      enabled = true;
      last_run = 0;
      next_run = now + 60 * 60 * 1000;
      parameters = ("checkInterval", 60 over 1) ∷ ("maxDeviation", 10 over 1) ∷ [];
    }
    ∷ record {
      id = "liquidity-management";
      name = "Liquidity Pool Management";
      kind = TaskType.liquidity;
      enabled = true;
      last_run = 0;
      next_run = now + 30 * 60 * 1000;
      parameters = ("minLiquidityRatio", 5 over 100) ∷ ("targetLiquidityRatio", 10 over 100) ∷ [];
    }
    ∷ record {
      id = "dynamic-fees";
      name = "Dynamic Fee Adjustment";
      kind = TaskType.fees;
      enabled = false;
      last_run = 0;
      next_run = now + 4 * 60 * 60 * 1000;
      parameters = ("volatilityThreshold", 15 over 100) ∷ ("maxFeeAdjustment", 2 over 1000) ∷ [];
    }
    ∷ record {
      id = "risk-monitoring";
      name = "Risk Monitoring and Mitigation";
      kind = TaskType.risk_management;
      enabled = true;
      last_run = 0;
      next_run = now + 15 * 60 * 1000;
      parameters = ("checkInterval", 15 over 1) ∷ ("riskThreshold", 8 over 10) ∷ [];
    }
    ∷ []

unfoldable pub task_interval : String → ℕ
task_interval id =
    if str_eq id "auto-rebalance"
    then 60 * 60 * 1000
    else if str_eq id "liquidity-management"
    then 30 * 60 * 1000
    else if str_eq id "dynamic-fees"
    then 4 * 60 * 60 * 1000
    else if str_eq id "risk-monitoring"
    then 15 * 60 * 1000
    else 60 * 60 * 1000

-- `new Date(task.lastRun)` and the rest of the schedule after a run that ended well
abbrev pub rescheduled : ℕ → AutomationTask → AutomationTask
rescheduled now t = record t { last_run = now; next_run = now + task_interval t.id }

-- `Math.min(1, ...)` of the five parts of `calculateRiskLevel`, for figures from 0 to 100. A random
-- number stands for the volatility.
unfoldable pub risk_level : ContractMetrics → ValidatorMetrics → Ratio → Ratio
risk_level c v random =
    let performance =
      times (minus (1 over 1) (quotient c.performance_score (100 over 1))) (3 over 10) in
    let errors = times c.error_rate (2 over 10) in
    let uptime = times (minus (1 over 1) (quotient v.average_uptime (100 over 1))) (3 over 10) in
    let slashing = times (v.total_slashing_events over 1) (1 over 10) in
    let volatility = times random (1 over 10) in
    smaller (1 over 1) (add (add (add (add performance errors) uptime) slashing) volatility)

pub record Strategy : Type 0 where
  pub target_core : Ratio
  pub target_lst_btc : Ratio
  pub rebalance_threshold : Ratio

unfoldable pub initial_strategy : Strategy
initial_strategy = record {
  target_core = 60 over 1;
  target_lst_btc = 40 over 1;
  rebalance_threshold = 10 over 1;
}

-- `emergency_threshold` is the one field of the risk parameters that is read.
pub record AutomationEngine : Type 0 where
  pub tasks : List AutomationTask
  pub alerts : AlertManager
  pub strategy : Strategy
  pub emergency_threshold : Ratio

-- The loop reads the clock when it comes to a task, and an alert reads it when the task has ended.
pub record Visit : Type 0 where
  pub now : ℕ
  pub ended : ℕ
  pub metrics : Answer ContractMetrics
  pub validators : Answer ValidatorMetrics
  pub random : Ratio

-- What an alert of the engine reports. An increase of liquidity is the first number less the second.
pub data Notice : Type 0 where
  rebalanced : Ratio → Notice
  adjusted_liquidity : Ratio → Ratio → Notice
  adjusted_fees : Ratio → Ratio → Notice
  mitigated : Ratio → Notice
  task_failed : String → String → String → Notice

pub data Outcome : Type 0 where
  failed : String → Outcome
  quiet : Outcome
  raised : Severity → String → Notice → Outcome

-- a parameter that is absent is `undefined`
abbrev parameter : String → AutomationTask → Ratio
parameter name t = elim (lookup name t.parameters) [ none ↦ 0 over 0 | some r ↦ r ]

-- `executeRebalancing`, where `getCurrentAllocation` gives 65 and 35
unfoldable pub execute_rebalancing : Strategy → Answer ContractMetrics → Outcome
execute_rebalancing s (thrown message) = failed message
execute_rebalancing s (answered c) =
    let deviation =
      larger (distance (65 over 1) s.target_core) (distance (35 over 1) s.target_lst_btc) in
    if less s.rebalance_threshold deviation
    then raised warning "Portfolio Rebalanced" (rebalanced deviation)
    else quiet

-- `executeLiquidityManagement`, where `getCurrentLiquidityRatio` gives 0.03
unfoldable pub execute_liquidity : AutomationTask → Answer ContractMetrics → Outcome
unfolding lookup
execute_liquidity t (thrown message) = failed message
execute_liquidity t (answered c) =
    if less (3 over 100) (parameter "minLiquidityRatio" t)
    then raised warning "Liquidity Adjusted" (
        adjusted_liquidity (times c.total_aum (parameter "targetLiquidityRatio" t))
          (times c.total_aum (3 over 100)))
    else quiet

-- `executeFeeAdjustment`, where `calculateMarketVolatility` gives a fifth of a random number
unfoldable pub execute_fees : AutomationTask → Ratio → Outcome
unfolding lookup
execute_fees t random =
    let volatility = times random (2 over 10) in
    if less (parameter "volatilityThreshold" t) volatility
    then raised warning "Fees Adjusted" (
        adjusted_fees volatility
          (smaller (times volatility (1 over 100)) (parameter "maxFeeAdjustment" t)))
    else quiet

-- `executeRiskManagement`
unfoldable pub execute_risk :
    Ratio → Answer ContractMetrics → Answer ValidatorMetrics → Ratio → Outcome
unfolding risk_level
execute_risk emergency_threshold (thrown message) v random = failed message
execute_risk emergency_threshold (answered c) (thrown message) random = failed message
execute_risk emergency_threshold (answered c) (answered v) random =
    let level = risk_level c v random in
    if less emergency_threshold level
    then raised critical "Risk Mitigation Activated" (mitigated level)
    else quiet

unfoldable pub execute_task : AutomationEngine → Visit → AutomationTask → Outcome
execute_task e v t = elim t.kind [
  | TaskType.rebalancing ↦ execute_rebalancing e.strategy v.metrics
  | TaskType.liquidity ↦ execute_liquidity t v.metrics
  | TaskType.fees ↦ execute_fees t v.random
  | TaskType.risk_management ↦ execute_risk e.emergency_threshold v.metrics v.validators v.random
]
