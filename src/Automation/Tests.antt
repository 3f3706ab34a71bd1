-- ===== src/Automation/Tests.antt =====
-- Runs of the automation engine.
use stake_basket.Prelude.{answered, thrown, String, [], ◌∷◌, ◌over◌}
use stake_basket.Monitoring.{ContractMetrics}
use stake_basket.Alerts.{new}
use stake_basket.Automation.{
  true, AutomationTask, AutomationEngine, Visit, Notice, initial_tasks, initial_strategy, TaskType,
}

abbrev reading : ContractMetrics
reading = record {
  total_aum = 900 over 1;
  nav_per_share = 1 over 1;
  total_supply = 900 over 1;
  gas_usage = record { deposit = 180000; withdraw = 220000; average = 200000 };
  transaction_count = record { deposits = 190; withdrawals = 10; total = 200 };
  error_rate = 1 over 100;
  performance_score = 98 over 1;
  timestamp = 1000;
}

abbrev engine : AutomationEngine
engine = record {
  tasks = initial_tasks 0;
  alerts = new;
  strategy = initial_strategy;
  emergency_threshold = 25 over 100;
}

-- A run half an hour after the start, in which the validators cannot be read.
abbrev half_an_hour : AutomationTask → Visit
half_an_hour t = record {
  now = 1800000;
  ended = 1800500;
  metrics = answered reading;
  validators = thrown "network";
  random = 1 over 2;
}

abbrev blank : Notice → String
blank n = ""

abbrev liquidity_task : AutomationTask
liquidity_task = record {
  id = "liquidity-management";
  name = "Liquidity Pool Management";
  kind = TaskType.liquidity;
  enabled = true;
  last_run = 0;
  next_run = 1800000;
  parameters = ("minLiquidityRatio", 5 over 100) ∷ ("targetLiquidityRatio", 10 over 100) ∷ [];
}
