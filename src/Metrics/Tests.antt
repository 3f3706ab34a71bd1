-- ===== src/Metrics/Tests.antt =====
-- Runs of the metrics collector.
use stake_basket.Prelude.{◌≡◌, refl, String, ℕ, List, [], ◌∷◌, take_last, map, sort_by, ◌over◌}
use stake_basket.Monitoring.{ContractMetrics}
use stake_basket.AlertRules.{Sample, contract}
use stake_basket.Metrics.{HistoricalMetric, is_recent, get_history, get_summary, timeframe_age}
use stake_basket.Metrics.Log.{store_all, logged, store_all-log}

abbrev reading : ContractMetrics
reading = record {
  total_aum = 900 over 1;
  nav_per_share = 1 over 1;
  total_supply = 900 over 1;
  gas_usage = record { deposit = 180000; withdraw = 220000; average = 200000 };
  transaction_count = record { deposits = 190; withdrawals = 10; total = 200 };
  error_rate = 1 over 100;
  performance_score = 98 over 1;
  timestamp = 1000;
}

abbrev entries : List ((String × Sample) × ℕ)
entries =
    (("contract", contract reading), 1000)
    ∷ (("price", contract reading), 2000)
    ∷ (("contract", contract reading), 3000)
    ∷ (("contract", contract reading), 4000)
    ∷ []

abbrev stored : List HistoricalMetric
stored = map logged entries

store_all-log_example : store_all entries [] ≡ take_last 1000 stored
store_all-log_example = store_all-log entries

summary_of_an_hour : (get_summary "1h" 3601000 stored).average_gas_usage ≡ 200000
unfolding get_summary get_history is_recent timeframe_age sort_by
summary_of_an_hour = refl
