-- ===== src/Metrics.antt =====
-- The class MetricsCollector of backend/src/services/MetricsCollector.ts. Its state is the list of the
-- stored metrics, oldest first.
pub mod Log
mod Tests
use stake_basket.Prelude.{
  ℕ, zero, suc, ◌+◌, ◌*◌, ◌/◌, Bool, Option, none, some, String, List, [], ◌∷◌, ◌&&◌, map, Ratio,
  ◌over◌, add, minus, times, quotient, sum_of, is_nan, filter, length, total, take_last,
  push_capped, sort_by, str_eq, ltb, if◌then◌else◌,
}
use stake_basket.AlertRules.{Sample, contract}

-- `type` is `kind` here, and the identifier the pair of the type and the time.
pub record HistoricalMetric : Type 0 where
  pub id : String × ℕ
  pub kind : String
  pub payload : Sample
  pub timestamp : ℕ

abbrev pub metric_of : String → Sample → ℕ → HistoricalMetric
metric_of kind payload now = record {
  id = (kind, now);
  kind = kind;
  payload = payload;
  timestamp = now;
}

unfoldable pub store : String → Sample → ℕ → List HistoricalMetric → List HistoricalMetric
store kind payload now metrics = push_capped 1000 metrics (metric_of kind payload now)

-- How far back a timeframe reaches; a text that is no timeframe leaves the cutoff at `now`.
unfoldable pub timeframe_age : String → ℕ
timeframe_age timeframe =
    if str_eq timeframe "1h"
    then 60 * 60 * 1000
    else if str_eq timeframe "24h"
    then 24 * 60 * 60 * 1000
    else if str_eq timeframe "7d"
    then 7 * 24 * 60 * 60 * 1000
    else if str_eq timeframe "30d"
    then 30 * 24 * 60 * 60 * 1000
    else 0

-- `xs.slice(-limit)` for a limit that is not negative: -0 is 0, so a limit of 0 keeps all.
abbrev pub newest {ℓ} : {A : Type ℓ} → ℕ → List A → List A
newest zero xs = xs
newest (suc n) xs = take_last (suc n) xs

-- of the type and newer than the cutoff
unfoldable pub is_recent : String → String → ℕ → HistoricalMetric → Bool
is_recent kind timeframe now m =
    str_eq m.kind kind && ltb now (m.timestamp + timeframe_age timeframe)

unfoldable pub get_history : String → ℕ → String → ℕ → List HistoricalMetric → List HistoricalMetric
get_history kind limit timeframe now metrics =
    sort_by (λ a b. ltb a.timestamp b.timestamp)
      (newest limit (filter (is_recent kind timeframe now) metrics))

-- The fields that the summary reads, 0 where the data has no such field.
abbrev transactions_of : HistoricalMetric → ℕ
transactions_of m = elim m.payload [ contract c ↦ c.transaction_count.total | _ ↦ 0 ]

abbrev gas_of : HistoricalMetric → ℕ
gas_of m = elim m.payload [ contract c ↦ c.gas_usage.average | _ ↦ 0 ]

-- `x || 0`
abbrev or_zero : Ratio → Ratio
or_zero x = if is_nan x then 0 over 1 else x

abbrev error_rate_of : HistoricalMetric → Ratio
error_rate_of m = elim m.payload [ contract c ↦ or_zero c.error_rate | _ ↦ 0 over 1 ]

abbrev performance_of : HistoricalMetric → Ratio
performance_of m = elim m.payload [ contract c ↦ or_zero c.performance_score | _ ↦ 0 over 1 ]

-- `dataPoints` and `timeframe` are absent from the summary of an empty history.
pub record Summary : Type 0 where
  pub total_transactions : ℕ
  pub average_gas_usage : ℕ
  pub error_rate : Ratio
  pub uptime_percentage : Ratio
  pub average_performance : Ratio
  pub data_points : Option (ℕ × String)

abbrev average_of : (HistoricalMetric → Ratio) → List HistoricalMetric → Ratio
average_of f history = quotient (sum_of (map f history)) (length history over 1)

-- `Math.round(n / d)`
abbrev pub rounded : ℕ → ℕ → ℕ
rounded n d = (2 * n + d) / (2 * d)

abbrev pub summary_of : String → List HistoricalMetric → Summary
summary_of timeframe [] = record {
  total_transactions = 0;
  average_gas_usage = 0;
  error_rate = 0 over 1;
  uptime_percentage = 100 over 1;
  average_performance = 0 over 1;
  data_points = none;
}
summary_of timeframe (m ∷ ms) =
    let history = m ∷ ms in
    let error_rate = average_of error_rate_of history in
    record {
      total_transactions = total transactions_of history;
      average_gas_usage = rounded (total gas_of history) (length history);
      error_rate = error_rate;
      uptime_percentage = minus (100 over 1) (times error_rate (100 over 1));
      average_performance = average_of performance_of history;
      data_points = some (length history, timeframe);
    }

unfoldable pub get_summary : String → ℕ → List HistoricalMetric → Summary
get_summary timeframe now metrics =
    summary_of timeframe (get_history "contract" 100 timeframe now metrics)

unfoldable pub clear_old_metrics : ℕ → ℕ → List HistoricalMetric → List HistoricalMetric
clear_old_metrics max_age now = filter (λ m. ltb now (m.timestamp + max_age))
