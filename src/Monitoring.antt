-- ===== src/Monitoring.antt =====
-- What the monitors measure: backend/src/services/ContractMonitor.ts and the interfaces of
-- backend/src/services/ValidatorMonitor.ts. A figure that the contracts report as decimal text is
-- the number that the text denotes; a time stamp is its milliseconds since the epoch.
pub mod Score
mod Tests
use stake_basket.Prelude.{
  ◌*◌, ℕ, ◌+◌, Bool, true, false, Option, none, some, String, List, [], ◌∷◌, Ratio, ◌over◌, ltb,
  if◌then◌else◌, minus, times, distance, quotient, ◌||◌,
}

pub record GasUsage : Type 0 where
  pub deposit : ℕ
  pub withdraw : ℕ
  pub average : ℕ

pub record TransactionCount : Type 0 where
  pub deposits : ℕ
  pub withdrawals : ℕ
  pub total : ℕ

pub record ContractMetrics : Type 0 where
  pub total_aum : Ratio
  pub nav_per_share : Ratio
  pub total_supply : Ratio
  pub gas_usage : GasUsage
  pub transaction_count : TransactionCount
  pub error_rate : Ratio
  pub performance_score : Ratio
  pub timestamp : ℕ

pub record PriceData : Type 0 where
  pub core_price : Ratio
  pub lst_btc_price : Ratio
  pub btc_price : Ratio
  pub last_updated : ℕ
  pub is_stale : Bool
  pub deviation : Ratio

pub record SlashingEvent : Type 0 where
  pub timestamp : ℕ
  pub amount : ℕ
  pub reason : String
  pub validator : String

-- `effective_apy` and `risk_score` are read by the code and declared by no interface.
pub record ValidatorInfo : Type 0 where
  pub address : String
  pub name : String
  pub is_active : Bool
  pub total_delegated : ℕ
  pub commission : Ratio
  pub uptime : Ratio
  pub performance : Ratio
  pub slashing_history : List SlashingEvent
  pub last_update : ℕ
  pub effective_apy : Ratio
  pub risk_score : Ratio

-- The recommendation texts, by their templates; the number is the one in the text.
pub data Advice : Type 0 where
  inactive low_performance high_commission slashed low_uptime low_apy high_risk : ℕ → Advice
  diversify all_well : Advice

pub record ValidatorMetrics : Type 0 where
  pub validators : List ValidatorInfo
  pub total_validators : ℕ
  pub active_validators : ℕ
  pub average_uptime : Ratio
  pub average_performance : Ratio
  pub total_slashing_events : ℕ
  pub recommendations : List Advice
  pub timestamp : ℕ

-- the result of `getRecentTransactionData`
pub record RecentTransactions : Type 0 where
  pub deposit_count : ℕ
  pub withdraw_count : ℕ
  pub total_txns : ℕ
  pub avg_deposit_gas : ℕ
  pub avg_withdraw_gas : ℕ
  pub avg_gas_used : ℕ
  pub success_rate : Ratio

-- `getRecentTransactionData`, by whether the block number could be read
pub recent_transactions : Bool → RecentTransactions
recent_transactions true = record {
  deposit_count = 5;
  withdraw_count = 3;
  total_txns = 8;
  avg_deposit_gas = 180000;
  avg_withdraw_gas = 220000;
  avg_gas_used = 200000;
  success_rate = 95 over 100;
}
recent_transactions false = record {
  deposit_count = 0;
  withdraw_count = 0;
  total_txns = 0;
  avg_deposit_gas = 0;
  avg_withdraw_gas = 0;
  avg_gas_used = 0;
  success_rate = 1 over 1;
}

-- `calculatePerformanceScore`. No deduction is negative, so stopping at zero after each of them is
-- the final `Math.max(0, score)`.
pub performance_score_of : Bool → Ratio → Ratio → Ratio
performance_score_of is_paused transaction_success gas_efficiency =
    let paused = if is_paused then minus (100 over 1) (50 over 1) else 100 over 1 in
    let failing = minus paused (times (minus (1 over 1) transaction_success) (30 over 1)) in
    minus failing (times (minus (1 over 1) gas_efficiency) (20 over 1))

-- The answers of the four contract calls of `collectMetrics`, in wei.
pub record BasketReadings : Type 0 where
  pub total_aum : ℕ
  pub nav_per_share : ℕ
  pub total_supply : ℕ
  pub is_paused : Bool

abbrev pub format_ether : ℕ → Ratio
format_ether wei = wei over 1000000000000000000

-- `collectMetrics` once the contract calls have succeeded; a failing call is thrown on.
pub collect_metrics : BasketReadings → RecentTransactions → ℕ → ContractMetrics
unfolding performance_score_of
collect_metrics r recent now = record {
  total_aum = format_ether r.total_aum;
  nav_per_share = format_ether r.nav_per_share;
  total_supply = format_ether r.total_supply;
  gas_usage = record {
    deposit = recent.avg_deposit_gas;
    withdraw = recent.avg_withdraw_gas;
    average = recent.avg_gas_used;
  };
  transaction_count = record {
    deposits = recent.deposit_count;
    withdrawals = recent.withdraw_count;
    total = recent.total_txns;
  };
  error_rate = minus (1 over 1) recent.success_rate;
  performance_score =
      performance_score_of r.is_paused recent.success_rate
        (if ltb recent.avg_gas_used 500000 then 1 over 1 else 1 over 2);
  timestamp = now;
}

-- The answers of the seven contract calls of `checkPriceFeeds`; the prices in wei, the time in
-- seconds.
pub record FeedReadings : Type 0 where
  pub core_price : ℕ
  pub lst_btc_price : ℕ
  pub btc_price : ℕ
  pub core_stale : Bool
  pub lst_btc_stale : Bool
  pub btc_stale : Bool
  pub last_updated : ℕ

-- `checkPriceFeeds` once the contract calls have succeeded. The prices are in cents, before they
-- are printed with eight decimals.
pub check_price_feeds : FeedReadings → PriceData
check_price_feeds r = record {
  core_price = times (format_ether r.core_price) (100 over 1);
  lst_btc_price = times (format_ether r.lst_btc_price) (100 over 1);
  btc_price = times (format_ether r.btc_price) (100 over 1);
  last_updated = r.last_updated * 1000;
  is_stale = r.core_stale || r.lst_btc_stale || r.btc_stale;
  deviation =
      quotient (distance (times (format_ether r.core_price) (100 over 1)) (150 over 1))
        (150 over 1);
}
