-- ===== src/Monitoring/Score.antt =====
-- The performance score and the staleness flag of the monitors.
use stake_basket.Prelude.{◌&&◌, ℕ, ◌≡◌, Bool, ◌over◌, less, arith}
use stake_basket.Monitoring.{BasketReadings, recent_transactions, collect_metrics}

-- The low-performance threshold of 50 separates a paused basket from a running one when the
-- transaction data could be read; when it could not, a paused basket scores exactly 50.
low_score_by_pause :
    (r : BasketReadings) (readable : Bool) (now : ℕ)
    → less (collect_metrics r (recent_transactions readable) now).performance_score (50 over 1)
      ≡ (r.is_paused && readable)
unfolding collect_metrics recent_transactions
low_score_by_pause r readable now = ground arith
