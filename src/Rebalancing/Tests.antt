-- ===== src/Rebalancing/Tests.antt =====
-- Rounds of the rebalancer on concrete metrics.
use stake_basket.Prelude.{◌≡◌, refl, true, false, [], ◌over◌, less, some, none}
use stake_basket.Monitoring.{ValidatorMetrics}
use stake_basket.Rebalancing.{
  Thresholds, measured, generate_recommendation, check_result, manual_result,
}
use stake_basket.Rebalancing.Results.{check_result-accounts, IsDue}

-- An uptime of 94.5%: recommended, with an estimate of 0.175, below the usual threshold of 0.2.
abbrev slack : ValidatorMetrics
slack = record {
  validators = [];
  total_validators = 10;
  active_validators = 9;
  average_uptime = 945 over 10;
  average_performance = 90 over 1;
  total_slashing_events = 0;
  recommendations = [];
  timestamp = 5;
}

abbrev usual : Thresholds
usual = record { apy_drop = 5 over 10; risk_increase = 60 over 1; min_improvement = 2 over 10 }

slack_below_threshold :
    ((check_result usual (measured slack) (9 over 10) "0x1" 7).executed ≡ false)
    × ((manual_result (measured slack) (9 over 10) "0x1" 7).executed ≡ true)
unfolding check_result manual_result generate_recommendation
slack_below_threshold = (refl, refl)

-- With a lower threshold the same metrics lead to an execution.
abbrev eager : Thresholds
eager = record { apy_drop = 5 over 10; risk_increase = 60 over 1; min_improvement = 1 over 10 }

check_result-accounts_example :
    let a = check_result eager (measured slack) (1 over 2) "0x1" 7 in
    let b = manual_result (measured slack) (1 over 2) "0x1" 7 in
    (a.executed ≡ true
      → IsDue (measured slack)
        × (less a.improvement eager.min_improvement ≡ false)
        × (a.tx_hash ≡ some "0x1")
        × (b.executed ≡ true)
        × (b.improvement ≡ a.improvement)
        × (b.tx_hash ≡ a.tx_hash))
    × (a.executed ≡ false → (a.improvement ≡ 0 over 1) × (a.tx_hash ≡ none) × (a.changed_to ≡ []))
check_result-accounts_example = check_result-accounts eager (measured slack) (1 over 2) "0x1" 7

eager_executes : (check_result eager (measured slack) (1 over 2) "0x1" 7).executed ≡ true
unfolding check_result generate_recommendation
eager_executes = refl
