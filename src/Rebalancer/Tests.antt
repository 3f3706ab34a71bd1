-- ===== src/Rebalancer/Tests.antt =====
-- Runs of the rebalancer on concrete events.
use stake_basket.Prelude.{push_capped, ◌≡◌, refl, List, [], ◌∷◌, ◌over◌, take_last, length}
use stake_basket.Monitoring.{ValidatorMetrics}
use stake_basket.Rebalancer.{trigger_manual, new, start, begin_check, finish_check, record_result}
use stake_basket.Rebalancing.{measured, thrown}
use stake_basket.Rebalancer.Scheduling.{
  Event, started, tick, finished, triggered, run_from, apply, IsConsistent, run-IsConsistent,
}
use stake_basket.Rebalancer.History.{log_from, run-log}

-- An uptime of 94.5%: recommended, with an estimate of 0.175, below the usual threshold of 0.2.
abbrev slack : ValidatorMetrics
slack = record {
  validators = [];
  total_validators = 10;
  active_validators = 9;
  average_uptime = 945 over 10;
  average_performance = 90 over 1;
  total_slashing_events = 0;
  recommendations = [];
  timestamp = 5;
}

abbrev events : List Event
events =
    started 1000
    ∷ finished (measured slack) (9 over 10) "0x1" 1100
    ∷ tick 3601000
    ∷ finished (thrown "network") (1 over 2) "0x2" 3601500
    ∷ triggered (measured slack) (1 over 2) "0x3" 3602000
    ∷ []

events_recorded : length (run_from (new 60) events).history ≡ 3
unfolding run_from new apply start begin_check finish_check record_result trigger_manual push_capped
events_recorded = refl

run-IsConsistent_example : IsConsistent (run_from (new 60) events)
run-IsConsistent_example = run-IsConsistent 60 events

run-log_example : (run_from (new 60) events).history ≡ take_last 100 (log_from (new 60) events [])
run-log_example = run-log 60 events
