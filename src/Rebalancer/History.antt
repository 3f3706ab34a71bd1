-- ===== src/Rebalancer/History.antt =====
-- The history keeps the last hundred results of everything that was ever recorded.
use stake_basket.Prelude.{
  ℕ, ◌+◌, ◌≤◌, ◌≡◌, refl, ◌∙◌, List, [], ◌∷◌, ◌++◌, take_last, push_capped-take_last,
  length-take_last-le, count-not, ltb, if◌then◌else◌, arith, Bool-cases, inl, inr,
}
use stake_basket.Rebalancer.{
  AutomatedRebalancer, new, finish_check, trigger_manual, record_result, begin_check, start, stop,
  update_interval, update_thresholds, set_enabled, destroy, get_statistics,
}
use stake_basket.Rebalancing.{RebalancingResult, check_result, manual_result}
use stake_basket.Rebalancer.Scheduling.{
  Event, started, stopped, tick, finished, triggered, interval_updated, thresholds_updated,
  enabled_set, destroyed, apply, run_from,
}

-- The log without a bound: the result of every check that ends and of every manual trigger, since
-- the last `destroy`.
abbrev pub log_step : AutomatedRebalancer → Event → List RebalancingResult → List RebalancingResult
log_step s (finished checked random hash now) log =
    if ltb 0 s.pending
    then log ++ check_result s.job.thresholds checked random hash now ∷ []
    else log
log_step s (triggered checked random hash now) log =
    log ++ manual_result checked random hash now ∷ []
log_step s destroyed log = []
log_step s _ log = log

unfoldable pub log_from :
    AutomatedRebalancer → List Event → List RebalancingResult → List RebalancingResult
log_from s [] log = log
log_from s (e ∷ es) log = log_from (apply e s) es (log_step s e log)

history-stop : (s : AutomatedRebalancer) → (stop s).history ≡ s.history
unfolding stop
history-stop s = ground arith

history-start : (now : ℕ) (s : AutomatedRebalancer) → (start now s).history ≡ s.history
unfolding start
history-start now s = ground arith

history-update_interval :
    (minutes now : ℕ) (s : AutomatedRebalancer)
    → (update_interval minutes now s).history ≡ s.history
unfolding update_interval
history-update_interval minutes now s = ground arith

apply-log :
    (e : Event) (s : AutomatedRebalancer) (log : List RebalancingResult)
    → s.history ≡ take_last 100 log
    → (apply e s).history ≡ take_last 100 (log_step s e log)
unfolding apply begin_check finish_check trigger_manual update_thresholds set_enabled destroy
    record_result
apply-log (started now) s log h = history-start now s ∙ h
apply-log stopped s log h = history-stop s ∙ h
apply-log (tick now) s log h = ground arith
apply-log (finished checked random hash now) s log h = elim (Bool-cases (ltb 0 s.pending)) [
  | inl waits ↦ rw (waits, h) (push_capped-take_last 100 log _)
  | inr idle ↦ rw (idle, h)
]
apply-log (triggered checked random hash now) s log h = rw h (push_capped-take_last 100 log _)
apply-log (interval_updated minutes now) s log h = history-update_interval minutes now s ∙ h
apply-log (thresholds_updated a r i) s log h = h
apply-log (enabled_set enabled) s log h = h
apply-log destroyed s log h = refl

run_from-log :
    (es : List Event) (s : AutomatedRebalancer) (log : List RebalancingResult)
    → s.history ≡ take_last 100 log
    → (run_from s es).history ≡ take_last 100 (log_from s es log)
unfolding run_from log_from
run_from-log [] s log h = h
run_from-log (e ∷ es) s log h = run_from-log es (apply e s) (log_step s e log) (apply-log e s log h)

-- After any events on a new rebalancer the history is the last hundred entries of the unbounded log.
pub run-log :
    (interval_minutes : ℕ) (es : List Event)
    → (run_from (new interval_minutes) es).history
      ≡ take_last 100 (log_from (new interval_minutes) es [])
unfolding new
run-log interval_minutes es = run_from-log es (new interval_minutes) [] refl

-- After any events the successes and failures of the statistics add up to the runs, a hundred at
-- most.
run-statistics :
    (interval_minutes : ℕ) (es : List Event)
    → let s = get_statistics (run_from (new interval_minutes) es) in
      (s.successful_rebalances + s.failed_rebalances ≡ s.total_runs) × (s.total_runs ≤ 100)
unfolding get_statistics
run-statistics interval_minutes es = (
  count-not (λ r. r.executed) (run_from (new interval_minutes) es).history,
  rw (run-log interval_minutes es)
      (length-take_last-le 100 (log_from (new interval_minutes) es [])),
)
