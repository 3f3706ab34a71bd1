-- ===== src/Automation/Schedule.antt =====
-- Which tasks a run executes, and what it leaves of their schedule.
use stake_basket.Prelude.{
  answered, ◌≡◌, refl, ap, ◌∙◌, Bool, true, false, not, ◌&&◌, Option, none, some, String, List, [],
  ◌∷◌, map, find, update_first, arith, leb, ◌over◌, times, if◌then◌else◌, lookup, Bool-cases, inl,
  inr,
}
use stake_basket.AlertRules.{warning}
use stake_basket.Monitoring.{ContractMetrics}
use stake_basket.Alerts.{AlertManager}
use stake_basket.Automation.{
  AutomationTask, AutomationEngine, Visit, Notice, Outcome, failed, quiet, raised, execute_task,
  rescheduled, execute_rebalancing, execute_liquidity, initial_strategy,
}
use stake_basket.Automation.Loop.{
  conclude, run_task, run_list, run_automated_tasks, has_id, toggle_task,
}

abbrev pub is_failed : Outcome → Bool
is_failed (failed message) = true
is_failed _ = false

-- The task after a run, from the task alone.
abbrev pub after_run : (AutomationTask → Visit) → AutomationEngine → AutomationTask → AutomationTask
after_run visit e t =
    if t.enabled && leb t.next_run (visit t).now && not (is_failed (execute_task e (visit t) t))
    then rescheduled (visit t).now t
    else t

module _ (visit : AutomationTask → Visit) (text details : Notice → String) where
  conclude-task :
      (t : AutomationTask) (o : Outcome) (alerts : AlertManager)
      → (conclude visit text details t o alerts).0
        ≡ (if not (is_failed o) then rescheduled (visit t).now t else t)
  conclude-task t (failed message) alerts = refl
  conclude-task t quiet alerts = refl
  conclude-task t (raised severity title notice) alerts = refl

  run_task-task :
      (e : AutomationEngine) (t : AutomationTask) (alerts : AlertManager)
      → (run_task visit text details e t alerts).0 ≡ after_run visit e t
  unfolding run_task
  run_task-task e t alerts = ground (arith, conclude-task t (execute_task e (visit t) t) alerts)

  run_list-tasks :
      (e : AutomationEngine) (ts : List AutomationTask) (alerts : AlertManager)
      → (run_list visit text details e ts alerts).0 ≡ map (after_run visit e) ts
  unfolding run_list
  run_list-tasks e [] alerts = refl
  run_list-tasks e (t ∷ ts) alerts =
      cc (run_task-task e t alerts, run_list-tasks e ts (run_task visit text details e t alerts).1)

pub run_automated_tasks-schedule :
    (visit : AutomationTask → Visit) (text details : Notice → String) (e : AutomationEngine)
    → (run_automated_tasks visit text details e).tasks ≡ map (after_run visit e) e.tasks
unfolding run_automated_tasks
run_automated_tasks-schedule visit text details e =
    run_list-tasks visit text details e e.tasks e.alerts

abbrev pub disabled : Option AutomationTask → Option AutomationTask
disabled none = none
disabled (some t) = some (record t { enabled = false })

has_id-after_run :
    (visit : AutomationTask → Visit) (e : AutomationEngine) (id : String) (t : AutomationTask)
    → has_id id (after_run visit e t) ≡ has_id id t
has_id-after_run visit e id t = ground (arith, execute_task e (visit t) t)

find-after_run :
    (visit : AutomationTask → Visit) (e : AutomationEngine) (id : String) (ts : List AutomationTask)
    → find
        (has_id id)
        (map (after_run visit e) (update_first (has_id id) (λ t. record t { enabled = false }) ts))
      ≡ disabled (find (has_id id) ts)
find-after_run visit e id [] = refl
find-after_run visit e id (t ∷ ts) = elim (Bool-cases (has_id id t)) [
  | inl hit ↦ rw hit (rw hit refl)
  | inr miss ↦ rw miss (rw (has_id-after_run visit e id t, miss) (find-after_run visit e id ts))
]

-- A task that was just disabled goes through a run untouched: the run leaves the first task of that
-- name as it was, with its schedule and parameters, but disabled. No task of that name stays none.
disabled_task_stays :
    (visit : AutomationTask → Visit) (text details : Notice → String) (e : AutomationEngine)
    (id : String)
    → find (has_id id) (run_automated_tasks visit text details (toggle_task id false e).0).tasks
      ≡ disabled (find (has_id id) e.tasks)
unfolding toggle_task
disabled_task_stays visit text details e id =
    ap (find (has_id id))
      (run_automated_tasks-schedule visit text details (toggle_task id false e).0)
    ∙ find-after_run visit (toggle_task id false e).0 id e.tasks

-- With the strategy and the parameters that the engine starts with, the allocation of 65 to 35 and the
-- liquidity of 3% that it is given decide both tasks: whenever the metrics can be read, rebalancing
-- does nothing and liquidity is raised, by the shares 10% and 3% of the assets.
mock_figures_decide :
    (c : ContractMetrics) (t : AutomationTask)
    → t.parameters ≡ ("minLiquidityRatio", 5 over 100) ∷ ("targetLiquidityRatio", 10 over 100) ∷ []
    → (execute_rebalancing initial_strategy (answered c) ≡ quiet)
      × (execute_liquidity t (answered c)
          ≡ raised warning "Liquidity Adjusted" (
              Notice.adjusted_liquidity
                (times c.total_aum (10 over 100))
                (times c.total_aum (3 over 100))))
unfolding execute_rebalancing execute_liquidity initial_strategy lookup
mock_figures_decide c t start = (refl, rw start refl)
