-- ===== src/Automation/Loop.antt =====
-- The loop of AutomationEngine.ts over its tasks, and the methods that change one. The texts of the
-- alerts come from a printing function.
use stake_basket.Prelude.{
  ℕ, Bool, String, List, [], ◌∷◌, ◌&&◌, Ratio, Dict, insert, update_first, any, str_eq, leb,
  if◌then◌else◌,
}
use stake_basket.AlertRules.{Severity, error, Payload}
use stake_basket.Alerts.{AlertManager, add_custom_alert}
use stake_basket.Automation.{
  AutomationTask, AutomationEngine, Visit, Notice, task_failed, Outcome, failed, quiet, raised,
  execute_task, rescheduled, task_interval,
}

-- The parameters of a run: what each task meets, and how an alert's text and its data are printed.
module _ (visit : AutomationTask → Visit) (text details : Notice → String) where
  abbrev pub report : Severity → String → Notice → ℕ → AlertManager → AlertManager
  report severity title notice now alerts =
      (add_custom_alert severity "automation" title (text notice) (Payload.json (details notice))
        now alerts).0

  -- the body of the `try`, and its `catch`
  abbrev pub conclude : AutomationTask → Outcome → AlertManager → AutomationTask × AlertManager
  conclude t (failed message) alerts = (
    t,
    report error "Automation Task Failed" (task_failed t.name t.id message) (visit t).ended alerts,
  )
  conclude t quiet alerts = (rescheduled (visit t).now t, alerts)
  conclude t (raised severity title notice) alerts =
      (rescheduled (visit t).now t, report severity title notice (visit t).ended alerts)

  unfoldable pub run_task :
      AutomationEngine → AutomationTask → AlertManager → AutomationTask × AlertManager
  unfolding task_interval
  run_task e t alerts =
      if t.enabled && leb t.next_run (visit t).now
      then conclude t (execute_task e (visit t) t) alerts
      else (t, alerts)

  unfoldable pub run_list :
      AutomationEngine → List AutomationTask → AlertManager → List AutomationTask × AlertManager
  run_list e [] alerts = ([], alerts)
  run_list e (t ∷ ts) alerts =
      let ran = run_task e t alerts in let rest = run_list e ts ran.1 in (ran.0 ∷ rest.0, rest.1)

  -- `runAutomatedTasks`
  unfoldable pub run_automated_tasks : AutomationEngine → AutomationEngine
  run_automated_tasks e =
      let done = run_list e e.tasks e.alerts in record e { tasks = done.0; alerts = done.1 }

abbrev pub has_id : String → AutomationTask → Bool
has_id id t = str_eq t.id id

unfoldable pub toggle_task : String → Bool → AutomationEngine → AutomationEngine × Bool
toggle_task id enabled e = (
  record e { tasks = update_first (has_id id) (λ t. record t { enabled = enabled }) e.tasks },
  any (has_id id) e.tasks,
)

-- `{ ...old, ...new }`
unfoldable pub merged : Dict Ratio → Dict Ratio → Dict Ratio
unfolding insert
merged old [] = old
merged old (entry ∷ entries) = merged (insert entry.0 entry.1 old) entries

unfoldable pub update_task_parameters :
    String → Dict Ratio → AutomationEngine → AutomationEngine × Bool
unfolding merged
update_task_parameters id parameters e = (
  record e {
    tasks =
        update_first (has_id id) (λ t. record t { parameters = merged t.parameters parameters })
          e.tasks;
  },
  any (has_id id) e.tasks,
)
