-- ===== src/Governance/Service.antt =====
-- The class GovernanceAutomationService: its job and the guard of its cycles. A cycle is split where it
-- waits, into its beginning and its end; `cycles` counts those that have begun and not ended.
use stake_basket.Prelude.{
  ℕ, ◌+◌, ◌-◌, ◌≤◌, ◌≡◌, Bool, true, false, not, Option, none, some, String, List, [], ◌∷◌, str_eq,
  ltb, arith, if◌then◌else◌,
}

pub record GovernanceAutomation : Type 0 where
  pub enabled : Bool
  pub cron_schedule : String
  pub cron_job : Option String
  pub is_running : Bool
  pub cycles : ℕ

unfoldable pub new : Bool → String → GovernanceAutomation
new enabled schedule = record {
  enabled = enabled;
  cron_schedule = schedule;
  cron_job = none;
  is_running = false;
  cycles = 0;
}

abbrev has_job : Option String → Bool
has_job none = false
has_job (some schedule) = true

unfoldable pub start : GovernanceAutomation → GovernanceAutomation
start s =
    if not s.enabled
    then s
    else if has_job s.cron_job
    then s
    else record s { cron_job = some s.cron_schedule }

unfoldable pub stop : GovernanceAutomation → GovernanceAutomation
stop s = if has_job s.cron_job then record s { cron_job = none } else s

-- The beginning of a cycle, which the job and `triggerManualCycle` share.
unfoldable pub begin_cycle : GovernanceAutomation → GovernanceAutomation
begin_cycle s = if s.is_running then s else record s { is_running = true; cycles = s.cycles + 1 }

-- `finally`
unfoldable pub end_cycle : GovernanceAutomation → GovernanceAutomation
end_cycle s = record s { is_running = false; cycles = s.cycles - 1 }

abbrev given {ℓ} : {A : Type ℓ} → Option A → A → A
given none old = old
given (some x) old = x

-- `newConfig.cronSchedule` as a condition: present and not empty
abbrev is_schedule : Option String → Bool
is_schedule none = false
is_schedule (some s) = not (str_eq s "")

unfoldable pub update_config :
    Option Bool → Option String → GovernanceAutomation → GovernanceAutomation
unfolding stop start
update_config enabled schedule s =
    let changed = record s {
      enabled = given enabled s.enabled;
      cron_schedule = given schedule s.cron_schedule;
    } in
    if is_schedule schedule
    then (if has_job changed.cron_job then start (stop changed) else changed)
    else changed

unfoldable pub emergency_stop : GovernanceAutomation → GovernanceAutomation
unfolding stop
emergency_stop s = record (stop s) { is_running = false }

-- The calls and the events of the service. The job calls a cycle only while it is there.
pub data Event : Type 0 where
  started stopped job_called triggered ended emergency : Event
  configured : Option Bool → Option String → Event

unfoldable pub apply : Event → GovernanceAutomation → GovernanceAutomation
apply started s = start s
apply stopped s = stop s
apply job_called s = if has_job s.cron_job then begin_cycle s else s
apply triggered s = begin_cycle s
apply ended s = if ltb 0 s.cycles then end_cycle s else s
apply emergency s = emergency_stop s
apply (configured enabled schedule) s = update_config enabled schedule s

unfoldable pub run_from : GovernanceAutomation → List Event → GovernanceAutomation
run_from s [] = s
run_from s (e ∷ es) = run_from (apply e s) es

abbrev pub emergencies : List Event → ℕ
emergencies [] = 0
emergencies (emergency ∷ es) = 1 + emergencies es
emergencies (_ ∷ es) = emergencies es

-- A cycle that runs holds the guard, but for one cycle for each emergency stop.
abbrev IsGuarded : ℕ → GovernanceAutomation → Type 0
IsGuarded stops s = s.cycles ≤ stops + (if s.is_running then 1 else 0)

apply-IsGuarded :
    (stops : ℕ) (e : Event) (s : GovernanceAutomation)
    → IsGuarded stops s
    → IsGuarded (emergencies (e ∷ []) + stops) (apply e s)
unfolding apply start stop begin_cycle end_cycle update_config emergency_stop
apply-IsGuarded stops started s g = ground arith
apply-IsGuarded stops stopped s g = ground arith
apply-IsGuarded stops job_called s g = ground arith
apply-IsGuarded stops triggered s g = ground arith
apply-IsGuarded stops ended s g = ground arith
apply-IsGuarded stops emergency s g = ground arith
apply-IsGuarded stops (configured enabled schedule) s g = ground arith

emergencies-cons :
    (e : Event) (es : List Event) → emergencies (e ∷ es) ≡ emergencies (e ∷ []) + emergencies es
emergencies-cons started es = omega arith
emergencies-cons stopped es = omega arith
emergencies-cons job_called es = omega arith
emergencies-cons triggered es = omega arith
emergencies-cons ended es = omega arith
emergencies-cons emergency es = omega arith
emergencies-cons (configured enabled schedule) es = omega arith

run_from-IsGuarded :
    (es : List Event) (stops : ℕ) (s : GovernanceAutomation)
    → IsGuarded stops s
    → IsGuarded (emergencies es + stops) (run_from s es)
unfolding run_from
run_from-IsGuarded [] stops s g = omega (arith, g)
run_from-IsGuarded (e ∷ es) stops s g = omega (
  arith,
  emergencies-cons e es,
  run_from-IsGuarded es (emergencies (e ∷ []) + stops) (apply e s) (apply-IsGuarded stops e s g),
)

-- In any run of a new service, whoever starts cycles, at most one cycle runs more than there were
-- emergency stops; so without an emergency stop no two cycles overlap.
pub governance_cycles_bounded :
    (enabled : Bool) (schedule : String) (es : List Event)
    → (run_from (new enabled schedule) es).cycles ≤ emergencies es + 1
unfolding new
governance_cycles_bounded enabled schedule es =
    ground (arith, run_from-IsGuarded es 0 (new enabled schedule) (omega arith))
