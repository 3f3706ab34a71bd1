-- ===== src/Rebalancer/Scheduling.antt =====
-- The scheduler: events, the invariant between them, and what single events do.
use stake_basket.Prelude.{
  ℕ, ◌+◌, ◌*◌, ◌≡◌, refl, Bool, true, false, Option, none, some, String, List, [], ◌∷◌, Ratio, ltb,
  if◌then◌else◌, arith,
}
use stake_basket.Rebalancer.{
  AutomatedRebalancer, new, begin_check, finish_check, trigger_manual, start, stop, update_interval,
  update_thresholds, set_enabled, destroy, record_result,
}
use stake_basket.Rebalancing.{Checked}

-- What can happen to a rebalancer. A tick comes from a running timer, and the end of a check from a
-- check that waits; the runtime sends neither at another time.
pub data Event : Type 0 where
  started : ℕ → Event
  stopped : Event
  tick : ℕ → Event
  finished : Checked → Ratio → String → ℕ → Event
  triggered : Checked → Ratio → String → ℕ → Event
  interval_updated : ℕ → ℕ → Event
  thresholds_updated : (apy_drop risk_increase min_improvement : Option Ratio) → Event
  enabled_set : Bool → Event
  destroyed : Event

abbrev has_timer : AutomatedRebalancer → Bool
has_timer s = elim s.timers [ [] ↦ false | h ∷ hs ↦ true ]

unfoldable pub apply : Event → AutomatedRebalancer → AutomatedRebalancer
apply (started now) s = start now s
apply stopped s = stop s
apply (tick now) s = if has_timer s then begin_check now s else s
apply (finished checked random hash now) s =
    if ltb 0 s.pending then finish_check checked random hash now s else s
apply (triggered checked random hash now) s = trigger_manual checked random hash now s
apply (interval_updated interval_minutes now) s = update_interval interval_minutes now s
apply (thresholds_updated a r i) s = update_thresholds a r i s
apply (enabled_set enabled) s = set_enabled enabled s
apply destroyed s = destroy s

unfoldable pub run_from : AutomatedRebalancer → List Event → AutomatedRebalancer
run_from s [] = s
run_from s (e ∷ es) = run_from (apply e s) es

-- the timers that an interval handle accounts for
abbrev pub owned : Option ℕ → List ℕ
owned none = []
owned (some handle) = handle ∷ []

abbrev pub is_present : Option ℕ → Bool
is_present none = false
is_present (some n) = true

-- The timer that runs is the one that the rebalancer holds, and the job says so.
pub record IsConsistent (s : AutomatedRebalancer) : Type 0 where
  pub timer_owned : s.timers ≡ owned s.interval_id
  pub scheduled_shown : s.job.scheduled ≡ is_present s.interval_id
  pub next_shown : is_present s.job.next_run ≡ is_present s.interval_id

start-IsConsistent :
    (now : ℕ) (s : AutomatedRebalancer) → IsConsistent s → IsConsistent (start now s)
unfolding start
start-IsConsistent now s h = ground arith

stop-IsConsistent : (s : AutomatedRebalancer) → IsConsistent s → IsConsistent (stop s)
unfolding stop
stop-IsConsistent s h = ground arith

update_interval-IsConsistent :
    (minutes now : ℕ) (s : AutomatedRebalancer)
    → IsConsistent s
    → IsConsistent (update_interval minutes now s)
unfolding update_interval
update_interval-IsConsistent minutes now s h = ground arith

apply-IsConsistent :
    (e : Event) (s : AutomatedRebalancer) → IsConsistent s → IsConsistent (apply e s)
unfolding apply begin_check finish_check trigger_manual update_thresholds set_enabled destroy
    record_result
apply-IsConsistent (started now) s h = start-IsConsistent now s h
apply-IsConsistent stopped s h = stop-IsConsistent s h
apply-IsConsistent (tick now) s h = ground arith
apply-IsConsistent (finished checked random hash now) s h = ground arith
apply-IsConsistent (triggered checked random hash now) s h = ground arith
apply-IsConsistent (interval_updated minutes now) s h = update_interval-IsConsistent minutes now s h
apply-IsConsistent (thresholds_updated a r i) s h = ground arith
apply-IsConsistent (enabled_set enabled) s h = ground arith
apply-IsConsistent destroyed s h = ground (arith, stop-IsConsistent s h)

run_from-IsConsistent :
    (s : AutomatedRebalancer) (es : List Event) → IsConsistent s → IsConsistent (run_from s es)
unfolding run_from
run_from-IsConsistent s [] h = h
run_from-IsConsistent s (e ∷ es) h = run_from-IsConsistent (apply e s) es (apply-IsConsistent e s h)

-- After any events at all, a new rebalancer runs at most one timer, the one whose handle it holds;
-- the job counts as scheduled, and shows a next run, exactly while that timer runs.
pub run-IsConsistent :
    (interval_minutes : ℕ) (es : List Event) → IsConsistent (run_from (new interval_minutes) es)
unfolding new
run-IsConsistent interval_minutes es =
    run_from-IsConsistent (new interval_minutes) es
      (record { timer_owned = refl; scheduled_shown = refl; next_shown = refl })

-- Changing the interval of a running rebalancer leaves exactly one timer running, with a new handle,
-- and plans the next run at the new interval; of a stopped one it changes the interval alone.
update_interval_restarts :
    (interval_minutes now : ℕ) (s : AutomatedRebalancer)
    → IsConsistent s
    → let t = update_interval interval_minutes now s in
      (t.job.interval ≡ interval_minutes * 60 * 1000)
      × (s.interval_id ≡ none → t.timers ≡ [])
      × (is_present s.interval_id ≡ true
          → (t.timers ≡ s.next_handle ∷ [])
            × (t.job.next_run ≡ some (now + interval_minutes * 60 * 1000)))
unfolding update_interval
update_interval_restarts interval_minutes now s h = ground arith
