-- ===== src/Rebalancer.antt =====
-- The class AutomatedRebalancer of backend/src/services/AutomatedRebalancer.ts. A check runs up to
-- its first `await` in `begin_check` and ends in `finish_check`, so checks may overlap; the timers of
-- the runtime are part of the state. `undefined`, and a sum with it, is the ratio 0 / 0, as NaN is.
pub mod History
pub mod Scheduling
mod Tests
use stake_basket.Prelude.{
  ℕ, zero, suc, ◌+◌, ◌-◌, ◌*◌, Bool, true, false, not, Option, none, some, String, List, [], ◌∷◌,
  map, Ratio, ◌over◌, less, minus, times, larger, add, quotient, sum_of, if◌then◌else◌, push_capped,
  filter, length, take, last, count, ltb, ◌==◌,
}
use mathlib.Core.List.{reverse}
use stake_basket.Monitoring.{ValidatorMetrics}
use stake_basket.Rebalancing.{manual_result, check_result, RebalancingResult, Checked, Thresholds}

pub record RebalancingJob : Type 0 where
  pub id : String
  pub scheduled : Bool
  pub interval : ℕ
  pub last_run : Option ℕ
  pub next_run : Option ℕ
  pub enabled : Bool
  pub thresholds : Thresholds

-- `timers` are the handles of the intervals that run, `next_handle` the next one that the runtime
-- gives out, and `pending` the checks that wait for the monitor.
pub record AutomatedRebalancer : Type 0 where
  pub job : RebalancingJob
  pub interval_id : Option ℕ
  pub history : List RebalancingResult
  pub timers : List ℕ
  pub next_handle : ℕ
  pub pending : ℕ

-- the constructor
unfoldable pub new : ℕ → AutomatedRebalancer
new interval_minutes = record {
  job = record {
    id = "core-staking-rebalancer";
    scheduled = false;
    interval = interval_minutes * 60 * 1000;
    last_run = none;
    next_run = none;
    enabled = true;
    thresholds = record {
      apy_drop = 5 over 10;
      risk_increase = 60 over 1;
      min_improvement = 2 over 10;
    };
  };
  interval_id = none;
  history = [];
  timers = [];
  next_handle = 1;
  pending = 0;
}

-- `recordRebalancingResult`
unfoldable pub record_result : RebalancingResult → AutomatedRebalancer → AutomatedRebalancer
record_result r s = record s { history = push_capped 100 s.history r }

-- `executeRebalancingCheck` up to the first `await`
unfoldable pub begin_check : ℕ → AutomatedRebalancer → AutomatedRebalancer
begin_check now s = if not s.job.enabled then s else record s {
  job = record s.job { last_run = some now; next_run = some (now + s.job.interval) };
  pending = s.pending + 1;
}

-- and from there on; the thresholds are read after the wait
unfoldable pub finish_check :
    Checked → Ratio → String → ℕ → AutomatedRebalancer → AutomatedRebalancer
finish_check checked random hash now s =
    record_result (check_result s.job.thresholds checked random hash now)
      (record s { pending = s.pending - 1 })

unfoldable pub trigger_manual :
    Checked → Ratio → String → ℕ → AutomatedRebalancer → AutomatedRebalancer
trigger_manual checked random hash now s = record_result (manual_result checked random hash now) s

abbrev is_some {ℓ} : {A : Type ℓ} → Option A → Bool
is_some none = false
is_some (some x) = true

unfoldable pub start : ℕ → AutomatedRebalancer → AutomatedRebalancer
unfolding begin_check
start now s =
    if is_some s.interval_id
    then s
    else let armed = record s {
      job = record s.job { scheduled = true; next_run = some (now + s.job.interval) };
    } in
      let begun = begin_check now armed in
      record begun {
        interval_id = some begun.next_handle;
        timers = begun.next_handle ∷ begun.timers;
        next_handle = begun.next_handle + 1;
      }

-- `clearInterval`
abbrev pub clear_interval : ℕ → List ℕ → List ℕ
clear_interval handle = filter (λ h. not (h == handle))

unfoldable pub stop : AutomatedRebalancer → AutomatedRebalancer
stop s = elim s.interval_id [
  | none ↦ s
  | some handle ↦ record s {
    interval_id = none;
    timers = clear_interval handle s.timers;
    job = record s.job { scheduled = false; next_run = none };
  }
]

unfoldable pub update_interval : ℕ → ℕ → AutomatedRebalancer → AutomatedRebalancer
unfolding stop start
update_interval interval_minutes now s =
    let changed = record s { job = record s.job { interval = interval_minutes * 60 * 1000 } } in
    if is_some changed.interval_id then start now (stop changed) else changed

-- `Partial<...>`: an absent threshold stays
abbrev given {ℓ} : {A : Type ℓ} → Option A → A → A
given none old = old
given (some x) old = x

unfoldable pub update_thresholds :
    Option Ratio → Option Ratio → Option Ratio → AutomatedRebalancer → AutomatedRebalancer
update_thresholds apy_drop risk_increase min_improvement s = record s {
  job = record s.job {
    thresholds = record {
      apy_drop = given apy_drop s.job.thresholds.apy_drop;
      risk_increase = given risk_increase s.job.thresholds.risk_increase;
      min_improvement = given min_improvement s.job.thresholds.min_improvement;
    };
  };
}

unfoldable pub set_enabled : Bool → AutomatedRebalancer → AutomatedRebalancer
set_enabled enabled s = record s { job = record s.job { enabled = enabled } }

unfoldable pub destroy : AutomatedRebalancer → AutomatedRebalancer
unfolding stop
destroy s = record (stop s) { history = [] }

-- `getHistory`; no limit, or a limit of 0, keeps all.
unfoldable pub get_history : Option ℕ → AutomatedRebalancer → List RebalancingResult
get_history none s = reverse s.history
get_history (some limit) s =
    if ltb 0 limit then take limit (reverse s.history) else reverse s.history

pub record Statistics : Type 0 where
  pub total_runs : ℕ
  pub successful_rebalances : ℕ
  pub failed_rebalances : ℕ
  pub average_improvement : Ratio
  pub total_improvement : Ratio
  pub last_success : Option ℕ
  pub last_failure : Option ℕ

abbrev last_time : List RebalancingResult → Option ℕ
last_time xs = elim (last xs) [ none ↦ none | some r ↦ some r.timestamp ]

unfoldable pub get_statistics : AutomatedRebalancer → Statistics
get_statistics s =
    let successful = filter (λ r. r.executed) s.history in
    let failed = filter (λ r. not r.executed) s.history in
    let total_improvement = sum_of (map (λ r. r.improvement) successful) in
    record {
      total_runs = length s.history;
      successful_rebalances = length successful;
      failed_rebalances = length failed;
      average_improvement =
          if ltb 0 (length successful)
          then quotient total_improvement (length successful over 1)
          else 0 over 1;
      total_improvement = total_improvement;
      last_success = last_time successful;
      last_failure = last_time failed;
    }
