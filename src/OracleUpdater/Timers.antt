-- ===== src/OracleUpdater/Timers.antt =====
-- Which intervals a stop clears.
use stake_basket.Prelude.{
  ℕ, ◌<◌, ◌≡◌, refl, true, false, not, Option, none, some, List, [], ◌∷◌, All, All-map, All-filter,
  filter, ◌==◌, if◌then◌else◌, arith, Bool-cases, inl, inr, ltb,
}
use stake_basket.OracleUpdater.{
  OracleUpdater, new, begin_updating, first_update_failed, first_update_done, stop_updating,
  clear_timer, is_running,
}

-- The calls, and how the first update of a start ends.
pub data Event : Type 0 where
  begun failed done stopped : Event

unfoldable pub apply : Event → OracleUpdater → OracleUpdater
unfolding begin_updating first_update_failed first_update_done stop_updating
apply begun s = begin_updating s
apply failed s = if ltb 0 s.starting then first_update_failed s else s
apply done s = if ltb 0 s.starting then first_update_done s else s
apply stopped s = stop_updating s

unfoldable pub run_from : OracleUpdater → List Event → OracleUpdater
run_from s [] = s
run_from s (e ∷ es) = run_from (apply e s) es

-- Every handle was given out before.
abbrev IsFresh : OracleUpdater → Type 0
IsFresh s = All (λ h. h < s.next_handle) s.timers

clear_timer-IsFresh :
    (o : Option ℕ) (next : ℕ) (timers : List ℕ)
    → All (λ h. h < next) timers
    → All (λ h. h < next) (clear_timer o timers)
clear_timer-IsFresh none next timers f = f
clear_timer-IsFresh (some handle) next timers f =
    All-filter (λ h. h < next) (λ h. not (h == handle)) timers f

first_update_done-IsFresh : (s : OracleUpdater) → IsFresh s → IsFresh (first_update_done s)
unfolding first_update_done
first_update_done-IsFresh s f =
    (omega arith, All-map (λ h (lt : h < s.next_handle). omega arith) s.timers f)

apply-IsFresh : (e : Event) (s : OracleUpdater) → IsFresh s → IsFresh (apply e s)
unfolding apply begin_updating first_update_failed stop_updating
apply-IsFresh begun s f = f
apply-IsFresh failed s f = elim (Bool-cases (ltb 0 s.starting)) [
  | inl waits ↦ rw waits f
  | inr idle ↦ rw idle f
]
apply-IsFresh done s f = elim (Bool-cases (ltb 0 s.starting)) [
  | inl waits ↦ rw waits (first_update_done-IsFresh s f)
  | inr idle ↦ rw idle f
]
apply-IsFresh stopped s f = clear_timer-IsFresh s.update_timer s.next_handle s.timers f

run_from-IsFresh : (es : List Event) (s : OracleUpdater) → IsFresh s → IsFresh (run_from s es)
unfolding run_from
run_from-IsFresh [] s f = f
run_from-IsFresh (e ∷ es) s f = run_from-IsFresh es (apply e s) (apply-IsFresh e s f)

filter-fresh :
    (next : ℕ) (timers : List ℕ)
    → All (λ h. h < next) timers
    → filter (λ h. not (h == next)) timers ≡ timers
filter-fresh next [] f = refl
filter-fresh next (h ∷ timers) (lt, f) =
    let old : (h == next) ≡ false = ground (arith, lt) in rw (old, filter-fresh next timers f) refl

new-IsFresh : IsFresh new
unfolding new
new-IsFresh = tt

-- Stopping after a start clears the interval of that start and no other: those of earlier starts that
-- were not stopped keep updating, although the status says that nothing runs.
pub stop_keeps_earlier_timers :
    (es : List Event)
    → ((stop_updating (first_update_done (begin_updating (run_from new es)))).timers
        ≡ (run_from new es).timers)
      × (is_running (stop_updating (first_update_done (begin_updating (run_from new es)))) ≡ false)
unfolding stop_updating first_update_done begin_updating
stop_keeps_earlier_timers es =
    let s = run_from new es in
    let self : (s.next_handle == s.next_handle) ≡ true = ground arith in
    let fresh = run_from-IsFresh es new new-IsFresh in
    (rw (self, filter-fresh s.next_handle s.timers fresh) refl, refl)
