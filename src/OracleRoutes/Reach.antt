-- ===== src/OracleRoutes/Reach.antt =====
-- Which updaters the routes reach.
use stake_basket.Prelude.{
  append_assoc, ℕ, ◌<◌, ◌≡◌, ◌≢◌, refl, sym, ap, ◌∙◌, String, false, Option, none, some, List, [],
  ◌∷◌, ◌++◌, Answer, answered, thrown, ltb, ◌==◌, arith, Bool-cases, inl, inr, if◌then◌else◌, ◌-◌,
}
use stake_basket.OracleUpdater.{
  OracleUpdater, first_update_done, first_update_failed, stop_updating,
}
use stake_basket.OracleRoutes.{
  OracleRoutes, begin_start, read_body, make_updater, contract_of, given, settle_start,
  stop_updater, stop_current, current_runs, update_at,
}

-- The requests that change state: a start, its body, the end of a first update, and a stop.
pub data Event : Type 0 where
  asked : Event
  body_read : Answer (Option String) → Option String → Answer Unit → Event
  updated : ℕ → Answer Unit → Event
  stopped : Event

unfoldable pub apply : Event → OracleRoutes → OracleRoutes
unfolding begin_start read_body settle_start stop_updater
apply asked s = (begin_start s).0
apply (body_read body environment built) s =
    if ltb 0 s.waiting then (read_body body environment built s).0 else s
apply (updated i answer) s = if ltb 0 (s.updater i).starting then (settle_start i answer s).0 else s
apply stopped s = (stop_updater s).0

unfoldable pub run : List Event → OracleRoutes → OracleRoutes
unfolding apply
run [] s = s
run (e ∷ es) s = run es (apply e s)

-- An updater that was made, is not the current one, and has these intervals besides others.
abbrev pub IsOrphan : ℕ → List ℕ → OracleRoutes → Type 0
IsOrphan i timers s =
    (i < s.created)
    × (s.current ≢ some i)
    × (more : List ℕ) × ((s.updater i).timers ≡ more ++ timers)

update_at-other :
    (i j : ℕ) (f : OracleUpdater → OracleUpdater) (timers : List ℕ) (s : OracleRoutes)
    → (i == j) ≡ false
    → IsOrphan i timers s
    → IsOrphan i timers (update_at j f s)
update_at-other i j f timers s other o = (o.0, o.1, o.2, rw other o.3)

make_updater-IsOrphan :
    (i : ℕ) (timers : List ℕ) (address : Option String) (built : Answer Unit) (s : OracleRoutes)
    → IsOrphan i timers s
    → IsOrphan i timers (make_updater address built s).0
unfolding make_updater
make_updater-IsOrphan i timers none built s o = o
make_updater-IsOrphan i timers (some address) (thrown e) s o = o
make_updater-IsOrphan i timers (some address) (answered done) s o =
    let older : (i == s.created) ≡ false = ground (arith, o.0) in
    (
      omega (arith, o.0),
      λ (e : some s.created ≡ some i). let same : s.created ≡ i = cc in omega (arith, o.0, same),
      o.2,
      rw older o.3,
    )

-- A method that clears no interval
update_at-IsOrphan :
    (i j : ℕ) (f : OracleUpdater → OracleUpdater) (timers : List ℕ) (s : OracleRoutes)
    → ((u : OracleUpdater) → (new : List ℕ) × ((f u).timers ≡ new ++ u.timers))
    → IsOrphan i timers s
    → IsOrphan i timers (update_at j f s)
update_at-IsOrphan i j f timers s keeps o = elim (Bool-cases (i == j)) [
  | inl same ↦
      let kept = keeps (s.updater i) in
      (
        o.0,
        o.1,
        kept.0 ++ o.2,
        rw same (kept.1 ∙ ap (λ ts. kept.0 ++ ts) o.3 ∙ sym (append_assoc kept.0 o.2 timers)),
      )
  | inr other ↦ update_at-other i j f timers s other o
]

settle_start-IsOrphan :
    (i j : ℕ) (timers : List ℕ) (answer : Answer Unit) (s : OracleRoutes)
    → IsOrphan i timers s
    → IsOrphan i timers (settle_start j answer s).0
unfolding settle_start first_update_done first_update_failed
settle_start-IsOrphan i j timers (answered done) s o =
    update_at-IsOrphan i j first_update_done timers s (λ u. (u.next_handle ∷ [], refl)) o
settle_start-IsOrphan i j timers (thrown e) s o =
    update_at-IsOrphan i j first_update_failed timers s (λ u. ([], refl)) o

stop_current-IsOrphan :
    (i : ℕ) (timers : List ℕ) (current : Option ℕ) (s : OracleRoutes)
    → current ≢ some i
    → IsOrphan i timers s
    → IsOrphan i timers (stop_current current s).0
unfolding stop_updating
stop_current-IsOrphan i timers none s differs o = o
stop_current-IsOrphan i timers (some j) s differs o = elim (Bool-cases (i == j)) [
  | inl same ↦ let at : j ≡ i = ground (arith, same) in absurd (differs (ap some at))
  | inr other ↦ update_at-other i j stop_updating timers s other o
]

apply-IsOrphan :
    (e : Event) (i : ℕ) (timers : List ℕ) (s : OracleRoutes)
    → IsOrphan i timers s
    → IsOrphan i timers (apply e s)
unfolding apply begin_start read_body stop_updater
apply-IsOrphan asked i timers s o = elim (Bool-cases (current_runs s.current s)) [
  | inl runs ↦ rw (apply, begin_start, runs) o
  | inr free ↦ rw (apply, begin_start, free) o
]
apply-IsOrphan (body_read (answered body) environment built) i timers s o =
    elim (Bool-cases (ltb 0 s.waiting)) [
      | inl waits ↦ rw waits (
          make_updater-IsOrphan i timers (contract_of (given body) environment) built
            (record s { waiting = s.waiting - 1 }) o)
      | inr idle ↦ rw idle o
    ]
apply-IsOrphan (body_read (thrown e) environment built) i timers s o =
    elim (Bool-cases (ltb 0 s.waiting)) [ inl waits ↦ rw waits o | inr idle ↦ rw idle o ]
apply-IsOrphan (updated j answer) i timers s o = elim (Bool-cases (ltb 0 (s.updater j).starting)) [
  | inl waits ↦ rw waits (settle_start-IsOrphan i j timers answer s o)
  | inr idle ↦ rw idle o
]
apply-IsOrphan stopped i timers s o = stop_current-IsOrphan i timers s.current s o.1 o

-- The intervals of an updater that was made and is not the current one are never cleared: whatever
-- starts, bodies, ends of first updates and stops follow, it keeps them, and is not the current one again.
pub run-IsOrphan :
    (es : List Event) (i : ℕ) (timers : List ℕ) (s : OracleRoutes)
    → IsOrphan i timers s
    → IsOrphan i timers (run es s)
unfolding run
run-IsOrphan [] i timers s o = o
run-IsOrphan (e ∷ es) i timers s o =
    run-IsOrphan es i timers (apply e s) (apply-IsOrphan e i timers s o)
