-- ===== src/OracleRoutes/Tests.antt =====
-- Two starts whose first updates overlap.
use stake_basket.Prelude.{◌≡◌, refl, none, some, List, [], ◌∷◌, answered, false, arith}
use stake_basket.OracleUpdater.{is_running, new, begin_updating, first_update_done, stop_updating}
use stake_basket.OracleRoutes.{
  initial, begin_start, read_body, make_updater, settle_start, stop_updater,
}
use stake_basket.OracleRoutes.Reach.{
  Event, asked, body_read, updated, stopped, run, apply, IsOrphan, run-IsOrphan,
}

abbrev body : Event
body = body_read (answered (some "0xa")) none (answered tt)

abbrev overlapping_starts : List Event
overlapping_starts =
    asked ∷ asked ∷ body ∷ body ∷ updated 0 (answered tt) ∷ updated 1 (answered tt) ∷ []

-- After a stop the first updater still has its interval.
run-IsOrphan_example : IsOrphan 0 (1 ∷ []) (run (stopped ∷ []) (run overlapping_starts initial))
unfolding run apply initial begin_start read_body make_updater settle_start new begin_updating
    first_update_done
run-IsOrphan_example =
    run-IsOrphan (stopped ∷ []) 0 (1 ∷ []) (run overlapping_starts initial)
      (omega arith, λ (e : some 1 ≡ some 0). cc, [], refl)

-- The updater of the variable does not run then.
reported_as_stopped :
    is_running ((run (stopped ∷ []) (run overlapping_starts initial)).updater 1) ≡ false
unfolding run apply initial begin_start read_body make_updater settle_start new begin_updating
    first_update_done stop_updater stop_updating
reported_as_stopped = refl
