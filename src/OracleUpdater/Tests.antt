-- ===== src/OracleUpdater/Tests.antt =====
-- Starts and stops of the updater.
use stake_basket.Prelude.{◌≡◌, refl, false, some, none, List, [], ◌∷◌, ◌over◌}
use stake_basket.OracleUpdater.{
  new, begin_updating, first_update_done, first_update_failed, stop_updating, is_running,
  price_batch,
}
use stake_basket.OracleUpdater.Timers.{
  Event, begun, done, failed, apply, run_from, stop_keeps_earlier_timers,
}

-- Two starts, the second of which waits while the first one runs, and one that fails.
abbrev started_twice : List Event
started_twice = begun ∷ done ∷ begun ∷ failed ∷ []

stop_keeps_earlier_timers_example :
    ((stop_updating (first_update_done (begin_updating (run_from new started_twice)))).timers
      ≡ (run_from new started_twice).timers)
    × (is_running (stop_updating (first_update_done (begin_updating (run_from new started_twice))))
        ≡ false)
stop_keeps_earlier_timers_example = stop_keeps_earlier_timers started_twice

first_start_runs_on : (run_from new started_twice).timers ≡ 1 ∷ []
unfolding run_from apply new begin_updating first_update_done first_update_failed
first_start_runs_on = refl

prices :
    price_batch (record { coreusd = 45 over 100; corebtc = 75 over 10000000 })
    ≡ some (
        ("CORE", 45000000)
        ∷ ("BTC", 6000000000000)
        ∷ ("lstBTC", 6000000000000)
        ∷ ("coreBTC", 6000000000000)
        ∷ [])
unfolding price_batch
prices = refl

no_ratio : price_batch (record { coreusd = 45 over 100; corebtc = 0 over 1 }) ≡ none
unfolding price_batch
no_ratio = refl
