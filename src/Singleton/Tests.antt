-- ===== src/Singleton/Tests.antt =====
-- Two components that share data, and a third that comes after the first has gone.
use stake_basket.Prelude.{ℕ, true, false, some, List, [], ◌∷◌, ◌≡◌, refl}
use stake_basket.Singleton.{
  unmount_instance, mount_with, SharedData, Event, mount, unmount, compute, empty, apply_event,
  run_events, should_fetch, shown_data,
}
use stake_basket.Singleton.Sharing.{
  IsReachable, start, next, compute_reaches_all, orphaned_shows_fallback,
}

abbrev one : SharedData ℕ
one = apply_event (mount 7) empty

abbrev two : SharedData ℕ
two = apply_event (mount 8) one

two-IsReachable : IsReachable two
two-IsReachable = next one (mount 8) (next empty (mount 7) start)

compute_reaches_all_example : (apply_event (compute 42) two).data_of 8 ≡ some 42
unfolding apply_event empty mount_with
compute_reaches_all_example = compute_reaches_all two 7 42 two-IsReachable refl refl 8 refl

abbrev gone : SharedData ℕ
gone = apply_event (unmount 7) one

abbrev after : List (Event ℕ)
after = mount 9 ∷ compute 42 ∷ mount 10 ∷ []

orphaned_shows_fallback_example :
    (shown_data 0 9 (run_events after gone) ≡ 0)
    × (should_fetch 9 true true (run_events after gone) ≡ false)
unfolding apply_event empty mount_with unmount_instance
orphaned_shows_fallback_example =
    orphaned_shows_fallback 0 7 9 after gone (refl, refl) refl refl refl
