-- ===== src/Singleton/Sharing.antt =====
-- Who gets the shared data.
use stake_basket.Prelude.{
  all, ℕ, Bool, true, false, not, Option, none, some, List, [], ◌∷◌, ◌==◌, ◌||◌, ◌&&◌,
  if◌then◌else◌, ◌≡◌, refl, arith, Bool-cases, inl, inr,
}
use stake_basket.Singleton.{
  SharedData, Event, mount, unmount, compute, contains, without, empty, is_main, mount_with,
  unmount_instance, broadcast, apply_event, run_events, should_fetch, shown_data,
}

contains-without :
    (i j : ℕ) (xs : List ℕ) → contains i (without j xs) ≡ (not (j == i) && contains i xs)
contains-without i j [] = ground arith
contains-without i j (x ∷ xs) = ground (arith, contains-without i j xs)

-- The subscribers after another instance has mounted.
abbrev pub joined : ℕ → ℕ → List ℕ → List ℕ
joined main i subscribers = if main == i then subscribers else i ∷ subscribers

own_mount :
    (main i j : ℕ) (subscribers : List ℕ)
    → (i == j) ≡ true
    → ((main == j) || contains j (joined main i subscribers)) ≡ true
own_mount main i j subscribers same = ground arith

kept_mount :
    (main i j : ℕ) (subscribers : List ℕ)
    → ((main == j) || contains j subscribers) ≡ true
    → ((main == j) || contains j (joined main i subscribers)) ≡ true
kept_mount main i j subscribers h = ground arith

module _ {D : Type 0} where
  -- The states that the program can be in.
  pub data IsReachable : SharedData D → Type 0 where
    start : IsReachable empty
    next : (s : SharedData D) (e : Event D) → IsReachable s → IsReachable (apply_event e s)

  -- Every mounted instance is the main one or subscribes.
  abbrev pub IsServed : SharedData D → Type 0
  IsServed s =
      (i : ℕ)
      → contains i s.mounted ≡ true
      → (is_main i s.global_instance || contains i s.subscribers) ≡ true

  mount-IsServed :
      (i : ℕ) (main : Option ℕ) (s : SharedData D)
      → s.global_instance ≡ main
      → IsServed s
      → IsServed (mount_with i main s)
  unfolding mount_with
  mount-IsServed i none s h inv j there = elim (Bool-cases (i == j)) [
    | inl same ↦ rw same refl
    | inr other ↦ rw other (rw h at inv j (rw other at there))
  ]
  mount-IsServed i (some main) s h inv j there = elim (Bool-cases (i == j)) [
    | inl same ↦ rw h (own_mount main i j s.subscribers same)
    | inr other ↦ rw h (kept_mount main i j s.subscribers (rw h at inv j (rw other at there)))
  ]

  unmount-IsServed : (i : ℕ) (s : SharedData D) → IsServed s → IsServed (unmount_instance i s)
  unfolding unmount_instance
  unmount-IsServed i s inv j there =
      let here : contains j s.mounted ≡ true =
        ground (there, contains-without j i s.mounted, arith) in
      ground (
        inv j here,
        there,
        contains-without j i s.mounted,
        contains-without j i s.subscribers,
        arith,
      )

  broadcast-IsServed :
      (d : D) (main : Option ℕ) (s : SharedData D) → IsServed s → IsServed (broadcast d main s)
  unfolding broadcast
  broadcast-IsServed d none s inv = inv
  broadcast-IsServed d (some main) s inv = elim (Bool-cases (contains main s.mounted)) [
    | inl h ↦ rw h inv
    | inr h ↦ rw h inv
  ]

  apply_event-IsServed : (e : Event D) (s : SharedData D) → IsServed s → IsServed (apply_event e s)
  unfolding apply_event
  apply_event-IsServed (mount i) s inv = mount-IsServed i s.global_instance s refl inv
  apply_event-IsServed (unmount i) s inv = unmount-IsServed i s inv
  apply_event-IsServed (compute d) s inv = broadcast-IsServed d s.global_instance s inv

  reachable-IsServed : (s : SharedData D) → IsReachable s → IsServed s
  unfolding empty
  reachable-IsServed s start = λ i there. ground arith
  reachable-IsServed s (next t e r) = apply_event-IsServed e t (reachable-IsServed t r)

  broadcast_with :
      (d : D) (o : Option ℕ) (main i : ℕ) (s : SharedData D)
      → o ≡ some main
      → contains main s.mounted ≡ true
      → (is_main i o || contains i s.subscribers) ≡ true
      → (broadcast d o s).data_of i ≡ some d
  unfolding broadcast
  broadcast_with d o main i s h there served = rw (h, there, rw h at served) refl

  -- Whatever has mounted and gone before, as long as the main instance is mounted, new data reaches
  -- every mounted instance.
  pub compute_reaches_all :
      (s : SharedData D) (main : ℕ) (d : D)
      → IsReachable s
      → s.global_instance ≡ some main
      → contains main s.mounted ≡ true
      → (i : ℕ) → contains i s.mounted ≡ true
      → (apply_event (compute d) s).data_of i ≡ some d
  unfolding apply_event
  compute_reaches_all s main d r h there i here =
      broadcast_with d s.global_instance main i s h there (reachable-IsServed s r i here)

  -- The instances that an event mounts.
  abbrev pub mounts : ℕ → Event D → Bool
  mounts i (mount j) = j == i
  mounts i (unmount j) = false
  mounts i (compute d) = false

  -- The main instance is gone, and the variable still names it.
  abbrev pub IsOrphaned : ℕ → SharedData D → Type 0
  IsOrphaned main s = (s.global_instance ≡ some main) × (contains main s.mounted ≡ false)

  mount-IsOrphaned :
      (main i : ℕ) (o : Option ℕ) (s : SharedData D)
      → o ≡ some main
      → (i == main) ≡ false
      → IsOrphaned main s
      → IsOrphaned main (mount_with i o s)
  unfolding mount_with
  mount-IsOrphaned main i none s e apart h = cc
  mount-IsOrphaned main i (some m) s e apart h = (h.0, rw (apart, h.1) refl)

  broadcast-gone :
      (d : D) (main : ℕ) (o : Option ℕ) (s : SharedData D)
      → o ≡ some main
      → IsOrphaned main s
      → broadcast d o s ≡ s
  unfolding broadcast
  broadcast-gone d main o s e h = rw (e, h.1) refl

  apply_event-IsOrphaned :
      (main : ℕ) (e : Event D) (s : SharedData D)
      → mounts main e ≡ false
      → IsOrphaned main s
      → IsOrphaned main (apply_event e s)
  unfolding apply_event unmount_instance
  apply_event-IsOrphaned main (mount i) s apart h =
      mount-IsOrphaned main i s.global_instance s h.0 apart h
  apply_event-IsOrphaned main (unmount i) s apart h =
      (h.0, ground (contains-without main i s.mounted, h.1, arith))
  apply_event-IsOrphaned main (compute d) s apart h =
      rw (broadcast-gone d main s.global_instance s h.0 h) h

  no_data : (b : Bool) (o : Option D) → o ≡ none → (if b then none else o) ≡ none
  no_data true o h = refl
  no_data false o h = h

  shown_data-none :
      (fallback : D) (j : ℕ) (s : SharedData D)
      → s.data_of j ≡ none
      → shown_data fallback j s ≡ fallback
  unfolding shown_data
  shown_data-none fallback j s nothing = rw (shown_data, nothing) refl

  mount-data :
      (i j : ℕ) (o : Option ℕ) (s : SharedData D)
      → s.data_of j ≡ none
      → (mount_with i o s).data_of j ≡ none
  unfolding mount_with
  mount-data i j none s nothing = no_data (j == i) (s.data_of j) nothing
  mount-data i j (some m) s nothing = no_data (j == i) (s.data_of j) nothing

  -- Whoever has no data gets none.
  apply_event-data :
      (main j : ℕ) (e : Event D) (s : SharedData D)
      → IsOrphaned main s
      → s.data_of j ≡ none
      → (apply_event e s).data_of j ≡ none
  unfolding apply_event unmount_instance
  apply_event-data main j (mount i) s h nothing = mount-data i j s.global_instance s nothing
  apply_event-data main j (unmount i) s h nothing = nothing
  apply_event-data main j (compute d) s h nothing =
      rw (broadcast-gone d main s.global_instance s h.0 h) nothing

  -- Once the main instance is gone, nothing that happens, other than that it mounted itself again, gives
  -- data to an instance that has none: all that mount later show the fallback for ever, and none of
  -- them fetches.
  pub orphaned_shows_fallback :
      (fallback : D) (main j : ℕ) (events : List (Event D)) (s : SharedData D)
      → IsOrphaned main s
      → all (λ e. not (mounts main e)) events ≡ true
      → s.data_of j ≡ none
      → (main == j) ≡ false
      → (shown_data fallback j (run_events events s) ≡ fallback)
        × (should_fetch j true true (run_events events s) ≡ false)
  unfolding run_events shown_data should_fetch
  orphaned_shows_fallback fallback main j [] s h apart nothing other =
      (shown_data-none fallback j s nothing, rw (h.0, other) refl)
  orphaned_shows_fallback fallback main j (e ∷ events) s h apart nothing other =
      let here : mounts main e ≡ false = ground arith in
      let later : all (λ e. not (mounts main e)) events ≡ true = ground arith in
      orphaned_shows_fallback fallback main j events (apply_event e s)
        (apply_event-IsOrphaned main e s here h) later (apply_event-data main j e s h nothing) other
