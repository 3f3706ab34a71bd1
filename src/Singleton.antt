-- ===== src/Singleton.antt =====
-- The shared data of src/hooks/useSingletonData.ts. An instance of the hook is a number. The variables of
-- the module are part of the state, and a run is a sequence of mounts, unmounts and new data of the first
-- instance. What an instance computes is of any type.
pub mod Sharing
mod Tests
use stake_basket.Prelude.{
  ℕ, Bool, true, false, not, Option, none, some, List, [], ◌∷◌, any, filter, ◌==◌, ◌||◌, ◌&&◌,
  if◌then◌else◌,
}

pub record SharedData (D : Type 0) : Type 0 where
  pub global_instance : Option ℕ
  pub mounted : List ℕ
  pub subscribers : List ℕ
  pub data_of : ℕ → Option D

pub data Event (D : Type 0) : Type 0 where
  mount unmount : ℕ → Event D
  compute : D → Event D

abbrev pub contains : ℕ → List ℕ → Bool
contains i xs = any (λ j. j == i) xs

abbrev pub without : ℕ → List ℕ → List ℕ
without i xs = filter (λ j. not (j == i)) xs

-- `isMainInstance`
abbrev pub is_main : ℕ → Option ℕ → Bool
is_main i none = false
is_main i (some j) = j == i

module _ {D : Type 0} where
  unfoldable pub empty : SharedData D
  empty = record { global_instance = none; mounted = []; subscribers = []; data_of = λ i. none }

  -- The first instance becomes the main one; every other one subscribes. None has data yet.
  unfoldable pub mount_with : ℕ → Option ℕ → SharedData D → SharedData D
  mount_with i none s = record s {
    global_instance = some i;
    mounted = i ∷ s.mounted;
    data_of = λ j. if j == i then none else s.data_of j;
  }
  mount_with i (some main) s = record s {
    mounted = i ∷ s.mounted;
    subscribers = if main == i then s.subscribers else i ∷ s.subscribers;
    data_of = λ j. if j == i then none else s.data_of j;
  }

  -- An instance that goes unsubscribes; the variable of the main instance stays.
  unfoldable pub unmount_instance : ℕ → SharedData D → SharedData D
  unmount_instance i s = record s {
    mounted = without i s.mounted;
    subscribers = without i s.subscribers;
  }

  -- The main instance hands new data to the subscribers and keeps it.
  abbrev pub handed : D → ℕ → SharedData D → ℕ → Option D
  handed d main s j = if main == j || contains j s.subscribers then some d else s.data_of j

  unfoldable pub broadcast : D → Option ℕ → SharedData D → SharedData D
  broadcast d none s = s
  broadcast d (some main) s =
      if contains main s.mounted then record s { data_of = handed d main s } else s

  unfoldable pub apply_event : Event D → SharedData D → SharedData D
  unfolding mount_with unmount_instance broadcast
  apply_event (mount i) s = mount_with i s.global_instance s
  apply_event (unmount i) s = unmount_instance i s
  apply_event (compute d) s = broadcast d s.global_instance s

  unfoldable pub run_events : List (Event D) → SharedData D → SharedData D
  unfolding apply_event
  run_events [] s = s
  run_events (e ∷ events) s = run_events events (apply_event e s)

  -- `shouldFetch`, for an instance with a user and a contract
  unfoldable pub should_fetch : ℕ → Bool → Bool → SharedData D → Bool
  should_fetch i has_user has_contract s = is_main i s.global_instance && has_user && has_contract

  -- What an instance shows: its data, or the fallback.
  unfoldable pub shown_data : D → ℕ → SharedData D → D
  shown_data fallback i s = elim (s.data_of i) [ none ↦ fallback | some d ↦ d ]
