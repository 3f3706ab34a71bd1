-- ===== src/Networks/Offers.antt =====
-- Which networks are available, and which one is offered instead.
use stake_basket.Prelude.{
  ◌==◌, ℕ, ◌≡◌, ◌≢◌, refl, Bool, true, false, not, ◌&&◌, Option, none, some, any, arith, Bool-cases,
  inl, inr,
}
use stake_basket.Networks.{
  is_given, is_switch, NetworkError, Network, NetworkValidationResult, Notification,
  validate_network, get_available_networks, preferred_network, handle_network_validation,
  notification, get_network_info, judged,
}

-- A chain is available just if it is one of the networks that are listed for the environment.
available_iff_listed :
    (in_development : Bool) (chain_id : ℕ)
    → chain_id ≢ 0
    → (validate_network in_development (some chain_id)).is_available
      ≡ any (λ n. n.chain_id == chain_id) (get_available_networks in_development)
unfolding validate_network get_available_networks
available_iff_listed true chain_id h = ground arith
available_iff_listed false chain_id h = ground arith

abbrev pub is_some {ℓ} : {A : Type ℓ} → Option A → Bool
is_some none = false
is_some (some x) = true

abbrev pub offer : Option Notification → Option Network
offer none = none
offer (some n) = n.switch_to

-- A network that would be valid, or none.
abbrev pub IsAvailable : Bool → Option Network → Type 0
IsAvailable in_development none = Unit
IsAvailable in_development (some n) =
    (validate_network in_development (some n.chain_id)).is_available ≡ true

preferred_network-IsAvailable :
    (in_development : Bool) → IsAvailable in_development (preferred_network in_development)
unfolding validate_network preferred_network
preferred_network-IsAvailable true = refl
preferred_network-IsAvailable false = refl

notification-IsAvailable :
    (in_development : Bool) (chain_id : Option ℕ) (v : NetworkValidationResult)
    (e : Option NetworkError)
    → IsAvailable in_development (offer (notification in_development chain_id v e))
notification-IsAvailable in_development chain_id v none = tt
notification-IsAvailable in_development chain_id v (some e) =
    elim (Bool-cases (v.is_supported && v.is_available)) [
      | inl fine ↦ rw fine tt
      | inr bad ↦ elim (Bool-cases (is_switch v.action && is_given chain_id)) [
        | inl offered ↦ rw (bad, offered) (preferred_network-IsAvailable in_development)
        | inr alone ↦ rw (bad, alone) tt
      ]
    ]

-- The notification of a result, which is that of its error.
abbrev notifies : Bool → Option ℕ → NetworkValidationResult → Bool
notifies in_development chain_id v = is_some (notification in_development chain_id v v.error)

notifies-judged :
    (in_development : Bool) (id : ℕ) (o : Option Network)
    → notifies in_development (some id) (judged in_development id o)
      ≡ not (judged in_development id o).is_available
notifies-judged in_development id none = refl
notifies-judged in_development id (some n) =
    elim (Bool-cases (n.is_development && not in_development)) [
      | inl hidden ↦ rw hidden refl
      | inr shown ↦ rw shown refl
    ]

notifies-validate_network :
    (in_development : Bool) (chain_id : Option ℕ)
    → notifies in_development chain_id (validate_network in_development chain_id)
      ≡ not (validate_network in_development chain_id).is_available
unfolding validate_network
notifies-validate_network in_development none = refl
notifies-validate_network in_development (some id) = elim (Bool-cases (id == 0)) [
  | inl zero_id ↦ rw zero_id refl
  | inr given ↦ rw given (notifies-judged in_development id (get_network_info id))
]

-- Validation notifies just where the network is not available, and what its button switches to, if it
-- has one, would be available.
handle_network_validation_offers :
    (in_development : Bool) (chain_id : Option ℕ)
    → (is_some (handle_network_validation in_development chain_id).1
        ≡ not (validate_network in_development chain_id).is_available)
      × IsAvailable in_development (offer (handle_network_validation in_development chain_id).1)
unfolding handle_network_validation
handle_network_validation_offers in_development chain_id = (
  notifies-validate_network in_development chain_id,
  notification-IsAvailable in_development chain_id (validate_network in_development chain_id)
      (validate_network in_development chain_id).error,
)
