-- ===== src/Networks.antt =====
-- The networks of src/utils/networkHandler.ts and their validation. What the wallet answers is an
-- argument; a notification is its text by template, and the network that its button switches to.
pub mod Offers
mod Tests
use stake_basket.Prelude.{
  ◌==◌, ℕ, String, Bool, true, false, ◌&&◌, ◌||◌, not, Option, none, some, List, [], ◌∷◌, find,
  filter, if◌then◌else◌,
}

pub record Network : Type 0 where
  pub chain_id : ℕ
  pub name : String
  pub symbol : String
  pub is_development : Bool
  pub is_production : Bool
  pub can_be_added : Bool

abbrev pub hardhat : Network
hardhat = record {
  chain_id = 31337;
  name = "Hardhat Local";
  symbol = "ETH";
  is_development = true;
  is_production = false;
  can_be_added = false;
}

abbrev pub core_testnet : Network
core_testnet = record {
  chain_id = 1114;
  name = "Core Testnet2";
  symbol = "tCORE2";
  is_development = false;
  is_production = false;
  can_be_added = true;
}

abbrev pub core_mainnet : Network
core_mainnet = record {
  chain_id = 1116;
  name = "Core Mainnet";
  symbol = "CORE";
  is_development = false;
  is_production = true;
  can_be_added = true;
}

abbrev pub supported_networks : List Network
supported_networks = hardhat ∷ core_testnet ∷ core_mainnet ∷ []

pub data NetworkError : Type 0 where
  no_network : NetworkError
  unsupported : ℕ → NetworkError
  development_only : NetworkError

pub data Action : Type 0 where
  switch add connect_wallet : Action

pub record NetworkValidationResult : Type 0 where
  pub is_supported : Bool
  pub is_available : Bool
  pub network : Option Network
  pub error : Option NetworkError
  pub action : Option Action

-- `getNetworkInfo`
abbrev pub get_network_info : ℕ → Option Network
get_network_info chain_id = find (λ n. n.chain_id == chain_id) supported_networks

-- The result for an identifier that is not 0, by what `find` gives.
abbrev pub judged : Bool → ℕ → Option Network → NetworkValidationResult
judged in_development chain_id none = record {
  is_supported = false;
  is_available = false;
  network = none;
  error = some (unsupported chain_id);
  action = some switch;
}
judged in_development chain_id (some n) =
    if n.is_development && not in_development
    then record {
      is_supported = true;
      is_available = false;
      network = some n;
      error = some development_only;
      action = some switch;
    }
    else record {
      is_supported = true;
      is_available = true;
      network = some n;
      error = none;
      action = none;
    }

abbrev pub not_detected : NetworkValidationResult
not_detected = record {
  is_supported = false;
  is_available = false;
  network = none;
  error = some no_network;
  action = some connect_wallet;
}

unfoldable pub validate_network : Bool → Option ℕ → NetworkValidationResult
validate_network in_development none = not_detected
validate_network in_development (some chain_id) =
    if chain_id == 0
    then not_detected
    else judged in_development chain_id (get_network_info chain_id)

unfoldable pub get_available_networks : Bool → List Network
get_available_networks in_development =
    filter (λ n. in_development || not n.is_development) supported_networks

-- `a || xs[0]`
abbrev pub or_first : {A : Type 0} → Option A → List A → Option A
or_first (some x) xs = some x
or_first none [] = none
or_first none (x ∷ xs) = some x

unfoldable pub preferred_network : Bool → Option Network
unfolding get_available_networks
preferred_network in_development =
    let networks = get_available_networks in_development in
    if in_development
    then or_first (find (λ n. n.chain_id == 1114) networks) networks
    else or_first (find (λ n. n.is_production) networks) networks

-- The notification of `handleNetworkValidation`: its text, and what its button switches to.
pub record Notification : Type 0 where
  pub message : NetworkError
  pub switch_to : Option Network

abbrev pub is_switch : Option Action → Bool
is_switch (some switch) = true
is_switch _ = false

abbrev pub is_given : Option ℕ → Bool
is_given none = false
is_given (some chain_id) = not (chain_id == 0)

abbrev pub notification :
    Bool → Option ℕ → NetworkValidationResult → Option NetworkError → Option Notification
notification in_development chain_id v none = none
notification in_development chain_id v (some e) =
    if v.is_supported && v.is_available
    then none
    else some (record {
      message = e;
      switch_to =
          if is_switch v.action && is_given chain_id
          then preferred_network in_development
          else none;
    })

unfoldable pub handle_network_validation :
    Bool → Option ℕ → NetworkValidationResult × Option Notification
unfolding validate_network preferred_network
handle_network_validation in_development chain_id =
    let v = validate_network in_development chain_id in
    (v, notification in_development chain_id v v.error)

-- What the wallet answers to a request; the first two errors have the codes 4902 and -32603.
pub data Reply : Type 0 where
  done not_recognized internal_error refused : Reply

pub data Request : Type 0 where
  switch_chain add_chain : ℕ → Request

abbrev pub is_done : Reply → Bool
is_done done = true
is_done _ = false

abbrev pub is_missing : Reply → Bool
is_missing not_recognized = true
is_missing internal_error = true
is_missing _ = false

abbrev pub add_known : Option Network → Reply → List Request × Bool
add_known none reply = ([], false)
add_known (some n) reply =
    if n.can_be_added then (add_chain n.chain_id ∷ [], is_done reply) else ([], false)

-- The requests that are made, and whether the network was added.
unfoldable pub add_network_to_wallet : Bool → ℕ → Reply → List Request × Bool
add_network_to_wallet has_wallet chain_id reply =
    if has_wallet then add_known (get_network_info chain_id) reply else ([], false)

abbrev pub is_known : Option Network → Bool
is_known none = false
is_known (some n) = true

unfoldable pub switch_to_network : Bool → ℕ → Reply → Reply → List Request × Bool
unfolding add_network_to_wallet
switch_to_network has_wallet chain_id switched added =
    let addition = add_network_to_wallet has_wallet chain_id added in
    if not has_wallet || not (is_known (get_network_info chain_id))
    then ([], false)
    else if is_done switched
    then (switch_chain chain_id ∷ [], true)
    else if is_missing switched
    then (switch_chain chain_id ∷ addition.0, addition.1)
    else (switch_chain chain_id ∷ [], false)

-- `getTokenSymbol`
abbrev pub symbol_of : Option Network → String
symbol_of none = "TOKEN"
symbol_of (some n) = n.symbol

unfoldable pub get_token_symbol : Option ℕ → String
get_token_symbol none = "TOKEN"
get_token_symbol (some chain_id) =
    if chain_id == 0 then "TOKEN" else symbol_of (get_network_info chain_id)
