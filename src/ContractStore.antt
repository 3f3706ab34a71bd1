-- ===== src/ContractStore.antt =====
-- The store of src/store/useContractStore.ts: which address a contract has. A contract is named by its
-- text, and the addresses of `customAddresses` are a map; the order of its entries is not observed.
mod Defaults
pub mod Lookups
pub mod Validity
mod Tests
use stake_basket.Prelude.{
  ℕ, String, Bool, true, false, ◌&&◌, not, Option, none, some, [], ◌∷◌, Dict, lookup, insert,
  str_eq, if◌then◌else◌,
}
use stake_basket.Validation.{is_address}
unfoldable pub use Defaults.{contracts_of, hardhat_addresses, testnet_addresses, mainnet_addresses}

pub record ContractStore : Type 0 where
  pub current_chain_id : ℕ
  pub custom_addresses : Dict String
  pub use_custom_addresses : Bool

unfoldable pub initial : ContractStore
initial = record { current_chain_id = 31337; custom_addresses = []; use_custom_addresses = false }

-- `{ ...defaults, ...overrides }`
unfoldable pub spread : Dict String → Dict String → Dict String
spread defaults [] = defaults
spread defaults (entry ∷ overrides) = insert entry.0 entry.1 (spread defaults overrides)

unfoldable pub set_chain_id : ℕ → ContractStore → ContractStore
set_chain_id chain_id s = record s { current_chain_id = chain_id }

unfoldable pub set_custom_address : String → String → ContractStore → ContractStore
set_custom_address name address s = record s {
  custom_addresses = insert name address s.custom_addresses;
}

unfoldable pub toggle_custom_addresses : Bool → ContractStore → ContractStore
toggle_custom_addresses enabled s = record s { use_custom_addresses = enabled }

unfoldable pub reset_to_default : ContractStore → ContractStore
reset_to_default s = record s { custom_addresses = []; use_custom_addresses = false }

unfoldable pub import_configuration : Dict String → ContractStore → ContractStore
unfolding spread
import_configuration config s = record s {
  custom_addresses = spread s.custom_addresses config;
  use_custom_addresses = true;
}

unfoldable pub export_configuration : ContractStore → Dict String
export_configuration s = s.custom_addresses

-- `address || ''`
abbrev pub or_empty : Option String → String
or_empty none = ""
or_empty (some address) = address

-- Whether an entry counts as a condition: it is there and not empty.
abbrev pub is_present : Option String → Bool
is_present none = false
is_present (some address) = not (str_eq address "")

unfoldable pub get_contract_address : String → ContractStore → String
get_contract_address name s =
    if s.use_custom_addresses && is_present (lookup name s.custom_addresses)
    then or_empty (lookup name s.custom_addresses)
    else or_empty (lookup name (contracts_of s.current_chain_id))

unfoldable pub get_all_addresses : ContractStore → Dict String
unfolding spread
get_all_addresses s =
    if s.use_custom_addresses
    then spread (contracts_of s.current_chain_id) s.custom_addresses
    else contracts_of s.current_chain_id

unfoldable pub is_valid_address : String → Bool
unfolding is_address
is_valid_address address = is_address address
