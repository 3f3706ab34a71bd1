-- ===== src/ContractStore/Validity.antt =====
-- Which addresses a lookup can give.
use stake_basket.Prelude.{
  ◌==◌, ℕ, ◌≡◌, refl, String, Bool, true, false, ◌&&◌, ◌||◌, [], ◌∷◌, Dict, all, lookup, str_eq,
  eq_iff, arith, Bool-cases, inl, inr,
}
use stake_basket.Validation.Addresses.{both}
use stake_basket.ContractStore.{
  ContractStore, get_contract_address, is_valid_address, or_empty, is_present, contracts_of,
  hardhat_addresses, testnet_addresses, mainnet_addresses,
}

-- An address that is valid, or says that there is none.
abbrev pub is_usable : String → Bool
is_usable address = is_valid_address address || str_eq address ""

-- An entry is fine, or its name is an exception.
abbrev is_fine : (String → Bool) → String × String → Bool
is_fine but entry = is_usable entry.1 || but entry.0

lookup-is_fine :
    (but : String → Bool) (name : String) (d : Dict String)
    → all (is_fine but) d ≡ true
    → is_fine but (name, or_empty (lookup name d)) ≡ true
unfolding lookup
lookup-is_fine but name [] h = ground arith
lookup-is_fine but name (entry ∷ d) h =
    let (fine, others) = both (is_fine but entry) _ h in
    elim (Bool-cases (str_eq entry.0 name)) [
      | inl here ↦ rw (here, ← (eq_iff entry.0 name).0 here) fine
      | inr there ↦ rw there (lookup-is_fine but name d others)
    ]

abbrev no_name : String → Bool
no_name name = false

-- Of the testnet, whose default is 38 digits long.
abbrev pub is_core_token : String → Bool
is_core_token name = str_eq name "StCoreToken"

hardhat_fine : all (is_fine no_name) hardhat_addresses ≡ true
unfolding is_valid_address
hardhat_fine = refl

mainnet_fine : all (is_fine no_name) mainnet_addresses ≡ true
unfolding is_valid_address
mainnet_fine = refl

testnet_fine : all (is_fine is_core_token) testnet_addresses ≡ true
unfolding is_valid_address
testnet_fine = refl

without_exception : (a b : Bool) → (a || false) ≡ true → (a || b) ≡ true
without_exception a b h = ground arith

default_fine :
    (chain_id : ℕ) (name : String)
    → (is_usable (or_empty (lookup name (contracts_of chain_id)))
        || (chain_id == 1114 && is_core_token name))
      ≡ true
unfolding contracts_of
default_fine chain_id name = elim (Bool-cases (chain_id == 31337)) [
  | inl local ↦
      rw local (without_exception _ _ (lookup-is_fine no_name name hardhat_addresses hardhat_fine))
  | inr away ↦ elim (Bool-cases (chain_id == 1114)) [
    | inl testnet ↦
        rw (away, testnet) (lookup-is_fine is_core_token name testnet_addresses testnet_fine)
    | inr other ↦ elim (Bool-cases (chain_id == 1116)) [
      | inl mainnet ↦
          rw (away, other, mainnet)
            (without_exception _ _ (lookup-is_fine no_name name mainnet_addresses mainnet_fine))
      | inr unknown ↦
          rw (away, other, unknown)
            (without_exception _ _ (lookup-is_fine no_name name hardhat_addresses hardhat_fine))
    ]
  ]
]

-- If all custom addresses are valid or empty, every lookup gives a valid address or none, whatever the
-- network and the name, but for the default of StCoreToken on the chain 1114.
get_contract_address_usable :
    (s : ContractStore) (name : String)
    → all (is_fine no_name) s.custom_addresses ≡ true
    → (is_usable (get_contract_address name s)
        || (s.current_chain_id == 1114 && is_core_token name))
      ≡ true
unfolding get_contract_address
get_contract_address_usable s name h =
    elim (Bool-cases (s.use_custom_addresses && is_present (lookup name s.custom_addresses))) [
      | inl custom ↦
          rw custom (without_exception _ _ (lookup-is_fine no_name name s.custom_addresses h))
      | inr default ↦ rw default (default_fine s.current_chain_id name)
    ]
