-- ===== src/ContractStore/Lookups.antt =====
-- What the two ways to look an address up give.
use stake_basket.Prelude.{
  ◌∙◌, eq_iff, ◌≡◌, refl, String, Bool, true, false, ◌&&◌, Option, none, some, [], ◌∷◌, Dict,
  lookup, lookup-insert, str_eq, if◌then◌else◌, Bool-cases, inl, inr,
}
use stake_basket.ContractStore.{
  ContractStore, spread, import_configuration, export_configuration, reset_to_default,
  toggle_custom_addresses, get_contract_address, get_all_addresses, or_empty, is_present,
  contracts_of,
}

abbrev first_of : Option String → Option String → Option String
first_of none b = b
first_of (some a) b = some a

first_of-nothing : (a : Option String) → first_of a none ≡ a
first_of-nothing none = refl
first_of-nothing (some a) = refl

lookup-spread :
    (name : String) (defaults overrides : Dict String)
    → lookup name (spread defaults overrides)
      ≡ first_of (lookup name overrides) (lookup name defaults)
unfolding spread lookup
lookup-spread name defaults [] = refl
lookup-spread name defaults (entry ∷ overrides) =
    rw (lookup-insert, lookup-spread name defaults overrides)
      (elim (Bool-cases (str_eq entry.0 name)) [
        | inl here ↦ rw here refl
        | inr there ↦ rw there refl
      ])

-- There is an override, and it is empty.
abbrev pub is_blanked : Option String → Bool
is_blanked none = false
is_blanked (some address) = str_eq address ""

blank_or_present :
    (custom : Option String) (default : Option String)
    → or_empty (first_of custom default) ≡ (
        if is_blanked custom
        then ""
        else if is_present custom
        then or_empty custom
        else or_empty default)
blank_or_present none default = refl
blank_or_present (some address) default = elim (Bool-cases (str_eq address "")) [
  | inl blank ↦ rw blank ((eq_iff address "").0 blank)
  | inr filled ↦ rw filled refl
]

-- The two ways agree on every contract, but for one whose custom address is in use and empty: then all
-- the addresses have it empty, and the single one is the default of the network.
address_lookups_agree :
    (s : ContractStore) (name : String)
    → or_empty (lookup name (get_all_addresses s)) ≡ (
        if s.use_custom_addresses && is_blanked (lookup name s.custom_addresses)
        then ""
        else get_contract_address name s)
unfolding get_all_addresses get_contract_address
address_lookups_agree s name = elim (Bool-cases s.use_custom_addresses) [
  | inl used ↦
      rw (used, lookup-spread name (contracts_of s.current_chain_id) s.custom_addresses)
        (blank_or_present (lookup name s.custom_addresses)
          (lookup name (contracts_of s.current_chain_id)))
  | inr unused ↦ rw unused refl
]

-- Importing what was exported, after a reset, gives every contract the address that it has with the
-- custom addresses in use, and the configuration that is exported then has the same entries.
import_of_export :
    (s : ContractStore) (name : String)
    → (get_contract_address name
          (import_configuration (export_configuration s) (reset_to_default s))
        ≡ get_contract_address name (toggle_custom_addresses true s))
      × (lookup name (
            export_configuration
              (import_configuration (export_configuration s) (reset_to_default s)))
          ≡ lookup name (export_configuration s))
unfolding get_contract_address import_configuration export_configuration reset_to_default
    toggle_custom_addresses lookup
import_of_export s name =
    let same =
      lookup-spread name [] s.custom_addresses
      ∙ first_of-nothing (lookup name s.custom_addresses) in
    (rw same refl, same)
