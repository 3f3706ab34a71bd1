-- ===== src/ContractStore/Tests.antt =====
-- Addresses of concrete stores.
use stake_basket.Prelude.{insert, ◌≡◌, refl, true, false, [], ◌∷◌, lookup}
use stake_basket.ContractStore.{
  contracts_of, ContractStore, initial, get_contract_address, get_all_addresses, set_chain_id,
  or_empty, is_valid_address,
}

abbrev blanked : ContractStore
blanked = record {
  current_chain_id = 1114;
  custom_addresses =
      ("PriceFeed", "") ∷ ("StakeBasket", "0xCf7Ed3AccA5a467e9e704C703E8D87F634fB0Fc9") ∷ [];
  use_custom_addresses = true;
}

blanked_lookups_differ :
    (or_empty (lookup "PriceFeed" (get_all_addresses blanked)) ≡ "")
    × (get_contract_address "PriceFeed" blanked ≡ "0xd3fC275555C46Ffa4a6F9d15380D4edA9D9fb06b")
unfolding get_all_addresses get_contract_address lookup insert contracts_of
blanked_lookups_differ = (refl, refl)

testnet_core_token_is_short :
    is_valid_address (get_contract_address "StCoreToken" (set_chain_id 1114 initial)) ≡ false
unfolding is_valid_address get_contract_address set_chain_id initial lookup contracts_of
testnet_core_token_is_short = refl
