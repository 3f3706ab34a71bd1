-- ===== src/Prices/Tests.antt =====
-- Core Testnet2 before and after the oracle has answered.
use stake_basket.Prelude.{true, false, none, some, ◌≡◌, refl, [], ◌∷◌, ◌over◌}
use stake_basket.Prices.{oracle_usable, PriceCache, OracleReads, fetch_price_data}
use stake_basket.Prices.Sources.{is_oracle}
use stake_basket.Prices.Effect.{Dependencies, Render, surroundings_of, price_data}
use stake_basket.Prices.Rendering.{late_oracle_ignored}

abbrev unread : OracleReads
unread = record {
  core_price = none;
  btc_price = none;
  core_valid = none;
  btc_valid = none;
  has_error = false;
}

abbrev read : OracleReads
read = record {
  core_price = some 500000000000000000;
  btc_price = some 95000000000000000000000;
  core_valid = some true;
  btc_valid = some true;
  has_error = false;
}

abbrev testnet : Dependencies
testnet = record {
  chain_id = 1114;
  should_use_oracle = true;
  oracle_address = "0x4891";
  enabled = true;
}

abbrev first : Render
first = record { dependencies = testnet; reads = unread; now_text = "t"; core = none; gecko = none }

abbrev second : Render
second = record first { reads = read }

late_oracle_ignored_example :
    ((price_data first (second ∷ [])).is_loading ≡ false)
    × (is_oracle (price_data first (second ∷ [])).source ≡ false)
    × (price_data first (second ∷ []) ≡ fetch_price_data (surroundings_of first) none none)
unfolding oracle_usable
late_oracle_ignored_example = late_oracle_ignored first (second ∷ []) refl refl (refl, tt)

abbrev cache : PriceCache
cache = record {
  prices = record { eth_price = 3900 over 1; btc_price = 95000 over 1; core_price = 1 over 2 };
  stored_at = 1000;
}
