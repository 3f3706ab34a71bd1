-- ===== src/Prices/Sources.antt =====
-- Where the prices come from.
use stake_basket.Prelude.{Bool, true, false, ◌⊎◌, Option, none, ◌≡◌, ◌==◌}
use stake_basket.Prices.{
  CoinGecko, coin_gecko, Source, oracle, fallback, CoreAnswer, Surroundings, oracle_usable,
  from_core_api, status_of,
}
use Prim.Native.String.{String}

abbrev pub is_fallback : Source → Bool
is_fallback fallback = true
is_fallback _ = false

abbrev pub is_oracle : Source → Bool
is_oracle oracle = true
is_oracle _ = false

-- The prices of the program are shown only if the oracle cannot be used, CoinGecko gave nothing, and the
-- API of Core gave nothing or was not asked, on the local chain.
abbrev pub NoSource : Surroundings → Option CoreAnswer → Option CoinGecko → Type 0
NoSource w core gecko =
    (oracle_usable w.should_use_oracle w.reads ≡ false)
    × (gecko ≡ none)
    × (((w.chain_id == 31337) ≡ true) ⊎ (from_core_api (status_of w) core ≡ none))

abbrev pub is_coin_gecko : Source → Bool
is_coin_gecko coin_gecko = true
is_coin_gecko _ = false
