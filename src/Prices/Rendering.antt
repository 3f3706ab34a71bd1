-- ===== src/Prices/Rendering.antt =====
-- What the renders after the first one show.
use stake_basket.Prelude.{
  String, Bool, true, false, Option, none, some, ◌≡◌, refl, List, [], ◌∷◌, All, ◌==◌, str_eq,
  eq_refl, arith, Bool-cases, inl, inr, Ratio,
}
use stake_basket.Prices.{
  CoinGecko, PriceData, OracleStatus, CoreAnswer, Surroundings, fetch_price_data, oracle_usable,
  from_core_api, core_api_data, status_of, local_prices, remote_prices, or_remote, no_prices,
}
use stake_basket.Prices.Sources.{is_oracle}
use stake_basket.Prices.Effect.{
  Dependencies, Render, same_flag, same_dependencies, surroundings_of, run_effect, run_renders,
  price_data,
}

same_flag_refl : (b : Bool) → same_flag b b ≡ true
same_flag_refl true = refl
same_flag_refl false = refl

same_dependencies_refl : (d : Dependencies) → same_dependencies d d ≡ true
same_dependencies_refl d =
    ground (
      eq_refl d.oracle_address,
      same_flag_refl d.should_use_oracle,
      same_flag_refl d.enabled,
      arith,
    )

run_renders-same :
    (d : Dependencies) (renders : List Render) (shown : PriceData)
    → All (λ r. r.dependencies ≡ d) renders
    → run_renders d renders shown ≡ shown
unfolding run_renders
run_renders-same d [] shown h = refl
run_renders-same d (r ∷ renders) shown (same, h) =
    rw (same, same_dependencies_refl d) (run_renders-same d renders shown h)

-- What is neither local nor from the oracle, while it is loaded.
abbrev pub IsSecondBest : PriceData → Type 0
IsSecondBest p = (p.is_loading ≡ false) × (is_oracle p.source ≡ false)

local_prices-IsSecondBest :
    (w : Surroundings) (gecko : Option CoinGecko) → IsSecondBest (local_prices w gecko)
local_prices-IsSecondBest w none = (refl, refl)
local_prices-IsSecondBest w (some p) = (refl, refl)

remote_prices-IsSecondBest :
    (w : Surroundings) (gecko : Option CoinGecko) → IsSecondBest (remote_prices w gecko)
remote_prices-IsSecondBest w none = (refl, refl)
remote_prices-IsSecondBest w (some p) = (refl, refl)

core_api_data-IsSecondBest :
    (told : OracleStatus) (usd btc : Ratio) (updated : Option String) (w : Surroundings)
    (gecko : Option CoinGecko)
    → IsSecondBest (or_remote (core_api_data told usd btc updated) w gecko)
core_api_data-IsSecondBest told usd btc none w gecko = remote_prices-IsSecondBest w gecko
core_api_data-IsSecondBest told usd btc (some text) w gecko = (refl, refl)

from_core_api-IsSecondBest :
    (told : OracleStatus) (core : Option CoreAnswer) (w : Surroundings) (gecko : Option CoinGecko)
    → IsSecondBest (or_remote (from_core_api told core) w gecko)
from_core_api-IsSecondBest told none w gecko = remote_prices-IsSecondBest w gecko
from_core_api-IsSecondBest told (some a) w gecko = elim (Bool-cases (str_eq a.status "1")) [
  | inl good ↦ rw good (core_api_data-IsSecondBest told a.core_usd a.core_btc a.updated w gecko)
  | inr bad ↦ rw bad (remote_prices-IsSecondBest w gecko)
]

fetch_price_data-IsSecondBest :
    (w : Surroundings) (core : Option CoreAnswer) (gecko : Option CoinGecko)
    → oracle_usable w.should_use_oracle w.reads ≡ false
    → IsSecondBest (fetch_price_data w core gecko)
unfolding fetch_price_data
fetch_price_data-IsSecondBest w core gecko unusable = elim (Bool-cases (w.chain_id == 31337)) [
  | inl local ↦ rw (unusable, local) (local_prices-IsSecondBest w gecko)
  | inr away ↦ rw (unusable, away) (from_core_api-IsSecondBest (status_of w) core w gecko)
]

-- If the oracle has not answered by the first render, its prices are never shown as long as the
-- dependencies of the effect stay the same, which the answer of the oracle is not one of: every later
-- render shows what the first fetch has found.
pub late_oracle_ignored :
    (first : Render) (renders : List Render)
    → first.dependencies.enabled ≡ true
    → oracle_usable first.dependencies.should_use_oracle first.reads ≡ false
    → All (λ r. r.dependencies ≡ first.dependencies) renders
    → ((price_data first renders).is_loading ≡ false)
      × (is_oracle (price_data first renders).source ≡ false)
      × (price_data first renders ≡ fetch_price_data (surroundings_of first) first.core first.gecko)
unfolding price_data run_effect
late_oracle_ignored first renders enabled unusable same =
    let best =
      fetch_price_data-IsSecondBest (surroundings_of first) first.core first.gecko unusable in
    rw (run_renders-same first.dependencies renders (run_effect first no_prices) same, enabled)
      (best.0, best.1, refl)
