-- ===== src/Prices/Effect.antt =====
-- When src/hooks/useRealPriceData.ts fetches prices, and what it shows.
use stake_basket.Prelude.{
  List, [], ◌∷◌, ℕ, String, Bool, not, ◌&&◌, ◌||◌, Option, ◌==◌, str_eq, if◌then◌else◌,
}
use stake_basket.Prices.{
  PriceData, OracleReads, CoreAnswer, CoinGecko, Surroundings, fetch_price_data, no_prices,
}

-- What the effect depends on.
pub record Dependencies : Type 0 where
  pub chain_id : ℕ
  pub should_use_oracle : Bool
  pub oracle_address : String
  pub enabled : Bool

abbrev pub same_flag : Bool → Bool → Bool
same_flag a b = (a && b) || (not a && not b)

abbrev pub same_dependencies : Dependencies → Dependencies → Bool
same_dependencies a b =
    a.chain_id == b.chain_id
    && same_flag a.should_use_oracle b.should_use_oracle
    && str_eq a.oracle_address b.oracle_address
    && same_flag a.enabled b.enabled

-- A render: its dependencies, what the oracle reads by then, and what is answered if the effect runs.
pub record Render : Type 0 where
  pub dependencies : Dependencies
  pub reads : OracleReads
  pub now_text : String
  pub core : Option CoreAnswer
  pub gecko : Option CoinGecko

abbrev pub surroundings_of : Render → Surroundings
surroundings_of r = record {
  chain_id = r.dependencies.chain_id;
  should_use_oracle = r.dependencies.should_use_oracle;
  has_oracle = not (str_eq r.dependencies.oracle_address "");
  reads = r.reads;
  now_text = r.now_text;
}

-- The effect, where it runs.
unfoldable pub run_effect : Render → PriceData → PriceData
unfolding fetch_price_data
run_effect r shown =
    if r.dependencies.enabled then fetch_price_data (surroundings_of r) r.core r.gecko else shown

-- The renders after the first one, each with the dependencies of the one before it.
unfoldable pub run_renders : Dependencies → List Render → PriceData → PriceData
unfolding run_effect
run_renders before [] shown = shown
run_renders before (r ∷ renders) shown =
    run_renders r.dependencies renders
      (if same_dependencies before r.dependencies then shown else run_effect r shown)

-- The hook from its first render on, with every fetch answered before the next render.
unfoldable pub price_data : Render → List Render → PriceData
unfolding run_effect run_renders no_prices
price_data first renders = run_renders first.dependencies renders (run_effect first no_prices)
