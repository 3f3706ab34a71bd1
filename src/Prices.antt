-- ===== src/Prices.antt =====
-- The prices of src/hooks/useRealPriceData.ts. What the oracle, the API of Core and CoinGecko answer, and
-- the texts of times, are arguments. The outer `catch` is not modelled: all that can throw has its own.
pub mod Effect
pub mod Sources
pub mod Rendering
mod Tests
use Prim.Native.Nat.{◌^◌}
use stake_basket.Prelude.{
  List, [], ◌∷◌, ℕ, ◌+◌, String, Bool, true, false, not, ◌&&◌, ◌||◌, Option, none, some, Ratio,
  ◌over◌, less, quotient, is_nan, ltb, ◌==◌, str_eq, if◌then◌else◌,
}

pub record CoinGecko : Type 0 where
  pub eth_price : Ratio
  pub btc_price : Ratio
  pub core_price : Ratio

pub record PriceCache : Type 0 where
  pub prices : CoinGecko
  pub stored_at : ℕ

-- What CoinGecko answers: nothing, a status that is not good, or prices, each of which may be missing.
pub data GeckoAnswer : Type 0 where
  failed : GeckoAnswer
  refused : ℕ → GeckoAnswer
  prices : Option Ratio → Option Ratio → Option Ratio → GeckoAnswer

abbrev pub cache_duration : ℕ
cache_duration = 60000

-- `a || b` of prices: 0 and NaN do not count.
abbrev pub or_price : Ratio → Ratio → Ratio
or_price a b = if less (0 over 1) a then a else b

abbrev pub given_price : Option Ratio → Ratio
given_price none = 0 over 1
given_price (some x) = or_price x (0 over 1)

abbrev pub cached_prices : Option PriceCache → Option CoinGecko
cached_prices none = none
cached_prices (some c) = some c.prices

abbrev pub fresh_prices : ℕ → Option PriceCache → Option CoinGecko
fresh_prices now none = none
fresh_prices now (some c) = if ltb now (c.stored_at + cache_duration) then some c.prices else none

-- What an answer gives: every failure falls back to the cache, however old it is.
abbrev pub answered : ℕ → GeckoAnswer → Option PriceCache → Option PriceCache × Option CoinGecko
answered later (prices eth btc core) cache =
    let found : CoinGecko = record {
      eth_price = given_price eth;
      btc_price = given_price btc;
      core_price = given_price core;
    } in
    (some (record { prices = found; stored_at = later }), some found)
answered later failed cache = (cache, cached_prices cache)
answered later (refused status) cache = (cache, cached_prices cache)

abbrev pub unless_fresh :
    Option CoinGecko → ℕ → GeckoAnswer → Option PriceCache → Option PriceCache × Option CoinGecko
unless_fresh (some p) later answer cache = (cache, some p)
unless_fresh none later answer cache = answered later answer cache

-- `fetchCoinGeckoPrice`, called at one time and answered at another
unfoldable pub fetch_coin_gecko_price :
    ℕ → ℕ → GeckoAnswer → Option PriceCache → Option PriceCache × Option CoinGecko
fetch_coin_gecko_price now later answer cache =
    unless_fresh (fresh_prices now cache) later answer cache

pub data Source : Type 0 where
  oracle core_api coin_gecko fallback : Source

-- The status of the oracle in a message.
pub data OracleStatus : Type 0 where
  no_status contract_error stale not_configured : OracleStatus

pub data PriceError : Type 0 where
  using_coin_gecko using_core_api all_failed : OracleStatus → PriceError
  coin_gecko_unavailable : PriceError

pub record PriceData : Type 0 where
  pub core_price : Ratio
  pub btc_price : Ratio
  pub last_update : String
  pub is_loading : Bool
  pub source : Source
  pub error : Option PriceError

unfoldable pub no_prices : PriceData
no_prices = record {
  core_price = 0 over 1;
  btc_price = 0 over 1;
  last_update = "";
  is_loading = true;
  source = fallback;
  error = none;
}

-- What `oracleDataRef` holds: nothing yet is `none`.
pub record OracleReads : Type 0 where
  pub core_price : Option ℕ
  pub btc_price : Option ℕ
  pub core_valid : Option Bool
  pub btc_valid : Option Bool
  pub has_error : Bool

abbrev pub or_zero : Option ℕ → ℕ
or_zero none = 0
or_zero (some n) = n

abbrev pub is_true : Option Bool → Bool
is_true none = false
is_true (some b) = b

abbrev pub is_false : Option Bool → Bool
is_false none = false
is_false (some b) = not b

unfoldable pub oracle_usable : Bool → OracleReads → Bool
oracle_usable should_use o =
    should_use
    && ltb 0 (or_zero o.core_price)
    && ltb 0 (or_zero o.btc_price)
    && is_true o.core_valid
    && is_true o.btc_valid

unfoldable pub oracle_status : Bool → Bool → OracleReads → OracleStatus
oracle_status should_use has_address o =
    if should_use
    then (if o.has_error
        then contract_error
        else if is_false o.core_valid || is_false o.btc_valid
        then stale
        else no_status)
    else if has_address
    then no_status
    else not_configured

abbrev pub fallback_error : (OracleStatus → PriceError) → OracleStatus → Option PriceError
fallback_error message no_status = none
fallback_error message status = some (message status)

-- What the API of Core answers, if it answers: its prices as they are parsed, and the text of the time,
-- unless that is not valid.
pub record CoreAnswer : Type 0 where
  pub status : String
  pub core_usd : Ratio
  pub core_btc : Ratio
  pub updated : Option String

-- `calculateBtcPrice` of src/utils/coreApi.ts
unfoldable pub calculate_btc_price : Ratio → Ratio → Ratio
calculate_btc_price core_usd core_btc =
    if core_btc.num == 0 && not (is_nan core_btc) then 0 over 1 else quotient core_usd core_btc

-- The chain, its oracle and the time, as the effect reads them.
pub record Surroundings : Type 0 where
  pub chain_id : ℕ
  pub should_use_oracle : Bool
  pub has_oracle : Bool
  pub reads : OracleReads
  pub now_text : String

abbrev pub loaded : Source → Ratio → Ratio → String → Option PriceError → PriceData
loaded source core_price btc_price updated error = record {
  core_price = core_price;
  btc_price = btc_price;
  last_update = updated;
  is_loading = false;
  source = source;
  error = error;
}

abbrev pub status_of : Surroundings → OracleStatus
status_of w = oracle_status w.should_use_oracle w.has_oracle w.reads

abbrev pub core_api_data : OracleStatus → Ratio → Ratio → Option String → Option PriceData
core_api_data told core_usd core_btc none = none
core_api_data told core_usd core_btc (some updated) = some (
    loaded core_api core_usd (calculate_btc_price core_usd core_btc) updated
      (fallback_error using_core_api told))

abbrev pub from_core_api : OracleStatus → Option CoreAnswer → Option PriceData
from_core_api told none = none
from_core_api told (some a) =
    if str_eq a.status "1" then core_api_data told a.core_usd a.core_btc a.updated else none

abbrev pub local_prices : Surroundings → Option CoinGecko → PriceData
local_prices w none =
    loaded fallback (3900 over 1) (95000 over 1) w.now_text (some coin_gecko_unavailable)
local_prices w (some p) =
    loaded coin_gecko p.eth_price p.btc_price w.now_text
      (fallback_error using_coin_gecko (status_of w))

abbrev pub remote_prices : Surroundings → Option CoinGecko → PriceData
remote_prices w none =
    loaded fallback (437 over 1000) (111000 over 1) w.now_text (some (all_failed (status_of w)))
remote_prices w (some p) =
    loaded coin_gecko (or_price p.core_price (437 over 1000)) p.btc_price w.now_text
      (fallback_error using_coin_gecko (status_of w))

abbrev pub or_remote : Option PriceData → Surroundings → Option CoinGecko → PriceData
or_remote (some found) w gecko = found
or_remote none w gecko = remote_prices w gecko

abbrev pub per_ether : ℕ → Ratio
per_ether n = n over (10 ^ 18)

-- `fetchPriceData`, while the effect is mounted. CoinGecko is what `fetchCoinGeckoPrice` gives where it
-- is asked.
unfoldable pub fetch_price_data : Surroundings → Option CoreAnswer → Option CoinGecko → PriceData
unfolding oracle_usable oracle_status calculate_btc_price
fetch_price_data w core gecko =
    if oracle_usable w.should_use_oracle w.reads
    then loaded oracle (per_ether (or_zero w.reads.core_price))
        (per_ether (or_zero w.reads.btc_price)) w.now_text none
    else if w.chain_id == 31337
    then local_prices w gecko
    else or_remote (from_core_api (status_of w) core) w gecko
