-- ===== src/OracleUpdater.antt =====
-- The class OracleUpdater of backend/src/services/OracleUpdater.ts. A start waits for its first update
-- and is split there; the intervals of the runtime are part of the state. What the price service and
-- the contract answer is an argument.
pub mod Timers
mod Tests
use stake_basket.Prelude.{
  ℕ, ◌+◌, ◌-◌, ◌*◌, ◌/◌, String, Bool, true, false, not, Option, none, some, List, [], ◌∷◌, map,
  filter, Ratio, ◌over◌, times, quotient, Answer, answered, thrown, str_eq, ◌==◌, if◌then◌else◌,
}

-- `timers` are the handles of the intervals that run, `starting` the starts that wait.
pub record OracleUpdater : Type 0 where
  pub update_timer : Option ℕ
  pub timers : List ℕ
  pub next_handle : ℕ
  pub starting : ℕ

unfoldable pub new : OracleUpdater
new = record { update_timer = none; timers = []; next_handle = 1; starting = 0 }

unfoldable pub begin_updating : OracleUpdater → OracleUpdater
begin_updating s = record s { starting = s.starting + 1 }

-- The first update threw, or it ended and the interval is set.
unfoldable pub first_update_failed : OracleUpdater → OracleUpdater
first_update_failed s = record s { starting = s.starting - 1 }

unfoldable pub first_update_done : OracleUpdater → OracleUpdater
first_update_done s = record s {
  starting = s.starting - 1;
  update_timer = some s.next_handle;
  timers = s.next_handle ∷ s.timers;
  next_handle = s.next_handle + 1;
}

abbrev pub clear_timer : Option ℕ → List ℕ → List ℕ
clear_timer none timers = timers
clear_timer (some handle) timers = filter (λ h. not (h == handle)) timers

unfoldable pub stop_updating : OracleUpdater → OracleUpdater
stop_updating s = record s { update_timer = none; timers = clear_timer s.update_timer s.timers }

-- `getStatus().isRunning`
abbrev pub is_set : Option ℕ → Bool
is_set none = false
is_set (some handle) = true

abbrev pub is_running : OracleUpdater → Bool
is_running s = is_set s.update_timer

pub record CorePriceData : Type 0 where
  pub coreusd : Ratio
  pub corebtc : Ratio

-- `BigInt(Math.round(a * 1e8))`, which throws where there is no number
abbrev pub scaled : Ratio → Option ℕ
scaled a = if a.den == 0 then none else some ((2 * (a.num * 100000000) + a.den) / (2 * a.den))

abbrev pub batch_of : Option ℕ → Option ℕ → Option (List (String × ℕ))
batch_of (some core) (some btc) =
    some (("CORE", core) ∷ ("BTC", btc) ∷ ("lstBTC", btc) ∷ ("coreBTC", btc) ∷ [])
batch_of _ _ = none

-- What `updateAllPrices` writes to the oracle.
unfoldable pub price_batch : CorePriceData → Option (List (String × ℕ))
price_batch p = batch_of (scaled p.coreusd) (scaled (quotient p.coreusd p.corebtc))

-- What `updateSinglePrice` writes.
unfoldable pub single_price : String → CorePriceData → Option (String × ℕ)
single_price asset p =
    if str_eq asset "CORE"
    then elim (scaled p.coreusd) [ none ↦ none | some core ↦ some ("CORE", core) ]
    else none

abbrev pub oracle_assets : List String
oracle_assets = "CORE" ∷ "BTC" ∷ "lstBTC" ∷ "coreBTC" ∷ []

abbrev pub or_when_thrown : {A : Type 0} → A → Answer A → A
or_when_thrown default (answered x) = x
or_when_thrown default (thrown e) = default

unfoldable pub check_price_freshness : (String → Answer Bool) → List (String × Bool)
check_price_freshness is_price_fresh =
    map (λ asset. (asset, or_when_thrown false (is_price_fresh asset))) oracle_assets

-- A price of the contract has eight decimals.
abbrev pub in_usd : Answer ℕ → Ratio
in_usd (answered price) = price over 100000000
in_usd (thrown e) = 0 over 1

unfoldable pub get_current_prices : (String → Answer ℕ) → List (String × Ratio)
get_current_prices get_price = map (λ asset. (asset, in_usd (get_price asset))) oracle_assets
