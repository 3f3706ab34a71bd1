-- ===== src/OracleRoutes.antt =====
-- The routes of backend/src/routes/oracle.ts over CoreApi and OracleUpdater. The variable `oracleUpdater`
-- names one of the updaters that were made; a start is split where it waits. What the requests to other
-- services give is an argument.
pub mod Reach
mod Tests
use stake_basket.Prelude.{
  ℕ, zero, suc, ◌+◌, ◌-◌, ◌*◌, ◌/◌, String, Bool, true, false, not, Option, none, some, List, [],
  ◌∷◌, Ratio, ◌over◌, Answer, answered, thrown, map, length, ltb, ◌==◌, str_eq, if◌then◌else◌, ◌&&◌,
}
use stake_basket.CoreApi.{
  CoreValidator, is_active, active_validators, get_top_validators_by_deposit, CorePrice,
  NetworkStats, PerformanceMetrics, get_validator_performance_metrics,
}
use stake_basket.OracleUpdater.{
  OracleUpdater, new, begin_updating, first_update_failed, first_update_done, stop_updating,
  is_running, get_current_prices,
}

-- A success, with a message or data; an answer of the status 200 that says no; an error with its status.
pub data Reply (A : Type 0) : Type 0 where
  success : Option String → Option A → Reply A
  declined : String → Reply A
  failed : ℕ → String → Option String → Reply A

abbrev pub name_of : CoreValidator → String
name_of v = if str_eq v.validator_name "" then "Unnamed" else v.validator_name

pub record ListedValidator : Type 0 where
  pub address : String
  pub name : String
  pub listed_active : Bool
  pub total_deposit : ℕ
  pub fee_percent : Ratio
  pub voting_power : String

unfoldable pub listed : CoreValidator → ListedValidator
listed v = record {
  address = v.operator_address;
  name = name_of v;
  listed_active = is_active v;
  total_deposit = v.total_deposit;
  fee_percent = v.fee_percent over 100;
  voting_power = v.validator_voting_power;
}

pub record ValidatorList : Type 0 where
  pub all : ℕ
  pub active : ℕ
  pub validators : List ListedValidator

unfoldable pub list_validators : Answer (List CoreValidator) → Reply ValidatorList
unfolding listed
list_validators (answered vs) = success none (
    some (record {
      all = length vs;
      active = length (active_validators vs);
      validators = map listed vs;
    }))
list_validators (thrown e) = failed 500 "Failed to fetch validator data" (some e)

pub record RankedValidator : Type 0 where
  pub rank : ℕ
  pub address : String
  pub name : String
  pub total_deposit : ℕ
  pub fee_percent : Ratio
  pub deposit_in_core : ℕ

-- The validators with their indices; a deposit is rounded to whole CORE.
unfoldable pub ranked_from : ℕ → List CoreValidator → List RankedValidator
ranked_from index [] = []
ranked_from index (v ∷ vs) =
    record {
      rank = index + 1;
      address = v.operator_address;
      name = name_of v;
      total_deposit = v.total_deposit;
      fee_percent = v.fee_percent over 100;
      deposit_in_core = (2 * v.total_deposit + 1000000000000000000) / 2000000000000000000;
    }
    ∷ ranked_from (index + 1) vs

-- What `parseInt` reads of the query, and what `slice(0, limit)` makes of it
pub data Limit : Type 0 where
  not_a_number : Limit
  first : ℕ → Limit
  without_last : ℕ → Limit

abbrev pub limit_of : Limit → ℕ → ℕ
limit_of not_a_number n = 0
limit_of (first k) n = k
limit_of (without_last k) n = n - k

unfoldable pub top_validators : Limit → Answer (List CoreValidator) → Reply (List RankedValidator)
unfolding get_top_validators_by_deposit ranked_from
top_validators limit (answered vs) =
    let n = limit_of limit (length (active_validators vs)) in
    success none (some (ranked_from 0 (get_top_validators_by_deposit n vs)))
top_validators limit (thrown e) = failed 500 "Failed to fetch top validators" none

pub record PriceReply : Type 0 where
  pub coreusd : Ratio
  pub corebtc : Ratio
  pub usd_update : String
  pub btc_update : String

-- `toISOString` throws on a time that no date has.
abbrev pub dated : CorePrice → Answer String → Answer String → Reply PriceReply
dated p (answered usd) (answered btc) = success none (
    some
      (record { coreusd = p.core_usd; corebtc = p.core_btc; usd_update = usd; btc_update = btc }))
dated p _ _ = failed 500 "Failed to fetch price data" none

unfoldable pub price : (ℕ → Answer String) → Answer CorePrice → Reply PriceReply
price to_iso_string (answered p) =
    dated p (to_iso_string p.core_usd_timestamp) (to_iso_string p.core_btc_timestamp)
price to_iso_string (thrown e) = failed 500 "Failed to fetch price data" none

unfoldable pub network_stats : Answer NetworkStats → Reply NetworkStats
network_stats (answered s) = success none (some s)
network_stats (thrown e) = failed 500 "Failed to fetch network statistics" none

abbrev pub validator_reply : Answer PerformanceMetrics → Reply PerformanceMetrics
validator_reply (answered m) = success none (some m)
validator_reply (thrown e) = failed 404 "Validator not found or API error" (some e)

unfoldable pub validator : String → Answer (List CoreValidator) → Reply PerformanceMetrics
unfolding get_validator_performance_metrics
validator address (answered vs) = validator_reply (get_validator_performance_metrics address vs)
validator address (thrown e) = validator_reply (thrown e)

-- `current` is the variable, `created` how many updaters were made, and `waiting` the starts that have
-- passed the test and wait for their body.
pub record OracleRoutes : Type 0 where
  pub current : Option ℕ
  pub created : ℕ
  pub updater : ℕ → OracleUpdater
  pub contract_address : ℕ → String
  pub waiting : ℕ

unfoldable pub initial : OracleRoutes
unfolding new
initial = record {
  current = none;
  created = 0;
  updater = λ i. new;
  contract_address = λ i. "";
  waiting = 0;
}

-- A method of one updater
abbrev pub update_at : ℕ → (OracleUpdater → OracleUpdater) → OracleRoutes → OracleRoutes
update_at i f s = record s { updater = λ j. if j == i then f (s.updater j) else s.updater j }

abbrev pub current_runs : Option ℕ → OracleRoutes → Bool
current_runs none s = false
current_runs (some i) s = is_running (s.updater i)

pub record UpdaterStatus : Type 0 where
  pub running : Bool
  pub status_address : Option String
  pub interval : Option ℕ
  pub current_prices : List (String × Ratio)

abbrev pub status_of : ℕ → List (String × Ratio) → OracleRoutes → UpdaterStatus
status_of i prices s = record {
  running = is_running (s.updater i);
  status_address = some (s.contract_address i);
  interval = some 60000;
  current_prices = prices;
}

-- `/start-updater` until it waits for the body; `none` is a request that goes on.
unfoldable pub begin_start : OracleRoutes → OracleRoutes × Option (Reply UpdaterStatus)
begin_start s =
    if current_runs s.current s
    then (s, some (declined "Oracle updater is already running"))
    else (record s { waiting = s.waiting + 1 }, none)

-- A text that is not empty
abbrev pub given : Option String → Option String
given none = none
given (some a) = if str_eq a "" then none else some a

abbrev pub contract_of : Option String → Option String → Option String
contract_of none environment = given environment
contract_of (some a) environment = some a

abbrev pub start_failed : String → Reply UpdaterStatus
start_failed e = failed 500 "Failed to start oracle updater" (some e)

-- A new updater becomes the current one and begins its first update, if its constructor does not throw.
unfoldable pub make_updater :
    Option String → Answer Unit → OracleRoutes → OracleRoutes × Option (Reply UpdaterStatus)
unfolding new begin_updating
make_updater none built s = (s, some (failed 400 "Oracle contract address required" none))
make_updater (some address) (thrown e) s = (s, some (start_failed e))
make_updater (some address) (answered done) s = (
  record s {
    current = some s.created;
    created = s.created + 1;
    updater = λ j. if j == s.created then begin_updating new else s.updater j;
    contract_address = λ j. if j == s.created then address else s.contract_address j;
  },
  none,
)

-- From the body to the wait for the first update: the address that the body gives, if it gives one, or
-- what reading it throws, for a body that is `null`.
unfoldable pub read_body :
    Answer (Option String)
    → Option String
    → Answer Unit
    → OracleRoutes
    → OracleRoutes × Option (Reply UpdaterStatus)
unfolding make_updater
read_body (answered body) environment built s =
    make_updater (contract_of (given body) environment) built (record s { waiting = s.waiting - 1 })
read_body (thrown e) environment built s =
    (record s { waiting = s.waiting - 1 }, some (start_failed e))

-- The answer has the status of the updater that is the current one by then.
abbrev pub started : Option ℕ → OracleRoutes → Reply UpdaterStatus
started none s = start_failed "Cannot read properties of null"
started (some i) s = success (some "Oracle updater started successfully") (some (status_of i [] s))

-- The first update of the updater that a request made has ended.
unfoldable pub settle_start : ℕ → Answer Unit → OracleRoutes → OracleRoutes × Reply UpdaterStatus
unfolding first_update_done first_update_failed
settle_start i (answered done) s =
    let after = update_at i first_update_done s in (after, started after.current after)
settle_start i (thrown e) s = (update_at i first_update_failed s, start_failed e)

abbrev pub stop_current : Option ℕ → OracleRoutes → OracleRoutes × Reply UpdaterStatus
unfolding stop_updating
stop_current none s = (s, declined "Oracle updater was not running")
stop_current (some i) s =
    (update_at i stop_updating s, success (some "Oracle updater stopped successfully") none)

-- `/stop-updater`
unfoldable pub stop_updater : OracleRoutes → OracleRoutes × Reply UpdaterStatus
stop_updater s = stop_current s.current s

-- `/status`, of what the contract of the current updater answers
unfoldable pub status : (String → Answer ℕ) → OracleRoutes → Reply UpdaterStatus
unfolding get_current_prices
status get_price s = elim s.current [
  | none ↦ success none (
      some
        (record { running = false; status_address = none; interval = none; current_prices = [] }))
  | some i ↦
      success none (
        some
          (status_of i (if is_running (s.updater i) then get_current_prices get_price else []) s))
]

-- `/manual-update`, of how `updateAllPrices` of the current updater ends
abbrev pub manual_reply : Option ℕ → Answer Unit → Reply UpdaterStatus
manual_reply none answer = failed 400 "Oracle updater not initialized" none
manual_reply (some i) (answered done) =
    success (some "Manual price update completed successfully") none
manual_reply (some i) (thrown e) = failed 500 "Failed to update prices manually" (some e)

unfoldable pub manual_update : Answer Unit → OracleRoutes → Reply UpdaterStatus
manual_update answer s = manual_reply s.current answer
