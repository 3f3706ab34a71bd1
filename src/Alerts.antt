-- ===== src/Alerts.antt =====
-- The class AlertManager of backend/src/services/AlertManager.ts. A method takes the state and the
-- clock, in milliseconds, and returns the new state beside its result. A method runs without
-- waiting, so it reads one time. `getAlerts` sorts the stored array itself when no filter copies it.
pub mod Calls
pub mod Checks
pub mod Listing
pub mod Upkeep
pub mod Suspicion
pub mod Cooldown
mod Tests
pub mod Sessions
use stake_basket.Prelude.{
  ◌==◌, ℕ, ◌+◌, ◌*◌, Bool, true, false, not, ◌&&◌, Option, none, some, String, List, [], ◌∷◌, ◌++◌,
  Dict, lookup, insert, ltb, if◌then◌else◌, filter, update_first, any, count, take, length,
  sort_down, str_eq,
}
use stake_basket.Monitoring.{ContractMetrics, ValidatorMetrics, PriceData}
use stake_basket.AlertRules.{
  Severity, warning, error, critical, Sample, contract, validator, price, Payload, sample, Alert,
  AlertRule, alert_rules,
}

pub record AlertManager : Type 0 where
  pub alerts : List Alert
  pub last_alert_time : Dict ℕ
  pub alert_rules : List AlertRule

-- the constructor
unfoldable pub new : AlertManager
new = record { alerts = []; last_alert_time = []; alert_rules = alert_rules }

abbrev pub minutes : ℕ → ℕ
minutes n = n * 60 * 1000

-- `lastAlert && now - lastAlert < cooldown`: a time of 0 counts as no time.
unfoldable pub is_cooling : Option ℕ → ℕ → ℕ → Bool
is_cooling none now cooldown = false
is_cooling (some last) now cooldown = ltb 0 last && ltb now (last + minutes cooldown)

-- a condition that throws is reported and counts as false
abbrev pub caught : Option Bool → Bool
caught none = false
caught (some b) = b

unfoldable pub should_trigger_alert : AlertManager → ℕ → AlertRule → Sample → Bool
unfolding is_cooling
should_trigger_alert m now rule d =
    if is_cooling (lookup rule.id m.last_alert_time) now rule.cooldown
    then false
    else caught (rule.condition d)

unfoldable pub create_alert : ℕ → Sample → AlertRule → Alert
create_alert now d rule = record {
  id = (rule.id, now);
  severity = rule.severity;
  category = rule.category;
  title = rule.name;
  message = rule.message;
  timestamp = now;
  acknowledged = false;
  payload = sample d;
}

-- one round of the loop of a check, on the state and `newAlerts`
unfoldable pub check_rule :
    ℕ → Sample → AlertRule → AlertManager × List Alert → AlertManager × List Alert
check_rule now d rule (m, new_alerts) =
    let alert = create_alert now d rule in
    if should_trigger_alert m now rule d
    then (
      record m {
        alerts = m.alerts ++ alert ∷ [];
        last_alert_time = insert rule.id now m.last_alert_time;
      },
      new_alerts ++ alert ∷ [],
    )
    else (m, new_alerts)

unfoldable pub check_rules :
    ℕ → Sample → List AlertRule → AlertManager × List Alert → AlertManager × List Alert
check_rules now d [] s = s
check_rules now d (rule ∷ rules) s = check_rules now d rules (check_rule now d rule s)

unfoldable pub check_category : String → Sample → ℕ → AlertManager → AlertManager × List Alert
check_category category d now m =
    check_rules now d (filter (λ r. str_eq r.category category) m.alert_rules) (m, [])

pub check_contract_alerts : ContractMetrics → ℕ → AlertManager → AlertManager × List Alert
check_contract_alerts metrics = check_category "contract" (contract metrics)

pub check_validator_alerts : ValidatorMetrics → ℕ → AlertManager → AlertManager × List Alert
check_validator_alerts metrics = check_category "validator" (validator metrics)

pub check_price_alerts : PriceData → ℕ → AlertManager → AlertManager × List Alert
check_price_alerts prices = check_category "price" (price prices)

abbrev pub same : Bool → Bool → Bool
same true b = b
same false b = not b

-- `if (limit)`: no limit, or a limit of 0, keeps all. Limits are not negative.
abbrev pub limited : Option ℕ → List Alert → List Alert
limited none xs = xs
limited (some n) xs = if ltb 0 n then take n xs else xs

unfoldable pub get_alerts : Option ℕ → Option Bool → AlertManager → AlertManager × List Alert
get_alerts limit none m =
    let sorted = sort_down (λ a. a.timestamp) m.alerts in
    (record m { alerts = sorted }, limited limit sorted)
get_alerts limit (some acknowledged) m =
    let chosen = filter (λ a. same a.acknowledged acknowledged) m.alerts in
    (m, limited limit (sort_down (λ a. a.timestamp) chosen))

abbrev pub has_id : String × ℕ → Alert → Bool
has_id (prefix, ms) a = str_eq a.id.0 prefix && a.id.1 == ms

abbrev pub mark : Alert → Alert
mark a = record a { acknowledged = true }

unfoldable pub acknowledge_alert : String × ℕ → AlertManager → AlertManager × Bool
acknowledge_alert id m =
    (record m { alerts = update_first (has_id id) mark m.alerts }, any (has_id id) m.alerts)

abbrev pub is_critical : Severity → Bool
is_critical critical = true
is_critical _ = false

abbrev pub is_error : Severity → Bool
is_error error = true
is_error _ = false

abbrev pub is_warning : Severity → Bool
is_warning warning = true
is_warning _ = false

pub record AlertStats : Type 0 where
  pub total : ℕ
  pub unacknowledged : ℕ
  pub critical : ℕ
  pub errors : ℕ
  pub warnings : ℕ
  pub last24h : ℕ
  pub by_contract : ℕ
  pub by_validator : ℕ
  pub by_price : ℕ
  pub by_security : ℕ

unfoldable pub get_alert_stats : ℕ → AlertManager → AlertStats
get_alert_stats now m = record {
  total = length m.alerts;
  unacknowledged = count (λ a. not a.acknowledged) m.alerts;
  critical = count (λ a. is_critical a.severity) m.alerts;
  errors = count (λ a. is_error a.severity) m.alerts;
  warnings = count (λ a. is_warning a.severity) m.alerts;
  last24h = count (λ a. ltb now (a.timestamp + 24 * 60 * 60 * 1000)) m.alerts;
  by_contract = count (λ a. str_eq a.category "contract") m.alerts;
  by_validator = count (λ a. str_eq a.category "validator") m.alerts;
  by_price = count (λ a. str_eq a.category "price") m.alerts;
  by_security = count (λ a. str_eq a.category "security") m.alerts;
}

abbrev pub seven_days : ℕ
seven_days = 7 * 24 * 60 * 60 * 1000

-- `timestamp > now - maxAge`, with the age carried over
unfoldable pub clear_old_alerts : ℕ → ℕ → AlertManager → AlertManager
clear_old_alerts max_age now m = record m {
  alerts = filter (λ a. ltb now (a.timestamp + max_age)) m.alerts;
}

unfoldable pub add_custom_alert :
    Severity → String → String → String → Payload → ℕ → AlertManager → AlertManager × Alert
add_custom_alert severity category title message payload now m =
    let alert : Alert = record {
      id = ("custom", now);
      severity = severity;
      category = category;
      title = title;
      message = message;
      timestamp = now;
      acknowledged = false;
      payload = payload;
    } in
    (record m { alerts = m.alerts ++ alert ∷ [] }, alert)
