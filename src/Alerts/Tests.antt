-- ===== src/Alerts/Tests.antt =====
-- Runs of an AlertManager on concrete samples.
use stake_basket.Prelude.{
  ℕ, ◌≡◌, refl, Bool, false, none, some, String, List, [], ◌∷◌, ◌++◌, ◌over◌, Ratio, length, filter,
  str_eq, arith, ne_of_str_eq, sort_down, put_down, lookup, insert,
}
use stake_basket.Monitoring.{ContractMetrics, PriceData}
use stake_basket.AlertRules.{Alert, warning, missing, price, alert_rules}
use stake_basket.Alerts.{
  check_price_alerts, AlertManager, new, check_category, check_contract_alerts, check_rules,
  check_rule, get_alerts, acknowledge_alert, add_custom_alert, should_trigger_alert, create_alert,
}
use stake_basket.Alerts.Calls.{
  Call, check_contract, check_price, list_alerts, acknowledge, custom, run_from, apply,
}
use stake_basket.Alerts.Cooldown.{cooldown_of, Spaced}
use stake_basket.Alerts.Sessions.{run_from-Spaced}
use stake_basket.Alerts.Checks.{due, check_category-due}

-- a price 30% off, and a basket that is busy and small
abbrev wild : PriceData
wild = record {
  core_price = 195 over 1;
  lst_btc_price = 9000 over 1;
  btc_price = 9000 over 1;
  last_updated = 1000;
  is_stale = false;
  deviation = 3 over 10;
}

abbrev busy : ContractMetrics
busy = record {
  total_aum = 900 over 1;
  nav_per_share = 1 over 1;
  total_supply = 900 over 1;
  gas_usage = record { deposit = 180000; withdraw = 220000; average = 200000 };
  transaction_count = record { deposits = 190; withdrawals = 10; total = 200 };
  error_rate = 0 over 1;
  performance_score = 98 over 1;
  timestamp = 1000;
}

-- The second price check comes 70 seconds after the first one: only the rule with a cooldown of one
-- minute fires again.
abbrev session : List Call
session =
    check_price wild 1000
    ∷ check_price wild 71000
    ∷ check_contract busy 72000
    ∷ list_alerts (some 2) none
    ∷ acknowledge ("low-aum", 72000)
    ∷ custom warning "ops" "t" "m" missing 72000
    ∷ []

abbrev manager : AlertManager
manager = run_from new session

session_alerts : length (run_from new session).alerts ≡ 5
unfolding run_from new apply check_contract_alerts check_price_alerts check_category check_rules
    check_rule should_trigger_alert create_alert get_alerts acknowledge_alert add_custom_alert
    alert_rules lookup insert sort_down put_down
session_alerts = refl

run_from-Spaced_example : Spaced (cooldown_of alert_rules) (run_from new session).alerts
run_from-Spaced_example = run_from-Spaced session (omega arith)

check_category-due_example :
    ((check_category "price" (price wild) 1000 new).1
      ≡ due new 1000 (price wild) (filter (λ r. str_eq r.category "price") new.alert_rules))
    × ((check_category "price" (price wild) 1000 new).0.alerts
        ≡ new.alerts ++ (check_category "price" (price wild) 1000 new).1)
check_category-due_example = check_category-due "price" (price wild) 1000 new (
    unfold new alert_rules in
    ((ne_of_str_eq _ _ refl, (ne_of_str_eq _ _ refl, tt)), ((ne_of_str_eq _ _ refl, tt), (tt, tt))))

abbrev low_aum : Alert
low_aum = record {
  id = ("low-aum", 72000);
  severity = warning;
  category = "contract";
  title = "Low AUM";
  message = "Total AUM is below $1,000";
  timestamp = 72000;
  acknowledged = false;
  payload = missing;
}

abbrev stored : AlertManager
stored = record { alerts = low_aum ∷ []; last_alert_time = []; alert_rules = [] }

abbrev printed : Bool → Ratio → ℕ → String
printed negative size digits = "95.0"
