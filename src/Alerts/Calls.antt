-- ===== src/Alerts/Calls.antt =====
-- The methods that change the state of an AlertManager, as one type of calls, and a session of calls.
use stake_basket.Prelude.{ℕ, Bool, Option, String, List, [], ◌∷◌, ◌<◌}
use stake_basket.Monitoring.{ContractMetrics, ValidatorMetrics, PriceData}
use stake_basket.AlertRules.{Severity, Payload}
use stake_basket.Alerts.{
  AlertManager, check_contract_alerts, check_validator_alerts, check_price_alerts, get_alerts,
  acknowledge_alert, clear_old_alerts, add_custom_alert,
}

-- The last number of a check, a clean-up and a custom alert is the time of the call.
pub data Call : Type 0 where
  check_contract : ContractMetrics → ℕ → Call
  check_validator : ValidatorMetrics → ℕ → Call
  check_price : PriceData → ℕ → Call
  list_alerts : Option ℕ → Option Bool → Call
  acknowledge : String × ℕ → Call
  clear_old : ℕ → ℕ → Call
  custom : Severity → String → String → String → Payload → ℕ → Call

unfoldable pub apply : Call → AlertManager → AlertManager
apply (check_contract metrics now) m = (check_contract_alerts metrics now m).0
apply (check_validator metrics now) m = (check_validator_alerts metrics now m).0
apply (check_price prices now) m = (check_price_alerts prices now m).0
apply (list_alerts limit acknowledged) m = (get_alerts limit acknowledged m).0
apply (acknowledge id) m = (acknowledge_alert id m).0
apply (clear_old max_age now) m = clear_old_alerts max_age now m
apply (custom severity category title message payload now) m =
    (add_custom_alert severity category title message payload now m).0

unfoldable pub run_from : AlertManager → List Call → AlertManager
run_from m [] = m
run_from m (c ∷ cs) = run_from (apply c m) cs

-- The clock of a check is past the epoch.
abbrev pub IsDated : Call → Type 0
IsDated (check_contract metrics now) = 0 < now
IsDated (check_validator metrics now) = 0 < now
IsDated (check_price prices now) = 0 < now
IsDated _ = Unit
