-- ===== src/AlertRules.antt =====
-- The data and the rule table of backend/src/services/AlertManager.ts. The identifier of an alert,
-- `${rule.id}-${Date.now()}`, is the pair of its two parts.
use stake_basket.Prelude.{
  ◌++◌, ℕ, Bool, false, Option, none, some, String, List, [], ◌∷◌, ◌over◌, less,
}
use stake_basket.Monitoring.{ContractMetrics, PriceData, ValidatorMetrics}

pub data Severity : Type 0 where
  warning error critical : Severity

-- What the rules are evaluated on.
pub data Sample : Type 0 where
  contract : ContractMetrics → Sample
  validator : ValidatorMetrics → Sample
  price : PriceData → Sample

-- The optional `data` of an alert; `json` is what a caller of the API sends.
pub data Payload : Type 0 where
  missing : Payload
  sample : Sample → Payload
  json : String → Payload

pub record Alert : Type 0 where
  pub id : String × ℕ
  pub severity : Severity
  pub category : String
  pub title : String
  pub message : String
  pub timestamp : ℕ
  pub acknowledged : Bool
  pub payload : Payload

-- `none` from a condition is a thrown error; the cooldown is in minutes.
pub record AlertRule : Type 0 where
  pub id : String
  pub name : String
  pub category : String
  pub condition : Sample → Option Bool
  pub severity : Severity
  pub message : String
  pub cooldown : ℕ

-- The conditions. A number that the sample lacks is `undefined`, which no comparison accepts; a
-- field of a missing record throws.
abbrev pub on_contract : (ContractMetrics → Bool) → Sample → Option Bool
on_contract p (contract m) = some (p m)
on_contract p (validator m) = some false
on_contract p (price m) = some false

abbrev pub on_gas : (ContractMetrics → Bool) → Sample → Option Bool
on_gas p (contract m) = some (p m)
on_gas p (validator m) = none
on_gas p (price m) = none

abbrev pub on_validator : (ValidatorMetrics → Bool) → Sample → Option Bool
on_validator p (contract m) = some false
on_validator p (validator m) = some (p m)
on_validator p (price m) = some false

abbrev pub on_price : (PriceData → Bool) → Sample → Option Bool
on_price p (contract m) = some false
on_price p (validator m) = some false
on_price p (price m) = some (p m)

unfoldable pub contract_rules : List AlertRule
contract_rules =
    record {
      id = "high-error-rate";
      name = "High Error Rate";
      category = "contract";
      condition = on_contract (λ m. less (5 over 100) m.error_rate);
      severity = error;
      message = "Contract error rate is above 5%";
      cooldown = 15;
    }
    ∷ record {
      id = "low-performance";
      name = "Low Performance Score";
      category = "contract";
      condition = on_contract (λ m. less m.performance_score (50 over 1));
      severity = warning;
      message = "Contract performance score is below 50";
      cooldown = 30;
    }
    ∷ record {
      id = "high-gas-usage";
      name = "High Gas Usage";
      category = "contract";
      condition = on_gas (λ m. less (600000 over 1) (m.gas_usage.average over 1));
      severity = warning;
      message = "Average gas usage is above 600,000";
      cooldown = 60;
    }
    ∷ record {
      id = "low-aum";
      name = "Low AUM";
      category = "contract";
      condition = on_contract (λ m. less m.total_aum (1000 over 1));
      severity = warning;
      message = "Total AUM is below $1,000";
      cooldown = 120;
    }
    ∷ []

unfoldable pub validator_rules : List AlertRule
validator_rules =
    record {
      id = "validator-slashing";
      name = "Validator Slashing Event";
      category = "validator";
      condition = on_validator (λ m. less (0 over 1) (m.total_slashing_events over 1));
      severity = critical;
      message = "Validator slashing event detected";
      cooldown = 5;
    }
    ∷ record {
      id = "low-validator-uptime";
      name = "Low Validator Uptime";
      category = "validator";
      condition = on_validator (λ m. less m.average_uptime (95 over 1));
      severity = warning;
      message = "Average validator uptime is below 95%";
      cooldown = 60;
    }
    ∷ record {
      id = "inactive-validators";
      name = "Inactive Validators";
      category = "validator";
      condition =
          on_validator (λ m. less (m.active_validators over m.total_validators) (8 over 10));
      severity = error;
      message = "More than 20% of validators are inactive";
      cooldown = 30;
    }
    ∷ []

unfoldable pub price_rules : List AlertRule
price_rules =
    record {
      id = "stale-price-feed";
      name = "Stale Price Feed";
      category = "price";
      condition = on_price (λ p. p.is_stale);
      severity = critical;
      message = "Price feed is stale and needs updating";
      cooldown = 5;
    }
    ∷ record {
      id = "high-price-deviation";
      name = "High Price Deviation";
      category = "price";
      condition = on_price (λ p. less (1 over 10) p.deviation);
      severity = warning;
      message = "Price deviation is above 10%";
      cooldown = 15;
    }
    ∷ record {
      id = "extreme-price-movement";
      name = "Extreme Price Movement";
      category = "price";
      condition = on_price (λ p. less (25 over 100) p.deviation);
      severity = critical;
      message = "Extreme price movement detected (>25%)";
      cooldown = 1;
    }
    ∷ []

-- `initializeAlertRules`
unfoldable pub alert_rules : List AlertRule
unfolding contract_rules validator_rules price_rules
alert_rules = contract_rules ++ validator_rules ++ price_rules
