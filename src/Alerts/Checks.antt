-- ===== src/Alerts/Checks.antt =====
-- What one check of the rules of a category returns and stores.
use stake_basket.Prelude.{
  ◌∙◌, ℕ, ◌≡◌, ◌≢◌, refl, String, List, [], ◌∷◌, ◌++◌, map, All, filter, lookup, insert,
  lookup-insert, str_eq, eq_iff, Bool-cases, inl, inr, arith, append_assoc, append-nil,
}
use stake_basket.AlertRules.{AlertRule, Sample, Alert}
use stake_basket.Alerts.{
  false, true, AlertManager, check_rule, check_rules, check_category, should_trigger_alert,
  create_alert,
}

-- No two rules share an identifier.
abbrev pub HasDistinctIds : List AlertRule → Type 0
HasDistinctIds [] = Unit
HasDistinctIds (r ∷ rs) = All (λ s. r.id ≢ s.id) rs × HasDistinctIds rs

-- The alerts that a check should raise: one for each rule that triggers in the state before it.
abbrev pub due : AlertManager → ℕ → Sample → List AlertRule → List Alert
due m now d rules = map (create_alert now d) (filter (λ r. should_trigger_alert m now r d) rules)

-- For these rules two states hold the same times.
abbrev Agrees : AlertManager → AlertManager → List AlertRule → Type 0
Agrees m n rules = All (λ r. lookup r.id n.last_alert_time ≡ lookup r.id m.last_alert_time) rules

Agrees-insert :
    (m n : AlertManager) (rule : AlertRule) (now : ℕ) (alerts : List Alert) (rules : List AlertRule)
    → All (λ s. rule.id ≢ s.id) rules
    → Agrees m n rules
    → Agrees m
        (record n { alerts = alerts; last_alert_time = insert rule.id now n.last_alert_time })
        rules
Agrees-insert m n rule now alerts [] h k = tt
Agrees-insert m n rule now alerts (s ∷ rules) (ne, h) (e, k) = (
  ground (arith, lookup-insert rule.id s.id now n.last_alert_time, eq_iff rule.id s.id),
  Agrees-insert m n rule now alerts rules h k,
)

-- A rule looks at its own time only.
should_trigger_alert_of_Agrees :
    (m n : AlertManager) (now : ℕ) (rule : AlertRule) (d : Sample)
    → lookup rule.id n.last_alert_time ≡ lookup rule.id m.last_alert_time
    → should_trigger_alert n now rule d ≡ should_trigger_alert m now rule d
unfolding should_trigger_alert
should_trigger_alert_of_Agrees m n now rule d e = rw e

Agrees-self : (m : AlertManager) (rules : List AlertRule) → Agrees m m rules
Agrees-self m [] = tt
Agrees-self m (r ∷ rules) = (refl, Agrees-self m rules)

check_rule_quiet :
    (m : AlertManager) (now : ℕ) (d : Sample) (rule : AlertRule) (xs : List Alert)
    → should_trigger_alert m now rule d ≡ false
    → check_rule now d rule (m, xs) ≡ (m, xs)
unfolding check_rule
check_rule_quiet m now d rule xs e = rw e

check_rule_fires :
    (m : AlertManager) (now : ℕ) (d : Sample) (rule : AlertRule) (xs : List Alert)
    → should_trigger_alert m now rule d ≡ true
    → check_rule now d rule (m, xs) ≡ (
      record m {
        alerts = m.alerts ++ create_alert now d rule ∷ [];
        last_alert_time = insert rule.id now m.last_alert_time;
      },
      xs ++ create_alert now d rule ∷ [],
    )
unfolding check_rule
check_rule_fires m now d rule xs e = rw e

check_rules-cons :
    (now : ℕ) (d : Sample) (rule : AlertRule) (rules : List AlertRule)
    (s : AlertManager × List Alert)
    → check_rules now d (rule ∷ rules) s ≡ check_rules now d rules (check_rule now d rule s)
unfolding check_rules
check_rules-cons now d rule rules s = refl

check_rules-nil :
    (now : ℕ) (d : Sample) (s : AlertManager × List Alert) → check_rules now d [] s ≡ s
unfolding check_rules
check_rules-nil now d s = refl

check_rules-due :
    (m n : AlertManager) (now : ℕ) (d : Sample) (rules : List AlertRule) (xs : List Alert)
    → HasDistinctIds rules
    → Agrees m n rules
    → ((check_rules now d rules (n, xs)).1 ≡ xs ++ due m now d rules)
      × ((check_rules now d rules (n, xs)).0.alerts ≡ n.alerts ++ due m now d rules)
check_rules-due m n now d [] xs h k =
    rw (check_rules-nil now d (n, xs)) (rw append-nil, rw append-nil)
check_rules-due m n now d (rule ∷ rules) xs (apart, h) (e, k) =
    let same = should_trigger_alert_of_Agrees m n now rule d e in
    elim (Bool-cases (should_trigger_alert m now rule d)) [
      | inr quiet ↦
          rw (check_rules-cons, check_rule_quiet n now d rule xs (same ∙ quiet), quiet)
            (check_rules-due m n now d rules xs h k)
      | inl fires ↦
          let b : Alert = create_alert now d rule in
          let n' : AlertManager = record n {
            alerts = n.alerts ++ b ∷ [];
            last_alert_time = insert rule.id now n.last_alert_time;
          } in
          let k' = Agrees-insert m n rule now n'.alerts rules apart k in
          let (p, q) = check_rules-due m n' now d rules (xs ++ b ∷ []) h k' in
          rw (check_rules-cons, check_rule_fires n now d rule xs (same ∙ fires), fires)
            (p ∙ append_assoc xs (b ∷ []) _, q ∙ append_assoc n.alerts (b ∷ []) _)
    ]

-- With distinct identifiers, a check returns exactly one alert for each rule of the category that
-- triggers in the state before it, in the order of the rules, and appends them to the stored ones.
pub check_category-due :
    (category : String) (d : Sample) (now : ℕ) (m : AlertManager)
    → HasDistinctIds (filter (λ r. str_eq r.category category) m.alert_rules)
    → ((check_category category d now m).1
        ≡ due m now d (filter (λ r. str_eq r.category category) m.alert_rules))
      × ((check_category category d now m).0.alerts
          ≡ m.alerts ++ (check_category category d now m).1)
unfolding check_category
check_category-due category d now m h =
    let (p, q) = check_rules-due m m now d _ [] h (Agrees-self m _) in (p, rw p q)
