-- ===== src/Alerts/Sessions.antt =====
-- The cooldown law over whole sessions of calls.
use stake_basket.Prelude.{
  leb, ne_of_str_eq, ap, sym, ℕ, ◌<◌, ◌≡◌, refl, inl, inr, none, some, String, List, [], ◌∷◌, arith,
  lookup-insert, eq_refl, Bool-cases, All, All-append, All-filter, filter, update_first, sort_down,
  put_down, put_down-All, sort_down-All,
}
use stake_basket.AlertRules.{Alert, AlertRule, Sample, alert_rules}
use stake_basket.Alerts.{
  Bool, AlertManager, new, check_rule, check_rules, check_category, should_trigger_alert,
  create_alert, get_alerts, acknowledge_alert, mark, clear_old_alerts, add_custom_alert,
  check_contract_alerts, check_validator_alerts, check_price_alerts,
}
use stake_basket.Alerts.Calls.{
  Call, check_contract, check_validator, check_price, list_alerts, acknowledge, clear_old, custom,
  apply, run_from, IsDated,
}
use stake_basket.Alerts.Cooldown.{
  cooldown_of, Apart, Spaced, Seen, Spaced-snoc, Governs, IsKept, Seen-All-insert, Apart-new,
  trigger_later,
}

module _ (gap : String → ℕ) where
  abbrev IsSound : AlertManager → Type 0
  IsSound m = All (Governs gap) m.alert_rules × IsKept gap m

  check_rule-IsSound :
      (now : ℕ) (d : Sample) (rule : AlertRule) (m : AlertManager) (xs : List Alert)
      → 0 < now
      → Governs gap rule
      → IsSound m
      → IsSound (check_rule now d rule (m, xs)).0
  unfolding check_rule create_alert
  check_rule-IsSound now d rule m xs pos g (rules, (seen, spaced)) =
      elim (Bool-cases (should_trigger_alert m now rule d)) [
        | inr quiet ↦ rw quiet (rules, (seen, spaced))
        | inl fires ↦
            let later = trigger_later gap m now rule d fires in
            let b : Alert = create_alert now d rule in
            let earlier =
              Seen-All-insert gap m.last_alert_time rule now m.alerts pos
                (λ s e p. let l = later s e p in omega arith) seen in
            rw fires (
              rules,
              (
                All-append (Seen _) m.alerts (b ∷ []) earlier
                    (inr (now, rw (lookup-insert, eq_refl) refl, pos, omega arith), tt),
                Spaced-snoc gap m.alerts b spaced
                    (Apart-new gap m.last_alert_time rule now b m.alerts g refl refl later seen),
              ),
            )
      ]

  check_rules-IsSound :
      (now : ℕ) (d : Sample) (rules : List AlertRule) (m : AlertManager) (xs : List Alert)
      → 0 < now
      → All (Governs gap) rules
      → IsSound m
      → IsSound (check_rules now d rules (m, xs)).0
  unfolding check_rules
  check_rules-IsSound now d [] m xs pos g h = h
  check_rules-IsSound now d (rule ∷ rules) m xs pos (g, gs) h =
      let (m', xs') = check_rule now d rule (m, xs) in
      check_rules-IsSound now d rules m' xs' pos gs (check_rule-IsSound now d rule m xs pos g h)

  check_category-IsSound :
      (category : String) (d : Sample) (now : ℕ) (m : AlertManager)
      → 0 < now
      → IsSound m
      → IsSound (check_category category d now m).0
  unfolding check_category
  check_category-IsSound category d now m pos h =
      check_rules-IsSound now d _ m [] pos (All-filter (Governs gap) _ m.alert_rules h.0) h

  Apart-symm : (a b : Alert) → Apart gap a b → Apart gap b a
  Apart-symm a b h e =
      let back : a.id.0 ≡ b.id.0 = sym e in
      let same : gap a.id.0 ≡ gap b.id.0 = ap gap back in
      elim (h back) [ inl p ↦ inr (omega arith) | inr p ↦ inl (omega arith) ]

  Apart-All_symm :
      (a : Alert) (xs : List Alert) → All (λ b. Apart gap b a) xs → All (Apart gap a) xs
  Apart-All_symm a [] h = tt
  Apart-All_symm a (b ∷ xs) (p, h) = (Apart-symm b a p, Apart-All_symm a xs h)

  put_down-Spaced :
      (key : Alert → ℕ) (a : Alert) (xs : List Alert)
      → All (Apart gap a) xs
      → Spaced gap xs
      → Spaced gap (put_down key a xs)
  unfolding put_down
  put_down-Spaced key a [] h k = (tt, tt)
  put_down-Spaced key a (b ∷ xs) (p, h) (q, k) = elim (Bool-cases (leb (key b) (key a))) [
    | inl low ↦ rw low ((p, h), (q, k))
    | inr high ↦
        rw high
          (put_down-All key (Apart gap b) a xs (Apart-symm a b p) q, put_down-Spaced key a xs h k)
  ]

  sort_down-Spaced :
      (key : Alert → ℕ) (xs : List Alert) → Spaced gap xs → Spaced gap (sort_down key xs)
  unfolding sort_down
  sort_down-Spaced key [] h = tt
  sort_down-Spaced key (a ∷ xs) (p, h) =
      put_down-Spaced key a (sort_down key xs) (sort_down-All key (Apart gap a) xs p)
        (sort_down-Spaced key xs h)

  filter-Spaced : (p : Alert → Bool) (xs : List Alert) → Spaced gap xs → Spaced gap (filter p xs)
  filter-Spaced p [] h = tt
  filter-Spaced p (a ∷ xs) (near, h) =
      ground (arith, All-filter (Apart gap a) p xs near, filter-Spaced p xs h)

  mark-All :
      (P : Alert → Type 0) (q : Alert → Bool) (xs : List Alert)
      → ((a : Alert) → P a → P (mark a))
      → All P xs
      → All P (update_first q mark xs)
  mark-All P q [] f h = tt
  mark-All P q (a ∷ xs) f (p, h) = elim (Bool-cases (q a)) [
    | inl hit ↦ rw hit (f a p, h)
    | inr miss ↦ rw miss (p, mark-All P q xs f h)
  ]

  mark-Spaced :
      (q : Alert → Bool) (xs : List Alert) → Spaced gap xs → Spaced gap (update_first q mark xs)
  mark-Spaced q [] h = tt
  mark-Spaced q (a ∷ xs) (near, h) = elim (Bool-cases (q a)) [
    | inl hit ↦ rw hit (near, h)
    | inr miss ↦ rw miss (mark-All (Apart gap a) q xs (λ b p. p) near, mark-Spaced q xs h)
  ]

  Apart-untimed : (b : Alert) (xs : List Alert) → gap b.id.0 ≡ 0 → All (λ a. Apart gap a b) xs
  Apart-untimed b [] z = tt
  Apart-untimed b (a ∷ xs) z =
      (λ e. let zero_gap : gap a.id.0 ≡ 0 = rw e z in omega arith, Apart-untimed b xs z)

  apply-IsSound :
      (c : Call) (m : AlertManager) → gap "custom" ≡ 0 → IsDated c → IsSound m → IsSound (apply c m)
  unfolding apply get_alerts acknowledge_alert clear_old_alerts add_custom_alert
      check_contract_alerts check_validator_alerts check_price_alerts
  apply-IsSound (check_contract metrics now) m z d h = check_category-IsSound _ _ now m d h
  apply-IsSound (check_validator metrics now) m z d h = check_category-IsSound _ _ now m d h
  apply-IsSound (check_price prices now) m z d h = check_category-IsSound _ _ now m d h
  apply-IsSound (list_alerts limit none) m z d (rules, (seen, spaced)) =
      (rules, (sort_down-All _ _ m.alerts seen, sort_down-Spaced _ m.alerts spaced))
  apply-IsSound (list_alerts limit (some b)) m z d h = h
  apply-IsSound (acknowledge id) m z d (rules, (seen, spaced)) = (
    rules,
    (mark-All (Seen m.last_alert_time) _ m.alerts (λ a p. p) seen, mark-Spaced _ m.alerts spaced),
  )
  apply-IsSound (clear_old max_age now) m z d (rules, (seen, spaced)) =
      (rules, (All-filter _ _ m.alerts seen, filter-Spaced _ m.alerts spaced))
  apply-IsSound (custom severity category title message payload now) m z d (rules, (seen, spaced)) =
      let (m', b) = add_custom_alert severity category title message payload now m in
      (
        rules,
        (
          All-append _ m.alerts (b ∷ []) seen (inl refl, tt),
          Spaced-snoc gap m.alerts b spaced (Apart-untimed b m.alerts z),
        ),
      )

  run_from-IsSound :
      (m : AlertManager) (cs : List Call)
      → gap "custom" ≡ 0
      → All IsDated cs
      → IsSound m
      → IsSound (run_from m cs)
  unfolding run_from
  run_from-IsSound m [] z d h = h
  run_from-IsSound m (c ∷ cs) z (d, ds) h =
      run_from-IsSound (apply c m) cs z ds (apply-IsSound c m z d h)

custom_untimed : cooldown_of alert_rules "custom" ≡ 0
unfolding alert_rules
custom_untimed = refl

alert_rules-Governs : All (Governs (cooldown_of alert_rules)) alert_rules
unfolding alert_rules
alert_rules-Governs = (
  (refl, ne_of_str_eq _ _ refl),
  (
    (refl, ne_of_str_eq _ _ refl),
    (
      (refl, ne_of_str_eq _ _ refl),
      (
        (refl, ne_of_str_eq _ _ refl),
        (
          (refl, ne_of_str_eq _ _ refl),
          (
            (refl, ne_of_str_eq _ _ refl),
            (
              (refl, ne_of_str_eq _ _ refl),
              (
                (refl, ne_of_str_eq _ _ refl),
                ((refl, ne_of_str_eq _ _ refl), ((refl, ne_of_str_eq _ _ refl), tt)),
              ),
            ),
          ),
        ),
      ),
    ),
  ),
)

-- After any session of calls on a new manager, whatever the clock shows, any two stored alerts of
-- one rule are at least the rule's cooldown apart, if no check runs at time 0.
pub run_from-Spaced :
    (cs : List Call) → All IsDated cs → Spaced (cooldown_of alert_rules) (run_from new cs).alerts
run_from-Spaced cs d =
    (run_from-IsSound (cooldown_of alert_rules) new cs custom_untimed d
      (unfold new in (alert_rules-Governs, (tt, tt)))).1.1
