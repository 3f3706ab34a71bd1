-- ===== src/Alerts/Upkeep.antt =====
-- Acknowledging, statistics and clean-up.
use stake_basket.Prelude.{
  count-append, ◌∙◌, ℕ, zero, suc, ◌+◌, ◌≤◌, ◌≡◌, refl, Bool, true, false, not, ◌&&◌, none, some,
  String, List, [], ◌∷◌, ◌++◌, arith, find, count, update_first, any, filter, length, if◌then◌else◌,
  ltb, Bool-cases, inl, inr, ap,
}
use stake_basket.AlertRules.{Alert, Severity, Payload}
use stake_basket.Alerts.{
  AlertManager, acknowledge_alert, has_id, mark, get_alert_stats, clear_old_alerts,
  add_custom_alert, is_critical, is_error, is_warning,
}

severities :
    (xs : List Alert)
    → count (λ a. is_critical a.severity) xs
        + count (λ a. is_error a.severity) xs
        + count (λ a. is_warning a.severity) xs
      ≡ length xs
severities [] = omega arith
severities (a ∷ xs) = ground (arith, severities xs)

-- The three severities of the statistics add up to the total, whatever the time.
get_alert_stats-total :
    (now : ℕ) (m : AlertManager)
    → let s = get_alert_stats now m in s.critical + s.errors + s.warnings ≡ s.total
unfolding get_alert_stats
get_alert_stats-total now m = severities m.alerts

update_first-none :
    (id : String × ℕ) (xs : List Alert)
    → find (has_id id) xs ≡ none
    → (update_first (has_id id) mark xs ≡ xs) × (any (has_id id) xs ≡ false)
update_first-none id [] h = (refl, refl)
update_first-none id (a ∷ xs) h = elim (Bool-cases (has_id id a)) [
  | inl hit ↦ absurd (ground arith)
  | inr miss ↦ let (p, q) = update_first-none id xs (ground arith) in rw miss (ap (◌∷◌ a) p, q)
]

update_first-some :
    (id : String × ℕ) (xs : List Alert) (a : Alert)
    → find (has_id id) xs ≡ some a
    → (any (has_id id) xs ≡ true)
      × (count (λ b. not b.acknowledged) (update_first (has_id id) mark xs)
            + (if a.acknowledged then 0 else 1)
          ≡ count (λ b. not b.acknowledged) xs)
update_first-some id [] a h = cc
update_first-some id (b ∷ xs) a h = elim (Bool-cases (has_id id b)) [
  | inl hit ↦ ground arith
  | inr miss ↦ let ih = update_first-some id xs a (ground arith) in ground arith
]

-- Acknowledging an identifier that no alert has reports failure and changes nothing.
acknowledge_alert_missing :
    (id : String × ℕ) (m : AlertManager)
    → find (has_id id) m.alerts ≡ none
    → acknowledge_alert id m ≡ (m, false)
unfolding acknowledge_alert
acknowledge_alert_missing id m h =
    let (p, q) = update_first-none id m.alerts h in λ i. (record m { alerts = p i }, q i)

-- Acknowledging reports success if an alert has the identifier, and lowers the unacknowledged count
-- by one exactly if the first such alert was not yet acknowledged; the total stays.
acknowledge_alert_counts :
    (id : String × ℕ) (m : AlertManager) (a : Alert) (now : ℕ)
    → find (has_id id) m.alerts ≡ some a
    → ((acknowledge_alert id m).1 ≡ true)
      × ((get_alert_stats now (acknowledge_alert id m).0).unacknowledged
            + (if a.acknowledged then 0 else 1)
          ≡ (get_alert_stats now m).unacknowledged)
unfolding acknowledge_alert get_alert_stats
acknowledge_alert_counts id m a now h = update_first-some id m.alerts a h

update_first_twice :
    (id : String × ℕ) (xs : List Alert)
    → update_first (has_id id) mark (update_first (has_id id) mark xs)
      ≡ update_first (has_id id) mark xs
update_first_twice id [] = refl
update_first_twice id (a ∷ xs) = elim (Bool-cases (has_id id a)) [
  | inl hit ↦ rw (hit, hit)
  | inr miss ↦ rw (miss, miss) (ap (◌∷◌ a) (update_first_twice id xs))
]

pub acknowledge_times : ℕ → String × ℕ → AlertManager → AlertManager
acknowledge_times zero id m = m
acknowledge_times (suc n) id m = acknowledge_times n id (acknowledge_alert id m).0

-- an alert with the identifier that nobody has acknowledged
abbrev pub is_open : String × ℕ → Alert → Bool
is_open id a = has_id id a && not a.acknowledged

update_first-is_open :
    (id : String × ℕ) (xs : List Alert)
    → count (is_open id) xs ≤ count (is_open id) (update_first (has_id id) mark xs) + 1
update_first-is_open id [] = omega arith
update_first-is_open id (a ∷ xs) = ground (arith, update_first-is_open id xs)

-- Acknowledging an identifier again changes nothing.
pub acknowledge_alert_twice :
    (id : String × ℕ) (m : AlertManager)
    → (acknowledge_alert id (acknowledge_alert id m).0).0 ≡ (acknowledge_alert id m).0
unfolding acknowledge_alert
acknowledge_alert_twice id m = ap (λ xs. record m { alerts = xs }) (update_first_twice id m.alerts)

acknowledge_times-suc :
    (n : ℕ) (id : String × ℕ) (m : AlertManager)
    → acknowledge_times (suc n) id m ≡ (acknowledge_alert id m).0
unfolding acknowledge_times
acknowledge_times-suc zero id m = refl
acknowledge_times-suc (suc n) id m =
    acknowledge_times-suc n id (acknowledge_alert id m).0 ∙ acknowledge_alert_twice id m

acknowledge_times-is_open :
    (n : ℕ) (id : String × ℕ) (m : AlertManager)
    → count (is_open id) m.alerts ≤ count (is_open id) (acknowledge_times n id m).alerts + 1
unfolding acknowledge_times
acknowledge_times-is_open zero id m = omega arith
acknowledge_times-is_open (suc n) id m =
    rw (acknowledge_times-suc n id m) (unfold acknowledge_alert in update_first-is_open id m.alerts)

-- Two custom alerts of one millisecond share their identifier: however often it is acknowledged, one
-- of them stays open.
custom_twins_stay_open :
    (n : ℕ) (s t : Severity) (c d title title' message message' : String) (p q : Payload) (now : ℕ)
    (m : AlertManager)
    → let once = (add_custom_alert s c title message p now m).0 in
      let twice = (add_custom_alert t d title' message' q now once).0 in
      1 ≤ count (is_open ("custom", now)) (acknowledge_times n ("custom", now) twice).alerts
unfolding add_custom_alert
custom_twins_stay_open n s t c d title title' message message' p q now m =
    let once = (add_custom_alert s c title message p now m).0 in
    let twice = (add_custom_alert t d title' message' q now once).0 in
    let id : String × ℕ = ("custom", now) in
    let kept = acknowledge_times-is_open n id twice in
    let b : Alert = (add_custom_alert t d title' message' q now once).1 in
    let a : Alert = (add_custom_alert s c title message p now m).1 in
    let open_a : count (is_open id) (a ∷ []) ≡ 1 = ground arith in
    let open_b : count (is_open id) (b ∷ []) ≡ 1 = ground arith in
    omega (
      arith,
      kept,
      open_a,
      open_b,
      count-append (is_open id) (m.alerts ++ a ∷ []) (b ∷ []),
      count-append (is_open id) m.alerts (a ∷ []),
    )

-- A second clean-up with the same age, not earlier than the first, makes the first one superfluous.
clear_old_alerts_absorbs :
    (max_age first second : ℕ) (m : AlertManager)
    → first ≤ second
    → clear_old_alerts max_age second (clear_old_alerts max_age first m)
      ≡ clear_old_alerts max_age second m
unfolding clear_old_alerts
clear_old_alerts_absorbs max_age first second m h =
    λ i. record m { alerts = later_filter m.alerts i }
  where
    later_filter :
        (xs : List Alert)
        → filter
            (λ a. ltb second (a.timestamp + max_age))
            (filter (λ a. ltb first (a.timestamp + max_age)) xs)
          ≡ filter (λ a. ltb second (a.timestamp + max_age)) xs
    later_filter [] = refl
    later_filter (a ∷ xs) = ground (arith, later_filter xs)
