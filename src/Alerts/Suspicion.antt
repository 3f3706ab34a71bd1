-- ===== src/Alerts/Suspicion.antt =====
-- `checkSuspiciousActivity` of AlertManager. `to_fixed` is the language's printing of a number by its
-- sign, its size and the digits after the point; `random` is what `Math.random()` returned.
use stake_basket.Prelude.{
  ℕ, ◌*◌, ◌<◌, ◌≡◌, Bool, false, ◌||◌, ◌&&◌, String, List, [], ◌∷◌, ◌++◌, length, arith, Ratio,
  ◌over◌, less, times, distance, ltb, if◌then◌else◌,
}
use Prim.Native.String
use stake_basket.Monitoring.{ContractMetrics}
use stake_basket.AlertRules.{Alert, warning, missing}
use stake_basket.Alerts.{AlertManager, add_custom_alert}

-- `calculateNAVChange`: whether the change is negative, and its size
unfoldable pub calculate_nav_change : Ratio → Bool × Ratio
calculate_nav_change random =
    (less random (1 over 2), times (distance random (1 over 2)) (1 over 10))

module _ (to_fixed : Bool → Ratio → ℕ → String) where
  check_transactions : ContractMetrics → ℕ → AlertManager × List Alert → AlertManager × List Alert
  check_transactions metrics now (m, alerts) =
      let deposit_ratio = metrics.transaction_count.deposits over metrics.transaction_count.total in
      let (m', alert) =
        add_custom_alert warning "security" "Unusual Transaction Pattern"
          (String.◌++◌ "Deposit ratio is " (
            String.◌++◌ (to_fixed false (times deposit_ratio (100 over 1)) 1)
              "% - possibly suspicious activity"))
          missing now m in
      if ltb 100 metrics.transaction_count.total
      then if less (9 over 10) deposit_ratio || less deposit_ratio (1 over 10)
        then (m', alerts ++ alert ∷ [])
        else (m, alerts)
      else (m, alerts)

  check_nav : Ratio → ℕ → AlertManager × List Alert → AlertManager × List Alert
  unfolding calculate_nav_change
  check_nav random now (m, alerts) =
      let (negative, size) = calculate_nav_change random in
      let (m', alert) =
        add_custom_alert warning "security" "Rapid NAV Change"
          (String.◌++◌ "NAV changed by "
            (String.◌++◌ (to_fixed negative (times size (100 over 1)) 2) "% rapidly"))
          missing now m in
      if less (5 over 100) size then (m', alerts ++ alert ∷ []) else (m, alerts)

  unfoldable pub check_suspicious_activity :
      ContractMetrics → Ratio → ℕ → AlertManager → AlertManager × List Alert
  unfolding check_transactions check_nav
  check_suspicious_activity metrics random now m =
      check_nav random now (check_transactions metrics now (m, []))

  nav_quiet :
      (random : Ratio) (now : ℕ) (s : AlertManager × List Alert)
      → random.num < random.den
      → check_nav random now s ≡ s
  unfolding check_nav
  nav_quiet random now s h = ground arith

  -- The NAV alert is out of reach: for every number in [0, 1) from `Math.random()`, the check raises
  -- at most one alert, and it raises one exactly for more than 100 transactions of which more than
  -- 90% or less than 10% are deposits.
  suspicious_activity_without_nav :
      (metrics : ContractMetrics) (random : Ratio) (now : ℕ) (m : AlertManager)
      → random.num < random.den
      → length (check_suspicious_activity metrics random now m).1 ≡ (
          let t = metrics.transaction_count in
          if ltb 100 t.total
            && (ltb (9 * t.total) (10 * t.deposits) || ltb (10 * t.deposits) t.total)
          then 1
          else 0)
  unfolding check_suspicious_activity
  suspicious_activity_without_nav metrics random now m h =
      rw (nav_quiet random now _ h) (ground arith)
