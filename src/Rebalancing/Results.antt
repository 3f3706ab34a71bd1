-- ===== src/Rebalancing/Results.antt =====
-- What a round of the rebalancer records: automated checks and manual triggers.
use stake_basket.Prelude.{
  none, ℕ, ◌≡◌, true, false, ◌&&◌, ◌||◌, refl, some, String, [], Ratio, ◌over◌, less, arith,
}
use stake_basket.Monitoring.{ValidatorMetrics}
use stake_basket.Rebalancing.Advice.{generate_recommendation-causes}
use stake_basket.Rebalancing.{
  inactive_ratio_of, Thresholds, Checked, measured, thrown, generate_recommendation, check_result,
  manual_result,
}

-- Whatever happens, a result that did not execute claims no improvement, carries no transaction and
-- names no target; this holds of automated checks and of manual triggers, thrown errors included.
unexecuted_claims_nothing :
    (thresholds : Thresholds) (checked : Checked) (random : Ratio) (hash : String) (now : ℕ)
    → let a = check_result thresholds checked random hash now in
      let b = manual_result checked random hash now in
      (a.executed ≡ false → (a.improvement ≡ 0 over 1) × (a.tx_hash ≡ none) × (a.changed_to ≡ []))
      × (b.executed ≡ false → (b.improvement ≡ 0 over 1) × (b.tx_hash ≡ none) × (b.changed_to ≡ []))
unfolding check_result manual_result
unexecuted_claims_nothing thresholds (thrown message) random hash now = ground arith
unexecuted_claims_nothing thresholds (measured m) random hash now = ground arith

-- That the metrics were read and that a rebalancing is due by them: the performance is below 80, the
-- uptime below 95, or more than a fifth of the validators inactive.
abbrev pub IsDue : Checked → Type 0
IsDue checked =
    (m : ValidatorMetrics) × (checked ≡ measured m)
    × ((less m.average_performance (80 over 1)
          || less m.average_uptime (95 over 1)
          || less (2 over 10) (inactive_ratio_of m))
        ≡ true)

executed-IsDue :
    (thresholds : Thresholds) (checked : Checked) (random : Ratio) (hash : String) (now : ℕ)
    → (check_result thresholds checked random hash now).executed ≡ true
    → IsDue checked
unfolding check_result
executed-IsDue thresholds (thrown message) random hash now h = cc
executed-IsDue thresholds (measured m) random hash now h =
    (m, refl, rw (← generate_recommendation-causes m) (ground (h, arith)))

-- What an automated check and a manual trigger record in the same situation, thrown errors included.
-- An automated check that executed had metrics by which a rebalancing is due, claims no improvement below
-- the threshold and carries the transaction, and the manual trigger executes as well, with the same
-- improvement and transaction. One that did not execute claims no improvement, carries no transaction and
-- names no target.
pub check_result-accounts :
    (thresholds : Thresholds) (checked : Checked) (random : Ratio) (hash : String) (now : ℕ)
    → let a = check_result thresholds checked random hash now in
      let b = manual_result checked random hash now in
      (a.executed ≡ true
        → IsDue checked
          × (less a.improvement thresholds.min_improvement ≡ false)
          × (a.tx_hash ≡ some hash)
          × (b.executed ≡ true)
          × (b.improvement ≡ a.improvement)
          × (b.tx_hash ≡ a.tx_hash))
      × (a.executed ≡ false → (a.improvement ≡ 0 over 1) × (a.tx_hash ≡ none) × (a.changed_to ≡ []))
unfolding check_result manual_result
check_result-accounts thresholds (thrown message) random hash now = (λ h. cc, ground arith)
check_result-accounts thresholds (measured m) random hash now = (
  λ h. (
    executed-IsDue thresholds (measured m) random hash now h,
    ground (h, arith),
    ground (h, arith),
    ground (h, arith),
    ground (h, arith),
    ground (h, arith),
  ),
  ground arith,
)

-- A manual trigger executes whenever an automated check would, and also below the threshold.
manual_result-executed :
    (thresholds : Thresholds) (m : ValidatorMetrics) (random : Ratio) (hash : String) (now : ℕ)
    → ((manual_result (measured m) random hash now).executed
        ≡ ((generate_recommendation m).should_rebalance && less (1 over 10) random))
      × ((check_result thresholds (measured m) random hash now).executed ≡ true
          → (manual_result (measured m) random hash now).executed ≡ true)
unfolding check_result manual_result
manual_result-executed thresholds m random hash now = ground arith
