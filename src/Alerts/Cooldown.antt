-- ===== src/Alerts/Cooldown.antt =====
-- Cooldowns: whatever is called, two alerts of one rule are the rule's cooldown apart.
use stake_basket.Prelude.{
  ◌∙◌, ℕ, ◌+◌, ◌≤◌, ◌<◌, ◌≡◌, ◌≢◌, refl, ◌⊎◌, inl, inr, true, none, some, String, List, [], ◌∷◌,
  ◌++◌, arith, Dict, lookup, insert, lookup-insert, eq_iff, Bool-cases, All, All-append, find,
  str_eq,
}
use stake_basket.AlertRules.{Alert, AlertRule, Sample}
use stake_basket.Alerts.{AlertManager, minutes, should_trigger_alert}

-- the cooldown of the first rule with the identifier, in milliseconds
abbrev pub cooldown_of : List AlertRule → String → ℕ
cooldown_of rules id = elim (find (λ r. str_eq r.id id) rules) [
  | none ↦ 0
  | some rule ↦ minutes rule.cooldown
]

-- Two alerts of one rule are at least its cooldown apart.
abbrev pub Apart : (String → ℕ) → Alert → Alert → Type 0
Apart gap a b =
    a.id.0 ≡ b.id.0
    → (a.timestamp + gap a.id.0 ≤ b.timestamp) ⊎ (b.timestamp + gap a.id.0 ≤ a.timestamp)

abbrev pub Spaced : (String → ℕ) → List Alert → Type 0
Spaced gap [] = Unit
Spaced gap (a ∷ xs) = All (Apart gap a) xs × Spaced gap xs

-- A rule's alert is not later than the time kept for the rule.
abbrev pub Seen : Dict ℕ → Alert → Type 0
Seen times a =
    (a.id.0 ≡ "custom") ⊎ ((s : ℕ) × (lookup a.id.0 times ≡ some s) × (0 < s) × (a.timestamp ≤ s))

module _ (gap : String → ℕ) where
  pub Spaced-snoc :
      (xs : List Alert) (b : Alert)
      → Spaced gap xs
      → All (λ a. Apart gap a b) xs
      → Spaced gap (xs ++ b ∷ [])
  Spaced-snoc [] b h k = (tt, tt)
  Spaced-snoc (a ∷ xs) b (near, h) (p, k) =
      (All-append (Apart gap a) xs (b ∷ []) near (p, tt), Spaced-snoc xs b h k)

  abbrev pub Governs : AlertRule → Type 0
  Governs r = (gap r.id ≡ minutes r.cooldown) × (r.id ≢ "custom")

  abbrev pub IsKept : AlertManager → Type 0
  IsKept m = All (Seen m.last_alert_time) m.alerts × Spaced gap m.alerts

  Seen-insert :
      (times : Dict ℕ) (rule : AlertRule) (now : ℕ) (a : Alert)
      → 0 < now
      → ((s : ℕ) → lookup rule.id times ≡ some s → 0 < s → s ≤ now)
      → Seen times a
      → Seen (insert rule.id now times) a
  Seen-insert times rule now a pos later (inl c) = inl c
  Seen-insert times rule now a pos later (inr (s, found, ps, le)) =
      elim (Bool-cases (str_eq rule.id a.id.0)) [
        | inl hit ↦
            let e : rule.id ≡ a.id.0 = (eq_iff _ _).0 hit in
            let le' : s ≤ now = later s (rw e found) ps in
            inr (now, rw (lookup-insert, hit) refl, pos, omega arith)
        | inr other ↦ inr (s, rw (lookup-insert, other) found, ps, le)
      ]

  pub Seen-All-insert :
      (times : Dict ℕ) (rule : AlertRule) (now : ℕ) (xs : List Alert)
      → 0 < now
      → ((s : ℕ) → lookup rule.id times ≡ some s → 0 < s → s ≤ now)
      → All (Seen times) xs
      → All (Seen (insert rule.id now times)) xs
  Seen-All-insert times rule now [] pos later h = tt
  Seen-All-insert times rule now (a ∷ xs) pos later (p, h) =
      (Seen-insert times rule now a pos later p, Seen-All-insert times rule now xs pos later h)

  -- The alert of a rule that is no longer cooling is apart from every earlier one.
  pub Apart-new :
      (times : Dict ℕ) (rule : AlertRule) (now : ℕ) (b : Alert) (xs : List Alert)
      → Governs rule
      → b.id.0 ≡ rule.id
      → b.timestamp ≡ now
      → ((s : ℕ) → lookup rule.id times ≡ some s → 0 < s → s + minutes rule.cooldown ≤ now)
      → All (Seen times) xs
      → All (λ a. Apart gap a b) xs
  Apart-new times rule now b [] g same_id at later h = tt
  Apart-new times rule now b (a ∷ xs) g same_id at later (inl c, h) =
      (λ e. absurd (g.1 (cc)), Apart-new times rule now b xs g same_id at later h)
  Apart-new times rule now b (a ∷ xs) g same_id at later (inr (s, found, ps, le), h) = (
    λ e.
        let here : a.id.0 ≡ rule.id = e ∙ same_id in
        let l : s + minutes rule.cooldown ≤ now = later s (rw (← here) found) ps in
        let k : gap a.id.0 ≡ minutes rule.cooldown = rw here g.0 in inl (omega arith),
    Apart-new times rule now b xs g same_id at later h,
  )

  -- A rule that triggers has no recent time.
  pub trigger_later :
      (m : AlertManager) (now : ℕ) (rule : AlertRule) (d : Sample)
      → should_trigger_alert m now rule d ≡ true
      → (s : ℕ) → lookup rule.id m.last_alert_time ≡ some s
      → 0 < s
      → s + minutes rule.cooldown ≤ now
  unfolding should_trigger_alert
  trigger_later m now rule d h s found ps = ground arith
