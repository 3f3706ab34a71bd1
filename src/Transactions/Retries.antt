-- ===== src/Transactions/Retries.antt =====
-- How often an operation is offered again.
use stake_basket.Prelude.{
  ◌∙◌, ◌∙◌, ℕ, zero, suc, ◌+◌, ◌≤◌, ◌≡◌, refl, ap, Bool, true, false, ◌&&◌, not, ◌⊎◌, inl, inr,
  Option, none, some, String, ◌==◌, if◌then◌else◌, arith, Bool-cases,
}
use stake_basket.TransactionErrors.{
  insufficient_funds, insufficient_gas, gas_limit_exceeded, network_error, contract_error,
  allowance_error, slippage_error, nonce_error, connection_error, permanent_failure, unknown_error,
  analyze_transaction_error, TransactionErrorType, user_rejected, RawError, error_type,
  is_actionable,
}
use stake_basket.TransactionErrors.Handling.{
  Toast, Attempt, returned, threw, handle_transaction_error, is_rejection,
}
use stake_basket.Transactions.{
  Tracking, Outcome, attempt, conclude, reset_handled, should_retry, is_retryable, toast_of,
  max_retries,
}

abbrev pub offered : Option Toast → Bool
offered none = false
offered (some toast) = toast.offers_retry

module _ {C : Type 0} where
  -- A user who takes every retry that is offered: how often the operation runs, and how it ends. The
  -- submissions are numbered.
  unfoldable pub settle :
      String → ℕ → (ℕ → Attempt C) → Tracking → Option (ℕ × Tracking × Outcome C)
  settle context zero submissions t = none
  settle context (suc rounds) submissions t =
      let step = attempt context (submissions 0) t in
      let rest = settle context rounds (λ n. submissions (suc n)) step.0 in
      if offered step.1.toast
      then elim rest [ none ↦ none | some r ↦ some (suc r.0, r.1, r.2) ]
      else some (1, step.0, step.1)

retryable_offers :
    (kind : TransactionErrorType)
    → is_retryable kind ≡ true
    → (is_actionable kind && true && not (is_rejection kind)) ≡ true
retryable_offers network_error h = refl
retryable_offers nonce_error h = refl
retryable_offers insufficient_gas h = refl
retryable_offers user_rejected h = ground arith
retryable_offers permanent_failure h = ground arith
retryable_offers insufficient_funds h = refl
retryable_offers gas_limit_exceeded h = refl
retryable_offers contract_error h = refl
retryable_offers allowance_error h = refl
retryable_offers slippage_error h = refl
retryable_offers connection_error h = refl
retryable_offers unknown_error h = refl

toast_with_retry :
    (context : String) (e : RawError)
    → is_retryable (error_type e) ≡ true
    → offered (toast_of context true e) ≡ true
unfolding handle_transaction_error analyze_transaction_error
toast_with_retry context e h = retryable_offers (error_type e) h

and_false : (a b : Bool) → (a && false && b) ≡ false
and_false a b = ground arith

pub toast_without_retry :
    (context : String) (e : RawError) → offered (toast_of context false e) ≡ false
unfolding handle_transaction_error analyze_transaction_error
toast_without_retry context e =
    and_false (is_actionable (error_type e)) (not (is_rejection (error_type e)))

module _ {C : Type 0} where
  -- How a call ends: with the call that the wallet was given and nothing to show, or with a notification,
  -- and without a call. In that case an error of the user is kept, another try is offered, or the error
  -- is thrown again.
  abbrev pub Reports : Attempt C → Outcome C → Type 0
  Reports submission o =
      ((call : C) × (submission ≡ returned call)
        × (o.submitted ≡ some call)
        × (o.toast ≡ none)
        × (o.rethrown ≡ none))
      ⊎ ((e : RawError) × (toast : Toast) × (submission ≡ threw e)
          × (o.submitted ≡ none)
          × (o.toast ≡ some toast)
          × ((is_rejection (error_type e) ≡ true)
              ⊎ (toast.offers_retry ≡ true)
              ⊎ (o.rethrown ≡ some e)))

retries_allow :
    (e : RawError) (t : Tracking) → should_retry e t ≡ true → is_retryable (error_type e) ≡ true
retries_allow e t h = ground arith

retries_below :
    (e : RawError) (t : Tracking) → should_retry e t ≡ true → suc t.retry_attempts ≤ max_retries
retries_below e t h = ground arith

final_reports :
    (e : RawError) (b : Bool)
    → is_rejection (error_type e) ≡ b
    → (is_rejection (error_type e) ≡ true) ⊎ ((if b then none else some e) ≡ some e)
final_reports e true h = inl h
final_reports e false h = inr refl

reset_handled-retries : (t : Tracking) → (reset_handled t).retry_attempts ≡ t.retry_attempts
unfolding reset_handled
reset_handled-retries t = elim (Bool-cases (t.retry_attempts == 0)) [
  | inl h ↦ rw h refl
  | inr h ↦ rw h refl
]

module _ {C : Type 0} where
  -- A call of an operation either hands the wallet what it is to send, or ends with a notification, and
  -- then offers another try, or throws the error again, unless the user cancelled.
  pub attempt-Reports :
      (context : String) (submission : Attempt C) (t : Tracking)
      → Reports submission (attempt context submission t).1
  unfolding attempt conclude handle_transaction_error analyze_transaction_error
  attempt-Reports context (returned call) t = inl (call, refl, refl, refl, refl)
  attempt-Reports context (threw e) t = elim (Bool-cases (should_retry e (reset_handled t))) [
    | inl h ↦ rw h (
        inr (
          e,
          _,
          refl,
          refl,
          refl,
          inr (inl (toast_with_retry context e (retries_allow e (reset_handled t) h))),
        ))
    | inr h ↦ rw h (
        inr (
          e,
          _,
          refl,
          refl,
          refl,
          elim (final_reports e (is_rejection (error_type e)) refl) [
            | inl r ↦ inl r
            | inr r ↦ inr (inr r)
          ],
        ))
  ]

  -- One call: it offers a retry and counts it, or it offers none and the count is back at zero.
  abbrev Steps : Tracking → Tracking × Outcome C → Type 0
  Steps t step =
      ((offered step.1.toast ≡ true)
        × (step.0.retry_attempts ≡ t.retry_attempts + 1)
        × (suc t.retry_attempts ≤ 2))
      ⊎ ((offered step.1.toast ≡ false) × (step.0.retry_attempts ≡ 0))

  conclude-Steps :
      (context : String) (submission : Attempt C) (t : Tracking)
      → Steps t (conclude context submission t)
  unfolding conclude
  conclude-Steps context (returned call) t = inr (refl, refl)
  conclude-Steps context (threw e) t = elim (Bool-cases (should_retry e t)) [
    | inl h ↦
        rw h (inl (toast_with_retry context e (retries_allow e t h), refl, retries_below e t h))
    | inr h ↦ rw h (inr (toast_without_retry context e, refl))
  ]

  attempt-Steps :
      (context : String) (submission : Attempt C) (t : Tracking)
      → Steps t (attempt context submission t)
  unfolding attempt
  attempt-Steps context submission t = elim (conclude-Steps context submission (reset_handled t)) [
    | inl s ↦ inl (
      s.0,
      s.1 ∙ ap (λ n. n + 1) (reset_handled-retries t),
      omega (arith, s.2, reset_handled-retries t),
    )
    | inr s ↦ inr s
  ]

  -- What a user who takes every retry ends with.
  abbrev pub Settles : ℕ → Option (ℕ × Tracking × Outcome C) → Type 0
  Settles limit r =
      (n : ℕ) × (t : Tracking) × (o : Outcome C) × (r ≡ some (n, t, o))
      × (n ≤ limit)
      × (offered o.toast ≡ false)
      × (t.retry_attempts ≡ 0)

  settle_within :
      (context : String) (m : ℕ) (submissions : ℕ → Attempt C) (t : Tracking)
      → 2 ≤ t.retry_attempts + m
      → Settles (suc m) (settle context (suc m) submissions t)
  unfolding settle
  settle_within context zero submissions t enough = elim (attempt-Steps context (submissions 0) t) [
    | inl s ↦ absurd (omega (arith, s.2))
    | inr s ↦ (
      1,
      (attempt context (submissions 0) t).0,
      (attempt context (submissions 0) t).1,
      rw s.0 refl,
      omega arith,
      s.0,
      s.1,
    )
  ]
  settle_within context (suc m) submissions t enough =
      elim (attempt-Steps context (submissions 0) t) [
        | inl s ↦
            let rest =
              settle_within context m (λ n. submissions (suc n))
                (attempt context (submissions 0) t).0 (omega (arith, s.1)) in
            (
              suc rest.0,
              rest.1,
              rest.2,
              rw (s.0, rest.3) refl,
              omega (arith, rest.4),
              rest.5,
              rest.6,
            )
        | inr s ↦ (
          1,
          (attempt context (submissions 0) t).0,
          (attempt context (submissions 0) t).1,
          rw s.0 refl,
          omega arith,
          s.0,
          s.1,
        )
      ]

  -- A user who takes every retry that is offered is done after three calls at most, whatever goes wrong:
  -- the last one offers no retry, and the operation starts from a fresh count afterwards.
  pub settle_ends :
      (context : String) (submissions : ℕ → Attempt C) (t : Tracking)
      → Settles 3 (settle context 3 submissions t)
  settle_ends context submissions t = settle_within context 2 submissions t (omega arith)
