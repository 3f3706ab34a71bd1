-- ===== src/TransactionErrors/Retries.antt =====
-- Which errors offer another attempt, and when one is reported.
use stake_basket.Prelude.{
  ◌⊎◌, ℕ, ◌≡◌, refl, String, Bool, true, false, ◌||◌, Option, none, some, arith, inl, inr,
}
use stake_basket.TransactionErrors.{
  is_gas_limit_exceeded, gas_limit_exceeded, RawError, mentions, error_type,
  analyze_transaction_error, is_user_rejected, is_insufficient_funds, is_insufficient_gas,
}
use stake_basket.TransactionErrors.Handling.{
  Toast, Attempt, returned, threw, handle_transaction_error, execute_transaction, executed_badly,
  after_success,
}

or_later : (a b c : Bool) → (b || c) ≡ true → (a || b || c) ≡ true
or_later a b c h = ground arith

-- A transaction that was reverted or failed, for another reason than cancelling, funds or gas, is said
-- to have exceeded its gas limit, and another attempt is offered.
reverted_offers_retry :
    (e : RawError) (context : String) (duration : ℕ)
    → is_user_rejected e ≡ false
    → is_insufficient_funds e ≡ false
    → is_insufficient_gas e ≡ false
    → (mentions "execution reverted" e || mentions "transaction failed" e) ≡ true
    → (error_type e ≡ gas_limit_exceeded)
      × (toast : Toast) × ((handle_transaction_error context true duration true e).1 ≡ some toast)
      × (toast.offers_retry ≡ true)
unfolding error_type handle_transaction_error analyze_transaction_error
reverted_offers_retry e context duration kept funded fuelled bad =
    let hit : is_gas_limit_exceeded e ≡ true =
      or_later (mentions "gas limit exceeded" e) (mentions "execution reverted" e)
        (mentions "transaction failed" e) bad in
    let kind : error_type e ≡ gas_limit_exceeded = rw (kept, funded, fuelled, hit) refl in
    (kind, _, refl, rw kind refl)

module _ {ℓ} {A : Type ℓ} (on_success : A → Option RawError) where
  -- What went wrong: the transaction threw, or the callback did after it had gone through.
  abbrev pub IsFailure : Attempt A → RawError → Type ℓ
  IsFailure t raw = (t ≡ threw raw) ⊎ ((x : A) × (t ≡ returned x) × (on_success x ≡ some raw))

  abbrev pub IsSuccess : Attempt A → A → Type ℓ
  IsSuccess t x = (t ≡ returned x) × (on_success x ≡ none)

  after_success-cases :
      (context : String) (show_toast retryable : Bool) (x : A) (o : Option RawError)
      → on_success x ≡ o
      → ((raw : RawError) × IsFailure (returned x) raw
          × ((after_success context show_toast retryable x o).result ≡ none)
          × ((after_success context show_toast retryable x o).reported
              ≡ some (analyze_transaction_error raw)))
        ⊎ ((y : A) × IsSuccess (returned x) y
            × ((after_success context show_toast retryable x o).result ≡ some y)
            × ((after_success context show_toast retryable x o).reported ≡ none))
  unfolding after_success executed_badly handle_transaction_error
  after_success-cases context show_toast retryable x none e = inr (x, (refl, e), refl, refl)
  after_success-cases context show_toast retryable x (some raw) e =
      inl (raw, inr (x, refl, e), refl, refl)

  -- A run gives the value of a transaction that went through, and reports nothing, just if the callback
  -- did not throw; otherwise it gives nothing and reports what was thrown, as the error of a
  -- transaction, also if that was the callback.
  pub execute_transaction_reports :
      (context : String) (show_toast retryable : Bool) (t : Attempt A)
      → ((raw : RawError) × IsFailure t raw
          × ((execute_transaction context show_toast retryable on_success t).result ≡ none)
          × ((execute_transaction context show_toast retryable on_success t).reported
              ≡ some (analyze_transaction_error raw)))
        ⊎ ((y : A) × IsSuccess t y
            × ((execute_transaction context show_toast retryable on_success t).result ≡ some y)
            × ((execute_transaction context show_toast retryable on_success t).reported ≡ none))
  unfolding execute_transaction executed_badly handle_transaction_error
  execute_transaction_reports context show_toast retryable (returned x) =
      after_success-cases context show_toast retryable x (on_success x) refl
  execute_transaction_reports context show_toast retryable (threw raw) =
      inl (raw, inl refl, refl, refl)
