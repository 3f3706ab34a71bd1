-- ===== src/TransactionErrors/Handling.antt =====
-- The notification of an error, and the wrapper that runs a transaction.
use stake_basket.Prelude.{
  ℕ, String, Bool, true, false, ◌&&◌, not, Option, none, some, if◌then◌else◌,
}
use stake_basket.TransactionErrors.{
  TransactionErrorType, user_rejected, insufficient_funds, insufficient_gas, network_error,
  connection_error, permanent_failure, RawError, TransactionError, analyze_transaction_error,
}

pub data ToastKind : Type 0 where
  info warning problem : ToastKind

-- The text of a notification, by its template.
pub data ToastText : Type 0 where
  plain : String → ToastText
  with_suggestion : String → String → ToastText
  failed_permanently failed : String → String → ToastText

pub record Toast : Type 0 where
  pub kind : ToastKind
  pub text : ToastText
  pub duration : ℕ
  pub offers_retry : Bool

abbrev pub is_rejection : TransactionErrorType → Bool
is_rejection user_rejected = true
is_rejection _ = false

-- The kind and the text of the notification, by the type of the error.
abbrev pub styled : String → TransactionError → TransactionErrorType → ToastKind × ToastText
styled context e user_rejected = (info, plain e.friendly)
styled context e insufficient_funds = (warning, plain e.friendly)
styled context e insufficient_gas = (warning, plain e.friendly)
styled context e network_error = (problem, with_suggestion e.friendly e.suggestion)
styled context e connection_error = (problem, with_suggestion e.friendly e.suggestion)
styled context e permanent_failure = (problem, failed_permanently context e.friendly)
styled context e _ = (problem, failed context e.friendly)

-- `handleTransactionError`: the analysed error and the notification.
unfoldable pub handle_transaction_error :
    String → Bool → ℕ → Bool → RawError → TransactionError × Option Toast
unfolding analyze_transaction_error
handle_transaction_error context show_toast duration has_retry raw =
    let e = analyze_transaction_error raw in
    (
      e,
      if show_toast
          then some (record {
            kind = (styled context e e.error_kind).0;
            text = (styled context e e.error_kind).1;
            duration = if is_rejection e.error_kind then 3000 else duration;
            offers_retry = e.actionable && has_retry && not (is_rejection e.error_kind);
          })
          else none,
    )

-- What a call gives: a value, or an error.
pub data Attempt {ℓ} (A : Type ℓ) : Type ℓ where
  returned : A → Attempt A
  threw : RawError → Attempt A

-- What the wrapper does: its result, the error that it reports, and the notification.
pub record Execution {ℓ} (A : Type ℓ) : Type ℓ where
  pub result : Option A
  pub reported : Option TransactionError
  pub toast : Option Toast

module _ {ℓ} {A : Type ℓ} where
  unfoldable pub executed_badly : String → Bool → Bool → RawError → Execution A
  unfolding handle_transaction_error
  executed_badly context show_toast retryable raw =
      let handled = handle_transaction_error context show_toast 5000 retryable raw in
      record { result = none; reported = some handled.0; toast = handled.1 }

  -- `onSuccess` runs inside the same `try`; it may throw.
  unfoldable pub after_success : String → Bool → Bool → A → Option RawError → Execution A
  unfolding executed_badly
  after_success context show_toast retryable x none = record {
    result = some x;
    reported = none;
    toast = none;
  }
  after_success context show_toast retryable x (some e) =
      executed_badly context show_toast retryable e

  -- `executeTransactionWithErrorHandling`
  unfoldable pub execute_transaction :
      String → Bool → Bool → (A → Option RawError) → Attempt A → Execution A
  unfolding after_success executed_badly
  execute_transaction context show_toast retryable on_success (returned x) =
      after_success context show_toast retryable x (on_success x)
  execute_transaction context show_toast retryable on_success (threw e) =
      executed_badly context show_toast retryable e
