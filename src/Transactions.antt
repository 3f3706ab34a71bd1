-- ===== src/Transactions.antt =====
-- Calls of contracts by the hooks src/hooks/useStakeBasketTransactions.ts,
-- useDualStakingTransactions.ts, useGovernanceTransactions.ts and useSparksTransactions.ts, with the
-- validation of src/utils/networkValidation.ts. Wallet, `parseEther` and the text of a number are
-- arguments, and so is what the notifications show. An error that the wallet reports later is a numbered
-- object, as the hooks compare it by identity. The notification that asks to confirm in the wallet is
-- left out of the calls.
pub mod Submission
pub mod Retries
pub mod Effects
pub mod Renders
pub mod Notices
pub mod Guards
pub mod Dual
pub mod DualEffects
pub mod Spending
pub mod Proposals
pub mod Sparks
pub mod Targets
pub mod Handlers
mod Examples
mod Tests
use Prim.Native.String.{◌++◌ as append}
use stake_basket.Prelude.{
  ℕ, ◌+◌, String, Bool, true, false, ◌&&◌, not, Option, none, some, ltb, ◌==◌, if◌then◌else◌,
}
use stake_basket.TransactionErrors.{
  TransactionErrorType, user_rejected, permanent_failure, contract_error, insufficient_funds,
  allowance_error, network_error, nonce_error, insufficient_gas, RawError, error_type,
}
use stake_basket.TransactionErrors.Handling.{
  Toast, Attempt, returned, threw, is_rejection, handle_transaction_error,
}

-- What is sent to the wallet: the contract, and the amounts; of an approval the token and the spender.
pub data Call : Type 0 where
  deposit redeem : String → ℕ → Call
  approve : String → String → ℕ → Call

-- What a hook keeps for each of its operations.
pub record Tracking : Type 0 where
  pub retry_attempts : ℕ
  pub handled_write : Option ℕ
  pub handled_receipt : Option ℕ

unfoldable pub untouched : Tracking
untouched = record { retry_attempts = 0; handled_write = none; handled_receipt = none }

pub record Outcome (C : Type 0) : Type 0 where
  pub submitted : Option C
  pub toast : Option Toast
  pub rethrown : Option RawError

abbrev pub max_retries : ℕ
max_retries = 2

abbrev pub is_retryable : TransactionErrorType → Bool
is_retryable network_error = true
is_retryable nonce_error = true
is_retryable insufficient_gas = true
is_retryable _ = false

abbrev pub is_final : TransactionErrorType → Bool
is_final user_rejected = true
is_final permanent_failure = true
is_final contract_error = true
is_final insufficient_funds = true
is_final allowance_error = true
is_final _ = false

abbrev pub should_retry : RawError → Tracking → Bool
should_retry e t =
    is_retryable (error_type e) && not (is_final (error_type e)) && ltb t.retry_attempts max_retries

-- The notification of a failed call, with a button or without.
abbrev pub toast_of : String → Bool → RawError → Option Toast
toast_of context has_retry e = (handle_transaction_error context true 5000 has_retry e).1

-- A new call forgets the handled errors, but a retry does not.
unfoldable pub reset_handled : Tracking → Tracking
reset_handled t =
    if t.retry_attempts == 0 then record t { handled_write = none; handled_receipt = none } else t

module _ {C : Type 0} where
  -- From the submission, which returned or threw, to the end of the call.
  unfoldable pub conclude : String → Attempt C → Tracking → Tracking × Outcome C
  conclude context (returned call) t = (
    record t { retry_attempts = 0 },
    record { submitted = some call; toast = none; rethrown = none },
  )
  conclude context (threw e) t =
      if should_retry e t
      then (
        record t { retry_attempts = t.retry_attempts + 1 },
        record { submitted = none; toast = toast_of context true e; rethrown = none },
      )
      else (
        record t { retry_attempts = 0 },
        record {
          submitted = none;
          toast = toast_of context false e;
          rethrown = if is_rejection (error_type e) then none else some e;
        },
      )

  -- An operation that is retried, such as `depositCore`, by what its submission gives
  unfoldable pub attempt : String → Attempt C → Tracking → Tracking × Outcome C
  unfolding reset_handled conclude
  attempt context submission t = conclude context submission (reset_handled t)

abbrev pub is_same : Option ℕ → ℕ → Bool
is_same none error = false
is_same (some handled) error = handled == error

abbrev pub below : ℕ → Attempt ℕ → Attempt Bool
below allowance (returned wei) = returned (ltb allowance wei)
below allowance (threw e) = threw e

-- `needsBasketApproval`, whose `parseEther` may throw
unfoldable pub needs_basket_approval : (String → Attempt ℕ) → ℕ → String → Attempt Bool
needs_basket_approval parse_ether allowance amount =
    if allowance == 0 then returned true else below allowance (parse_ether amount)
