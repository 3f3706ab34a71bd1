-- ===== src/TransactionErrors.antt =====
-- Errors of transactions, in src/utils/transactionErrorHandler.ts. An error is its message, as
-- `analyzeTransactionError` first computes it, and its code. A notification is a value.
pub mod Handling
pub mod Retries
pub mod Toasts
mod Tests
use stake_basket.Prelude.{
  includes, ℕ, String, Bool, true, false, ◌&&◌, ◌||◌, not, Option, none, some, str_eq, ◌==◌,
  if◌then◌else◌,
}

pub data TransactionErrorType : Type 0 where
  user_rejected insufficient_funds insufficient_gas gas_limit_exceeded network_error
        contract_error :
      TransactionErrorType
  allowance_error slippage_error nonce_error connection_error permanent_failure unknown_error :
      TransactionErrorType

pub data ErrorCode : Type 0 where
  no_code : ErrorCode
  number : ℕ → ErrorCode
  text : String → ErrorCode

pub record RawError : Type 0 where
  pub message : String
  pub code : ErrorCode

abbrev pub mentions : String → RawError → Bool
mentions part e = includes e.message part

abbrev pub same_code : ErrorCode → ErrorCode → Bool
same_code (number a) (number b) = a == b
same_code (text a) (text b) = str_eq a b
same_code _ _ = false

abbrev pub has_code : ErrorCode → RawError → Bool
has_code c e = same_code c e.code

abbrev pub is_user_rejected : RawError → Bool
is_user_rejected e =
    mentions "User rejected" e
    || mentions "User denied" e
    || mentions "user rejected" e
    || mentions "denied transaction signature" e
    || mentions "User cancelled" e
    || mentions "User canceled" e
    || mentions "MetaMask Tx Signature: User denied" e
    || has_code (number 4001) e
    || has_code (text "ACTION_REJECTED") e

abbrev pub is_insufficient_funds : RawError → Bool
is_insufficient_funds e =
    mentions "insufficient funds" e
    || mentions "Insufficient funds" e
    || mentions "insufficient balance" e
    || mentions "balance too low" e
    || mentions "InsufficientFundsError" e
    || mentions "not enough balance" e

abbrev pub is_insufficient_gas : RawError → Bool
is_insufficient_gas e =
    mentions "gas required exceeds allowance" e
    || mentions "out of gas" e
    || mentions "intrinsic gas too low" e
    || mentions "insufficient gas" e

abbrev pub is_gas_limit_exceeded : RawError → Bool
is_gas_limit_exceeded e =
    mentions "gas limit exceeded" e
    || mentions "execution reverted" e
    || mentions "transaction failed" e

abbrev pub is_network_error : RawError → Bool
is_network_error e =
    mentions "network error" e
    || mentions "Network Error" e
    || mentions "connection error" e
    || mentions "timeout" e
    || mentions "failed to fetch" e
    || has_code (text "NETWORK_ERROR") e

abbrev pub is_contract_error : RawError → Bool
is_contract_error e =
    mentions "execution reverted" e
    || mentions "contract call failed" e
    || mentions "revert" e
    || mentions "require" e

abbrev pub is_permanent_failure : RawError → Bool
is_permanent_failure e =
    mentions "transaction failed" e
    || mentions "call exception" e
    || mentions "call reverted" e
    || mentions "invalid opcode" e
    || mentions "contract not deployed" e
    || mentions "method does not exist" e
    || has_code (text "CALL_EXCEPTION") e

abbrev pub is_allowance_error : RawError → Bool
is_allowance_error e =
    mentions "allowance" e || mentions "approve" e || mentions "insufficient allowance" e

abbrev pub is_nonce_error : RawError → Bool
is_nonce_error e =
    mentions "nonce" e
    || mentions "transaction nonce is too low" e
    || mentions "replacement transaction underpriced" e

abbrev pub is_connection_error : RawError → Bool
is_connection_error e =
    mentions "wallet not connected" e || mentions "no wallet" e || mentions "connect wallet" e

-- The first group of patterns that fits.
unfoldable pub error_type : RawError → TransactionErrorType
error_type e =
    if is_user_rejected e
    then user_rejected
    else if is_insufficient_funds e
    then insufficient_funds
    else if is_insufficient_gas e
    then insufficient_gas
    else if is_gas_limit_exceeded e
    then gas_limit_exceeded
    else if is_network_error e
    then network_error
    else if is_contract_error e
    then contract_error
    else if is_permanent_failure e
    then permanent_failure
    else if is_allowance_error e
    then allowance_error
    else if is_nonce_error e
    then nonce_error
    else if is_connection_error e
    then connection_error
    else unknown_error

-- `userFriendlyMessage` of each type; no error has the type `SLIPPAGE_ERROR`
abbrev pub user_friendly_message : TransactionErrorType → String
user_friendly_message user_rejected = "You cancelled the transaction. No tokens were transferred."
user_friendly_message insufficient_funds = "Insufficient balance for this transaction."
user_friendly_message insufficient_gas = "Transaction failed due to gas issues."
user_friendly_message gas_limit_exceeded = "Transaction failed due to gas limit issues."
user_friendly_message network_error = "Network connection issue occurred."
user_friendly_message contract_error = "Smart contract rejected the transaction."
user_friendly_message permanent_failure =
    "Transaction cannot be completed due to a permanent issue."
user_friendly_message allowance_error = "Token allowance issue detected."
user_friendly_message nonce_error = "Transaction ordering issue detected."
user_friendly_message connection_error = "Wallet connection issue."
user_friendly_message _ = "An unexpected error occurred."

abbrev pub is_actionable : TransactionErrorType → Bool
is_actionable permanent_failure = false
is_actionable _ = true

-- `suggestedAction` of each type
abbrev pub suggested_action : TransactionErrorType → String
suggested_action user_rejected = "Click the transaction button again when you're ready to proceed."
suggested_action insufficient_funds =
    "Reduce the amount or add more tokens to your wallet. Remember to keep some tokens for gas fees."
suggested_action insufficient_gas =
    "Make sure you have enough tokens for gas fees and try again. If this persists, increase gas limit manually in your wallet."
suggested_action gas_limit_exceeded =
    "The transaction requires more gas than allowed. Try again with a higher gas limit."
suggested_action network_error =
    "Check your internet connection and try again. If on a custom RPC, try switching networks."
suggested_action contract_error =
    "The contract requirements were not met. Please check transaction parameters and contract state."
suggested_action permanent_failure =
    "This transaction cannot be retried. Please check contract deployment and method availability."
suggested_action allowance_error =
    "You may need to approve token spending first. Try the approve button before proceeding."
suggested_action nonce_error =
    "Clear pending transactions in your wallet or wait for them to complete, then try again."
suggested_action connection_error =
    "Please connect your wallet and ensure you're on the correct network."
suggested_action _ =
    "Please try again. If the problem persists, check your wallet connection and network settings."

pub record TransactionError : Type 0 where
  pub error_kind : TransactionErrorType
  pub message : String
  pub friendly : String
  pub actionable : Bool
  pub suggestion : String

unfoldable pub analyze_transaction_error : RawError → TransactionError
unfolding error_type
analyze_transaction_error e = record {
  error_kind = error_type e;
  message = e.message;
  friendly = user_friendly_message (error_type e);
  actionable = is_actionable (error_type e);
  suggestion = suggested_action (error_type e);
}
