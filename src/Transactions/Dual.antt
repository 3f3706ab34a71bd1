-- ===== src/Transactions/Dual.antt =====
-- The calls of the hook src/hooks/useDualStakingTransactions.ts.
use Prim.Native.String.{◌++◌ as append}
use stake_basket.Prelude.{ℕ, String, Bool, true, false, Option, none, some, ◌==◌, if◌then◌else◌}
use stake_basket.TransactionErrors.Handling.{Attempt, returned, threw}
use stake_basket.ContractStore.{or_empty, is_present}
use stake_basket.Transactions.{Outcome, Tracking, below, toast_of}
use stake_basket.Transactions.Submission.{
  Setting, parsed, connected, require, written, on_valid_network, contract,
}

-- A deposit of native CORE sends its amount as the value. The last number is the limit of gas.
pub data DualCall : Type 0 where
  deposit_native : String → ℕ → ℕ → ℕ → DualCall
  deposit : String → ℕ → ℕ → ℕ → DualCall
  approve : String → String → ℕ → ℕ → DualCall

-- `a || b`
abbrev pub or_else : Option String → Option String → Option String
or_else a b = if is_present a then a else b

abbrev pub dual_basket : Setting DualCall → Option String
dual_basket s = or_else (contract s "DualStakingBasket") (contract s "StakeBasket")

abbrev pub core_token : Setting DualCall → Option String
core_token s = contract s "MockCORE"

abbrev pub btc_token : Setting DualCall → Option String
btc_token s =
    if s.chain_id == 1114
    then or_else (contract s "SimpleBTCFaucet") (contract s "MockCoreBTC")
    else contract s "MockCoreBTC"

abbrev pub dual_deployed : Setting DualCall → Attempt DualCall → Attempt DualCall
dual_deployed s =
    require (is_present (dual_basket s))
      (append "DualStaking contract not deployed on chain " (s.show_number s.chain_id))

abbrev pub dual_deposit_call : Bool → String → ℕ → ℕ → DualCall
dual_deposit_call true basket core btc = deposit_native basket btc core 400000
dual_deposit_call false basket core btc = deposit basket core btc 400000

unfoldable pub submit_dual_deposit : Setting DualCall → String → String → Bool → Attempt DualCall
submit_dual_deposit s core_amount btc_amount native = parsed (s.parse_ether core_amount) (λ core.
    parsed (s.parse_ether btc_amount) (λ btc. connected s (
      dual_deployed s (
        on_valid_network s
          (written s (dual_deposit_call native (or_empty (dual_basket s)) core btc))))))

unfoldable pub submit_token_approval :
    Setting DualCall → Option String → String → String → Attempt DualCall
submit_token_approval s token missing amount = parsed (s.parse_ether amount) (λ wei. connected s (
    require (is_present token) missing (
      dual_deployed s (written s (approve (or_empty token) (or_empty (dual_basket s)) wei 80000)))))

unfoldable pub submit_core_approval : Setting DualCall → String → Attempt DualCall
unfolding submit_token_approval
submit_core_approval s = submit_token_approval s (core_token s) "CORE token contract not found"

unfoldable pub submit_btc_approval : Setting DualCall → String → Attempt DualCall
unfolding submit_token_approval
submit_btc_approval s = submit_token_approval s (btc_token s) "BTC token contract not found"

-- A new call always forgets the errors that were handled.
unfoldable pub forget_handled : Tracking → Tracking
forget_handled t = record t { handled_write = none; handled_receipt = none }

-- `depositDualStake`, `approveCoreTokens` and `approveBtcTokens`, by what the submission gives: every
-- error is shown without a retry, and thrown again.
unfoldable pub dual_attempt : String → Attempt DualCall → Tracking → Tracking × Outcome DualCall
unfolding forget_handled
dual_attempt context (returned call) t =
    (forget_handled t, record { submitted = some call; toast = none; rethrown = none })
dual_attempt context (threw e) t = (
  forget_handled t,
  record { submitted = none; toast = toast_of context false e; rethrown = some e },
)

-- `needsCoreApproval` and `needsBtcApproval`, each with the allowance of its token
unfoldable pub needs_token_approval : (String → Attempt ℕ) → ℕ → String → Attempt Bool
needs_token_approval parse_ether allowance amount =
    if allowance == 0 then returned true else below allowance (parse_ether amount)
