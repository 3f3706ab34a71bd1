-- ===== src/Transactions/Tests.antt =====
-- Calls of the hook that go through, that fail, and that are retried.
use stake_basket.Prelude.{
  lookup, str_eq, if◌then◌else◌, String, Option, eq_iff, ℕ, ◌≡◌, refl, true, false, none, some,
}
use stake_basket.TransactionErrors.{RawError, error_type, unknown_error}
use stake_basket.TransactionErrors.Handling.{
  Toast, handle_transaction_error, Attempt, returned, threw,
}
use stake_basket.Transactions.{deposit, Call, untouched, attempt, needs_basket_approval}
use stake_basket.Transactions.Submission.{
  validate_network_for_transaction, stake_basket_of, Setting, submit_deposit, error_of,
}
use stake_basket.Transactions.Retries.{settle, Settles, settle_ends, Reports, attempt-Reports}
use stake_basket.TransactionErrors.Toasts.{
  Toaster, Notice, loading, success, failure, create_manager,
}
use stake_basket.Transactions.Renders.{hook_render, hook_texts_of, staking}
use stake_basket.Transactions.Effects.{Display, depositing, texts_of, write_effect, receipt_effect}
use stake_basket.Transactions.Notices.{
  in_flight, confirmed, idle, confirming_notice_stays, errors_shown_once, ShowsOnly,
}
use stake_basket.Transactions.Dual
use stake_basket.Transactions.Dual.{
  DualCall, core_token, btc_token, dual_basket, submit_core_approval, submit_btc_approval,
  submit_dual_deposit,
}
use stake_basket.Transactions.Spending.{approvals_match_deposit}
use stake_basket.Transactions.Guards.{Guarded, submit_deposit-Guarded}
use stake_basket.ContractStore.{contracts_of, or_empty}
use stake_basket.Networks.{validate_network}

abbrev nonce_too_low : RawError
nonce_too_low = error_of "nonce too low"

-- A retryable error each time: three calls, and the last one throws it.
abbrev always_fails : ℕ → Attempt Call
always_fails n = threw nonce_too_low

three_calls :
    (settle "Staking" 3 always_fails untouched)
    ≡ some (
      3,
      untouched,
      (attempt "Staking" (threw nonce_too_low) (record untouched { retry_attempts = 2 })).1,
    )
unfolding settle attempt untouched error_type handle_transaction_error
three_calls = refl

settle_ends_example : Settles 3 (settle "Staking" 3 always_fails untouched)
settle_ends_example = settle_ends "Staking" always_fails untouched

attempt-Reports_example :
    Reports {C = Call} (threw nonce_too_low) (attempt "Staking" (threw nonce_too_low) untouched).1
attempt-Reports_example = attempt-Reports "Staking" (threw nonce_too_low) untouched

-- The code's own message does not fit the patterns of a connection error.
not_connected_is_unknown :
    error_type (error_of "Wallet not connected. Please connect your wallet first.") ≡ unknown_error
unfolding error_type
not_connected_is_unknown = refl

abbrev wallet_setting : Setting Call
wallet_setting = record {
  chain_id = 1;
  address = some "0x70997970C51812dc3A010C7d01b50e0d17dc79C8";
  in_development = false;
  show_number = λ n. "1";
  parse_ether = λ text. returned 1000000000000000000;
  write = λ call. none;
}

-- An allowance of nothing needs an approval whatever the amount, and a larger amount than allowed too.
approvals :
    (needs_basket_approval (λ text. threw nonce_too_low) 0 "x" ≡ returned true)
    × (needs_basket_approval wallet_setting.parse_ether 5 "1" ≡ returned true)
unfolding needs_basket_approval
approvals = (refl, refl)

-- A screen as the notifications by identifier.
abbrev Shown : Type 0
Shown = String → Option Notice

abbrev toaster : Toaster Shown
toaster = record {
  show = λ i n s j. if str_eq i j then some n else s j;
  dismiss = λ i s j. if str_eq i j then none else s j;
  dismiss_all = λ s j. none;
  shown = λ s j. s j;
  shown-show = λ i n s. rw ((eq_iff i i).1 refl) refl;
  shown-show-other = λ i j n s h. rw h refl;
  shown-dismiss = λ i s. rw ((eq_iff i i).1 refl) refl;
  shown-dismiss-other = λ i j s h. rw h refl;
  shown-dismiss_all = λ j s. refl;
}

abbrev blank : Display Shown
blank = record {
  manager = create_manager "Stake" "stake";
  tracking = untouched;
  screen = λ j. none;
}

abbrev staked : Display Shown
staked =
    hook_render toaster (staking depositing) (in_flight 7) (confirmed 7)
      (hook_render toaster (staking depositing) idle (in_flight 7) blank)

confirming_notice_stays_example :
    ((hook_render toaster (staking depositing) (confirmed 7) (confirmed 7) staked).screen
      ≡ staked.screen)
    × (staked.screen "stake-success" ≡ some (success "Staking successful! BASKET tokens received."))
    × (staked.screen "stake-loading"
        ≡ some (loading "Confirming staking transaction on blockchain..."))
unfolding hook_texts_of texts_of
confirming_notice_stays_example = confirming_notice_stays toaster (staking depositing) 7 blank

abbrev rejected : ℕ × RawError
rejected = (1, error_of "User rejected the request.")

abbrev written : Display Shown
written = write_effect toaster (texts_of depositing) none (some rejected) blank

abbrev received : Display Shown
received = receipt_effect toaster (texts_of depositing) none (some rejected) blank

errors_shown_once_example :
    ((toast : Toast) × (toast.offers_retry ≡ false)
      × ShowsOnly toaster written.screen "stake-error" (failure toast)
      × ShowsOnly toaster received.screen "stake-error" (failure toast))
    × (write_effect toaster (texts_of depositing) (some rejected) (some rejected) written ≡ written)
    × (receipt_effect toaster (texts_of depositing) (some rejected) (some rejected) received
        ≡ received)
unfolding untouched create_manager
errors_shown_once_example =
    errors_shown_once toaster (texts_of depositing) rejected none (some rejected) blank refl refl
      refl

abbrev on_testnet : Setting Call
on_testnet = record wallet_setting { chain_id = 1114 }

submit_deposit-Guarded_example :
    ((wei : ℕ) × (on_testnet.parse_ether "1" ≡ returned wei)
      × (deposit (stake_basket_of on_testnet) 1000000000000000000
          ≡ deposit (stake_basket_of on_testnet) wei))
    × Guarded on_testnet "StakeBasket"
unfolding submit_deposit lookup contracts_of
submit_deposit-Guarded_example =
    submit_deposit-Guarded on_testnet "1" (deposit (stake_basket_of on_testnet) 1000000000000000000)
      refl

-- The dual hook on the same network.
abbrev dual_testnet : Setting DualCall
dual_testnet = record {
  chain_id = 1114;
  address = some "0x70997970C51812dc3A010C7d01b50e0d17dc79C8";
  in_development = false;
  show_number = λ n. "1114";
  parse_ether = λ text. returned 1000000000000000000;
  write = λ call. none;
}

abbrev wei : ℕ
wei = 1000000000000000000

abbrev core_approval : DualCall
core_approval =
    Dual.approve (or_empty (core_token dual_testnet)) (or_empty (dual_basket dual_testnet)) wei
      80000

abbrev btc_approval : DualCall
btc_approval =
    Dual.approve (or_empty (btc_token dual_testnet)) (or_empty (dual_basket dual_testnet)) wei 80000

approvals_match_deposit_example :
    ((validate_network false (some 1114)).is_available ≡ true)
    × (basket : String) × (core btc : ℕ) × (Dual.deposit
          (or_empty (dual_basket dual_testnet))
          wei
          wei
          400000
        ≡ Dual.deposit basket core btc 400000)
    × (core_approval ≡ Dual.approve (or_empty (core_token dual_testnet)) basket core 80000)
    × (btc_approval ≡ Dual.approve (or_empty (btc_token dual_testnet)) basket btc 80000)
unfolding submit_core_approval submit_btc_approval submit_dual_deposit lookup contracts_of
    validate_network_for_transaction
approvals_match_deposit_example =
    approvals_match_deposit dual_testnet "1" "1" core_approval btc_approval
      (Dual.deposit (or_empty (dual_basket dual_testnet)) wei wei 400000) refl refl refl
