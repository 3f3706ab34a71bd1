-- ===== src/WithdrawFlow.antt =====
-- The hook of src/hooks/useWithdrawFlow.ts, without its notifications. Its state and its `pendingAmount`
-- are one record, with the calls that it made, newest first, and the number of redemptions that wait for
-- their half second.
pub mod Flow
mod Tests
use stake_basket.Prelude.{
  ℕ, ◌+◌, ◌-◌, String, Bool, true, false, ◌&&◌, ◌||◌, not, Option, none, some, List, [], ◌∷◌,
  str_eq, if◌then◌else◌,
}

pub data WithdrawStep : Type 0 where
  idle approval redemption completed error : WithdrawStep

-- `redeemTokens(pendingAmount.current!)` may be called without an amount.
pub data Call : Type 0 where
  approve_tokens : String → Call
  redeem_tokens : Option String → Call

pub record WithdrawFlow : Type 0 where
  pub is_withdrawing : Bool
  pub step : WithdrawStep
  pub message : Option String
  pub pending_amount : Option String
  pub waiting : ℕ
  pub calls : List Call

-- What the transaction hooks say.
pub record Hooks : Type 0 where
  pub is_approving : Bool
  pub is_redeeming : Bool
  pub approve_success : Bool
  pub redeem_success : Bool

unfoldable pub initial : WithdrawFlow
initial = record {
  is_withdrawing = false;
  step = idle;
  message = none;
  pending_amount = none;
  waiting = 0;
  calls = [];
}

-- `startWithdrawal`, up to the transaction
unfoldable pub start_withdrawal : Bool → String → WithdrawFlow → WithdrawFlow
start_withdrawal needs_approval amount s =
    if str_eq amount "" || s.is_withdrawing then s else record s {
      is_withdrawing = true;
      step = if needs_approval then approval else redemption;
      message = none;
      pending_amount = some amount;
      calls =
          (if needs_approval then approve_tokens amount else redeem_tokens (some amount)) ∷ s.calls;
    }

-- What every failure does, whenever it comes.
unfoldable pub fail : String → WithdrawFlow → WithdrawFlow
fail text s = record s {
  is_withdrawing = false;
  step = error;
  message = some text;
  pending_amount = none;
}

abbrev pub is_approval : WithdrawStep → Bool
is_approval approval = true
is_approval _ = false

abbrev pub is_redemption : WithdrawStep → Bool
is_redemption redemption = true
is_redemption _ = false

abbrev pub is_pending : Option String → Bool
is_pending none = false
is_pending (some amount) = not (str_eq amount "")

-- The effects of a rendered state, with its step, on the state as it has become by now.
unfoldable pub approval_effect : Hooks → WithdrawStep → WithdrawFlow → WithdrawFlow
approval_effect h rendered s =
    if h.approve_success && is_approval rendered && is_pending s.pending_amount
    then record s { step = redemption; waiting = s.waiting + 1 }
    else s

unfoldable pub success_effect : Hooks → WithdrawStep → WithdrawFlow → WithdrawFlow
success_effect h rendered s =
    if h.redeem_success && (is_redemption rendered || is_approval rendered)
    then record s {
      is_withdrawing = false;
      step = completed;
      message = none;
      pending_amount = none;
    }
    else s

unfoldable pub failure_effect : Hooks → WithdrawStep → WithdrawFlow → WithdrawFlow
unfolding fail
failure_effect h rendered s =
    if is_approval rendered && not h.is_approving && not h.approve_success
    then fail "Approval was cancelled or failed" s
    else if is_redemption rendered && not h.is_redeeming && not h.redeem_success
    then fail "Redemption was cancelled or failed" s
    else s

abbrev pub if_due : Bool → (WithdrawFlow → WithdrawFlow) → WithdrawFlow → WithdrawFlow
if_due true effect s = effect s
if_due false effect s = s

-- The effects after one rendering, in their order; an effect runs only if what it depends on changed.
unfoldable pub run_effects : Bool → Bool → Bool → Hooks → WithdrawFlow → WithdrawFlow
unfolding approval_effect success_effect failure_effect
run_effects first second third h s =
    if_due third (failure_effect h s.step)
      (if_due second (success_effect h s.step) (if_due first (approval_effect h s.step) s))

-- The half second is over.
unfoldable pub redeem_after_delay : WithdrawFlow → WithdrawFlow
redeem_after_delay s = record s {
  waiting = s.waiting - 1;
  calls = redeem_tokens s.pending_amount ∷ s.calls;
}

unfoldable pub reset_flow : WithdrawFlow → WithdrawFlow
reset_flow s = record s {
  is_withdrawing = false;
  step = idle;
  message = none;
  pending_amount = none;
}
