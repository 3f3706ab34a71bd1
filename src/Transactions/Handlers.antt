-- ===== src/Transactions/Handlers.antt =====
-- The operations that the hooks hand on: a submission, and what follows its result.
use stake_basket.Prelude.{ℕ, String, Bool, Option, List}
use stake_basket.Transactions.{Call, Outcome, Tracking, attempt}
use stake_basket.Transactions.Submission.{
  Setting, submit_deposit, submit_redemption, submit_approval,
}
use stake_basket.Transactions.Dual.{
  DualCall, dual_attempt, submit_dual_deposit, submit_core_approval, submit_btc_approval,
}
use stake_basket.Transactions.Proposals.{
  GovernanceCall, submit_proposal, submit_vote, submit_core_dao_proposal, submit_delegation,
}
use stake_basket.Transactions.Sparks.{SparksCall, submit_sparks_redemption, submit_claim}

unfoldable pub deposit_core : Setting Call → String → Tracking → Tracking × Outcome Call
unfolding submit_deposit attempt
deposit_core s amount = attempt "Staking" (submit_deposit s amount)

unfoldable pub redeem_basket : Setting Call → String → Tracking → Tracking × Outcome Call
unfolding submit_redemption attempt
redeem_basket s shares = attempt "Withdrawal" (submit_redemption s shares)

unfoldable pub approve_basket_tokens : Setting Call → String → Tracking → Tracking × Outcome Call
unfolding submit_approval attempt
approve_basket_tokens s shares = attempt "Token Approval" (submit_approval s shares)

unfoldable pub deposit_dual_stake :
    Setting DualCall → String → String → Bool → Tracking → Tracking × Outcome DualCall
unfolding submit_dual_deposit dual_attempt
deposit_dual_stake s core_amount btc_amount native =
    dual_attempt "Dual Staking" (submit_dual_deposit s core_amount btc_amount native)

unfoldable pub approve_core_tokens :
    Setting DualCall → String → Tracking → Tracking × Outcome DualCall
unfolding submit_core_approval dual_attempt
approve_core_tokens s amount = dual_attempt "CORE Token Approval" (submit_core_approval s amount)

unfoldable pub approve_btc_tokens :
    Setting DualCall → String → Tracking → Tracking × Outcome DualCall
unfolding submit_btc_approval dual_attempt
approve_btc_tokens s amount = dual_attempt "BTC Token Approval" (submit_btc_approval s amount)

unfoldable pub create_governance_proposal :
    Setting GovernanceCall
    → String
    → String
    → List String
    → List String
    → List String
    → Tracking
    → Tracking × Outcome GovernanceCall
unfolding submit_proposal attempt
create_governance_proposal s title description targets values calldatas =
    attempt "Create Proposal" (submit_proposal s title description targets values calldatas)

unfoldable pub cast_governance_vote :
    Setting GovernanceCall → ℕ → ℕ → Option String → Tracking → Tracking × Outcome GovernanceCall
unfolding submit_vote attempt
cast_governance_vote s id support reason = attempt "Vote" (submit_vote s id support reason)

unfoldable pub create_core_dao_governance_proposal :
    Setting GovernanceCall → String → String → String → Tracking → Tracking × Outcome GovernanceCall
unfolding submit_core_dao_proposal attempt
create_core_dao_governance_proposal s title description snapshot =
    attempt "CoreDAO Proposal" (submit_core_dao_proposal s title description snapshot)

unfoldable pub create_validator_delegation_proposal :
    Setting GovernanceCall → String → String → Tracking → Tracking × Outcome GovernanceCall
unfolding submit_delegation attempt
create_validator_delegation_proposal s validator amount =
    attempt "Validator Delegation" (submit_delegation s validator amount)

unfoldable pub redeem_sparks_points :
    Setting SparksCall → String → String → Tracking → Tracking × Outcome SparksCall
unfolding submit_sparks_redemption attempt
redeem_sparks_points s amount reason =
    attempt "Sparks Redemption" (submit_sparks_redemption s amount reason)

unfoldable pub claim_sparks_rewards : Setting SparksCall → Tracking → Tracking × Outcome SparksCall
unfolding submit_claim attempt
claim_sparks_rewards s = attempt "Reward Claim" (submit_claim s)
