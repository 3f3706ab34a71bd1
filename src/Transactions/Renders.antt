-- ===== src/Transactions/Renders.antt =====
-- The effects of each hook at a render, from the last report to this one.
use stake_basket.TransactionErrors.Toasts.{Toaster}
use stake_basket.Transactions.Effects.{
  Report, Texts, Operation, depositing, redeeming, approving, texts_of, Display, deposit_render,
  redeem_render,
}
use stake_basket.Transactions.DualEffects.{DualOperation, dual_texts_of, dual_render}

-- A delegation to a validator (createValidatorDelegationProposal) has no effect at all: neither its
-- success nor an error of it is shown.
pub data GovernanceOperation : Type 0 where
  voting proposing proposing_core_dao : GovernanceOperation

pub data SparksOperation : Type 0 where
  redeeming_sparks claiming_rewards : SparksOperation

unfoldable pub governance_texts_of : GovernanceOperation → Texts
governance_texts_of voting = record {
  context = "Vote";
  key = "vote";
  confirming = "Confirming your vote on blockchain...";
  succeeded = "Vote cast successfully! Your voice has been heard.";
}
governance_texts_of proposing = record {
  context = "Create Proposal";
  key = "create proposal";
  confirming = "Confirming proposal creation on blockchain...";
  succeeded = "Proposal created successfully! Community voting can begin.";
}
governance_texts_of proposing_core_dao = record {
  context = "CoreDAO Proposal";
  key = "coredao proposal";
  confirming = "Confirming CoreDAO proposal creation on blockchain...";
  succeeded = "CoreDAO proposal created successfully!";
}

unfoldable pub sparks_texts_of : SparksOperation → Texts
sparks_texts_of redeeming_sparks = record {
  context = "Redeem Sparks";
  key = "redeem sparks";
  confirming = "Confirming Sparks redemption on blockchain...";
  succeeded = "Sparks redeemed successfully! Benefits applied.";
}
sparks_texts_of claiming_rewards = record {
  context = "Claim Rewards";
  key = "claim rewards";
  confirming = "Confirming reward claim on blockchain...";
  succeeded = "Rewards claimed successfully!";
}

-- An operation of one of the hooks.
pub data HookOperation : Type 0 where
  staking : Operation → HookOperation
  dual : DualOperation → HookOperation
  governing : GovernanceOperation → HookOperation
  sparks : SparksOperation → HookOperation

unfoldable pub hook_texts_of : HookOperation → Texts
unfolding texts_of dual_texts_of governance_texts_of sparks_texts_of
hook_texts_of (staking operation) = texts_of operation
hook_texts_of (dual operation) = dual_texts_of operation
hook_texts_of (governing operation) = governance_texts_of operation
hook_texts_of (sparks operation) = sparks_texts_of operation

module _ {ℓ} {Screen : Type ℓ} (toaster : Toaster Screen) where
  unfoldable pub stake_render : Operation → Report → Report → Display Screen → Display Screen
  unfolding deposit_render redeem_render
  stake_render depositing = deposit_render toaster (texts_of depositing)
  stake_render redeeming = redeem_render toaster (texts_of redeeming)
  stake_render approving = redeem_render toaster (texts_of approving)

  unfoldable pub governance_render :
      GovernanceOperation → Report → Report → Display Screen → Display Screen
  unfolding deposit_render
  governance_render operation = deposit_render toaster (governance_texts_of operation)

  unfoldable pub sparks_render : SparksOperation → Report → Report → Display Screen → Display Screen
  unfolding deposit_render redeem_render
  sparks_render redeeming_sparks = deposit_render toaster (sparks_texts_of redeeming_sparks)
  sparks_render claiming_rewards = redeem_render toaster (sparks_texts_of claiming_rewards)

  unfoldable pub hook_render : HookOperation → Report → Report → Display Screen → Display Screen
  unfolding stake_render dual_render governance_render sparks_render
  hook_render (staking operation) = stake_render operation
  hook_render (dual operation) = dual_render toaster operation
  hook_render (governing operation) = governance_render operation
  hook_render (sparks operation) = sparks_render operation
