-- ===== src/Transactions/DualEffects.antt =====
-- The effects of src/hooks/useDualStakingTransactions.ts, which differ from the others in the one that
-- shows a pending transaction.
use stake_basket.Prelude.{◌&&◌, not, if◌then◌else◌}
use stake_basket.TransactionErrors.Toasts.{Toaster, show_loading_toast}
use stake_basket.Transactions.Effects.{
  Report, Texts, Display, is_some, same_hash, same_flag, same_error, shown_by, success_effect,
  receipt_effect, write_effect, begin_render,
}

pub data DualOperation : Type 0 where
  dual_staking approving_core approving_btc : DualOperation

unfoldable pub dual_texts_of : DualOperation → Texts
dual_texts_of dual_staking = record {
  context = "Dual Stake";
  key = "dual stake";
  confirming = "Confirming dual staking transaction on blockchain...";
  succeeded = "Dual staking successful! You're now earning enhanced rewards.";
}
dual_texts_of approving_core = record {
  context = "Approve CORE";
  key = "approve core";
  confirming = "Confirming CORE token approval on blockchain...";
  succeeded = "CORE tokens approved! You can now dual stake.";
}
dual_texts_of approving_btc = record {
  context = "Approve BTC";
  key = "approve btc";
  confirming = "Confirming BTC token approval on blockchain...";
  succeeded = "BTC tokens approved! You can now dual stake.";
}

module _ {ℓ} {Screen : Type ℓ} (toaster : Toaster Screen) where
  -- Nothing is shown as pending beside an error of the receipt.
  unfoldable pub dual_loading_effect : Texts → Report → Report → Display Screen → Display Screen
  dual_loading_effect texts old new d =
      if not (
          same_hash old.hash new.hash
          && same_flag old.is_pending new.is_pending
          && same_error old.receipt_error new.receipt_error)
        && (is_some new.hash && new.is_pending && not (is_some new.receipt_error))
      then shown_by toaster texts d (show_loading_toast toaster texts.confirming d.manager d.screen)
      else d

  unfoldable pub dual_deposit_render : Texts → Report → Report → Display Screen → Display Screen
  unfolding dual_loading_effect
  dual_deposit_render texts old new d = write_effect toaster texts old.write_error new.write_error (
      receipt_effect toaster texts old.receipt_error new.receipt_error (
        success_effect toaster texts old new
          (dual_loading_effect texts old new (begin_render toaster texts d))))

  unfoldable pub dual_approval_render : Texts → Report → Report → Display Screen → Display Screen
  unfolding dual_loading_effect
  dual_approval_render texts old new d =
      receipt_effect toaster texts old.receipt_error new.receipt_error (
        success_effect toaster texts old new (
          dual_loading_effect texts old new (
            write_effect toaster texts old.write_error new.write_error
              (begin_render toaster texts d))))

  unfoldable pub dual_render : DualOperation → Report → Report → Display Screen → Display Screen
  unfolding dual_deposit_render dual_approval_render
  dual_render dual_staking = dual_deposit_render (dual_texts_of dual_staking)
  dual_render approving_core = dual_approval_render (dual_texts_of approving_core)
  dual_render approving_btc = dual_approval_render (dual_texts_of approving_btc)
