-- ===== src/Transactions/Notices.antt =====
-- What stays on the screen after the effects.
use stake_basket.Prelude.{
  if◌then◌else◌, ℕ, String, Bool, true, false, not, ◌&&◌, Option, none, some, ◌≡◌, ◌∙◌, refl, ◌==◌,
  str_eq, arith,
}
use stake_basket.TransactionErrors.{RawError, analyze_transaction_error}
use stake_basket.TransactionErrors.Handling.{Toast, handle_transaction_error}
use stake_basket.TransactionErrors.Toasts.{
  Toaster, Notice, loading, success, failure, show_loading_toast, show_success_toast, handle_error,
  loading_id, success_id, error_id, clear_toasts, create_manager,
}
use stake_basket.Transactions.{is_same}
use stake_basket.Transactions.Retries.{toast_without_retry}
use stake_basket.Transactions.DualEffects.{
  dual_staking, approving_core, approving_btc, dual_texts_of, dual_render, dual_deposit_render,
  dual_approval_render, dual_loading_effect,
}
use stake_basket.Transactions.Renders.{
  HookOperation, staking, dual, governing, sparks, voting, proposing, proposing_core_dao,
  redeeming_sparks, claiming_rewards, hook_render, hook_texts_of, stake_render, governance_render,
  sparks_render, governance_texts_of, sparks_texts_of,
}
use stake_basket.Transactions.Effects.{
  same_error, Report, Texts, depositing, redeeming, approving, texts_of, Display, deposit_render,
  redeem_render, loading_effect, success_effect, receipt_effect, write_effect, begin_render,
}

-- A transaction that the wallet has sent, before and after it is in a block.
abbrev pub in_flight : ℕ → Report
in_flight h = record {
  hash = some h;
  is_pending = true;
  is_success = false;
  write_error = none;
  receipt_error = none;
}

abbrev pub confirmed : ℕ → Report
confirmed h = record (in_flight h) { is_pending = false; is_success = true }

abbrev pub idle : Report
idle = record {
  hash = none;
  is_pending = false;
  is_success = false;
  write_error = none;
  receipt_error = none;
}

module _ {ℓ} {Screen : Type ℓ} (toaster : Toaster Screen) where
  same_number : (h : ℕ) → (h == h) ≡ true
  same_number h = ground arith

  beside_success :
      (message key : String) (s : Screen)
      → str_eq (success_id key) (loading_id key) ≡ false
      → (n : Notice) → toaster.shown s (loading_id key) ≡ some n
      → (toaster.shown (toaster.show (success_id key) (success message) s) (success_id key)
          ≡ some (success message))
        × (toaster.shown (toaster.show (success_id key) (success message) s) (loading_id key)
            ≡ some n)
  beside_success message key s apart n there = (
    toaster.shown-show (success_id key) (success message) s,
    toaster.shown-show-other (success_id key) (loading_id key) (success message) s apart ∙ there,
  )

  -- The notification that an operation shows while it is confirmed, under the one of its success.
  both_shown :
      (texts : Texts) (s : Screen)
      → str_eq (success_id texts.key) (loading_id texts.key) ≡ false
      → let screen = toaster.show (success_id texts.key) (success texts.succeeded) (
          toaster.show (loading_id texts.key) (loading texts.confirming) (toaster.dismiss_all s)) in
        (toaster.shown screen (success_id texts.key) ≡ some (success texts.succeeded))
        × (toaster.shown screen (loading_id texts.key) ≡ some (loading texts.confirming))
  both_shown texts s apart =
      beside_success texts.succeeded texts.key _ apart _
        (toaster.shown-show _ _ (toaster.dismiss_all s))

  beside_same : {A : Type ℓ} {B C : Type 0} {x : A} → B × C → (x ≡ x) × B × C
  beside_same (b, c) = (refl, b, c)

  -- A deposit, a redemption or an approval, a dual stake or one of its approvals, a vote, one of the two
  -- proposals or an operation of Sparks that the wallet first reports as sent and then as confirmed: after
  -- these two renders there are two notifications, the one of its success, and beside it the one that says
  -- it is being confirmed; and a further render with the same report leaves the screen as it is.
  pub confirming_notice_stays :
      (operation : HookOperation) (h : ℕ) (d : Display Screen)
      → let before = hook_render toaster operation idle (in_flight h) d in
        let after = hook_render toaster operation (in_flight h) (confirmed h) before in
        let texts = hook_texts_of operation in
        ((hook_render toaster operation (confirmed h) (confirmed h) after).screen ≡ after.screen)
        × (toaster.shown after.screen (success_id texts.key) ≡ some (success texts.succeeded))
        × (toaster.shown after.screen (loading_id texts.key) ≡ some (loading texts.confirming))
  unfolding hook_render stake_render dual_render governance_render sparks_render deposit_render
      redeem_render dual_deposit_render dual_approval_render dual_loading_effect loading_effect
      success_effect receipt_effect write_effect begin_render show_loading_toast show_success_toast
      clear_toasts create_manager hook_texts_of texts_of dual_texts_of governance_texts_of
      sparks_texts_of
  confirming_notice_stays (staking depositing) h d =
      rw (same_number h)
        (beside_same (both_shown (hook_texts_of (staking depositing)) d.screen refl))
  confirming_notice_stays (staking redeeming) h d =
      rw (same_number h)
        (beside_same (both_shown (hook_texts_of (staking redeeming)) d.screen refl))
  confirming_notice_stays (staking approving) h d =
      rw (same_number h)
        (beside_same (both_shown (hook_texts_of (staking approving)) d.screen refl))
  confirming_notice_stays (dual dual_staking) h d =
      rw (same_number h)
        (beside_same (both_shown (hook_texts_of (dual dual_staking)) d.screen refl))
  confirming_notice_stays (dual approving_core) h d =
      rw (same_number h)
        (beside_same (both_shown (hook_texts_of (dual approving_core)) d.screen refl))
  confirming_notice_stays (dual approving_btc) h d =
      rw (same_number h)
        (beside_same (both_shown (hook_texts_of (dual approving_btc)) d.screen refl))
  confirming_notice_stays (governing voting) h d =
      rw (same_number h) (beside_same (both_shown (hook_texts_of (governing voting)) d.screen refl))
  confirming_notice_stays (governing proposing) h d =
      rw (same_number h)
        (beside_same (both_shown (hook_texts_of (governing proposing)) d.screen refl))
  confirming_notice_stays (governing proposing_core_dao) h d =
      rw (same_number h)
        (beside_same (both_shown (hook_texts_of (governing proposing_core_dao)) d.screen refl))
  confirming_notice_stays (sparks redeeming_sparks) h d =
      rw (same_number h)
        (beside_same (both_shown (hook_texts_of (sparks redeeming_sparks)) d.screen refl))
  confirming_notice_stays (sparks claiming_rewards) h d =
      rw (same_number h)
        (beside_same (both_shown (hook_texts_of (sparks claiming_rewards)) d.screen refl))

  -- Whether only one notification is on the screen.
  abbrev pub ShowsOnly : Screen → String → Notice → Type 0
  ShowsOnly s id n =
      (toaster.shown s id ≡ some n)
      × ((j : String) → str_eq id j ≡ false → toaster.shown s j ≡ none)

  ShowsOnly-show :
      (id : String) (n : Notice) (s : Screen)
      → ShowsOnly (toaster.show id n (toaster.dismiss_all s)) id n
  ShowsOnly-show id n s = (
    toaster.shown-show id n (toaster.dismiss_all s),
    λ j apart.
        toaster.shown-show-other id j n (toaster.dismiss_all s) apart
        ∙ toaster.shown-dismiss_all j s,
  )

  handled_already : {A : Type ℓ} (b : Bool) (x d : A) → (if b && not true then x else d) ≡ d
  handled_already true x d = refl
  handled_already false x d = refl

  -- An error that the wallet or the receipt newly reports takes every other notification away and is
  -- shown without a retry, and the same error reported again changes nothing.
  pub errors_shown_once :
      (texts : Texts) (e : ℕ × RawError) (old later : Option (ℕ × RawError)) (d : Display Screen)
      → same_error old (some e) ≡ false
      → is_same d.tracking.handled_write e.0 ≡ false
      → is_same d.tracking.handled_receipt e.0 ≡ false
      → let written = write_effect toaster texts old (some e) d in
        let received = receipt_effect toaster texts old (some e) d in
        ((toast : Toast) × (toast.offers_retry ≡ false)
          × ShowsOnly written.screen (error_id d.manager.key) (failure toast)
          × ShowsOnly received.screen (error_id d.manager.key) (failure toast))
        × (write_effect toaster texts later (some e) written ≡ written)
        × (receipt_effect toaster texts later (some e) received ≡ received)
  unfolding write_effect receipt_effect handle_error handle_transaction_error
      analyze_transaction_error clear_toasts
  errors_shown_once texts e old later d changed fresh_write fresh_receipt =
      rw (changed, fresh_write, fresh_receipt, same_number e.0)
        (
          (
            _,
            toast_without_retry d.manager.context e.1,
            ShowsOnly-show _ _ _,
            ShowsOnly-show _ _ _,
          ),
          handled_already (not (same_error later (some e))) _ _,
          handled_already (not (same_error later (some e))) _ _,
        )
