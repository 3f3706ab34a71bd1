-- ===== src/Transactions/Effects.antt =====
-- The effects of the hooks of staking, governance and Sparks: what each render shows of an operation. A transaction and an
-- error that the wallet reports are numbered, as they are compared by identity.
use stake_basket.Prelude.{
  ℕ, String, Bool, true, false, ◌&&◌, ◌||◌, not, Option, none, some, ◌==◌, if◌then◌else◌,
}
use stake_basket.TransactionErrors.{RawError}
use stake_basket.TransactionErrors.Toasts.{
  Toaster, StateManager, create_manager, show_loading_toast, show_success_toast, handle_error,
}
use stake_basket.Transactions.{Tracking, is_same}

-- What the wallet says of an operation at a render.
pub record Report : Type 0 where
  pub hash : Option ℕ
  pub is_pending : Bool
  pub is_success : Bool
  pub write_error : Option (ℕ × RawError)
  pub receipt_error : Option (ℕ × RawError)

-- The texts of an operation.
pub record Texts : Type 0 where
  pub context : String
  pub key : String
  pub confirming : String
  pub succeeded : String

pub data Operation : Type 0 where
  depositing redeeming approving : Operation

unfoldable pub texts_of : Operation → Texts
texts_of depositing = record {
  context = "Stake";
  key = "stake";
  confirming = "Confirming staking transaction on blockchain...";
  succeeded = "Staking successful! BASKET tokens received.";
}
texts_of redeeming = record {
  context = "Withdraw";
  key = "withdraw";
  confirming = "Confirming withdrawal on blockchain...";
  succeeded = "Withdrawal successful! CORE tokens received immediately.";
}
texts_of approving = record {
  context = "Approve";
  key = "approve";
  confirming = "Confirming BASKET token approval on blockchain...";
  succeeded = "BASKET tokens approved! You can now redeem.";
}

abbrev pub is_some : {A : Type 0} → Option A → Bool
is_some none = false
is_some (some x) = true

-- Whether two values of a dependency are the same.
abbrev pub same_hash : Option ℕ → Option ℕ → Bool
same_hash none none = true
same_hash (some a) (some b) = a == b
same_hash _ _ = false

abbrev pub same_error : Option (ℕ × RawError) → Option (ℕ × RawError) → Bool
same_error none none = true
same_error (some a) (some b) = a.0 == b.0
same_error _ _ = false

abbrev pub same_flag : Bool → Bool → Bool
same_flag a b = (a && b) || (not a && not b)

-- What is kept from render to render, and the manager of this one.
pub record Display {ℓ} (Screen : Type ℓ) : Type ℓ where
  pub manager : StateManager
  pub tracking : Tracking
  pub screen : Screen

module _ {ℓ} {Screen : Type ℓ} (toaster : Toaster Screen) (texts : Texts) where
  abbrev pub shown_by : Display Screen → StateManager × Screen → Display Screen
  shown_by d r = record d { manager = r.0; screen = r.1 }

  unfoldable pub loading_effect : Report → Report → Display Screen → Display Screen
  loading_effect old new d =
      if not (same_hash old.hash new.hash && same_flag old.is_pending new.is_pending)
        && (is_some new.hash && new.is_pending)
      then shown_by d (show_loading_toast toaster texts.confirming d.manager d.screen)
      else d

  unfoldable pub success_effect : Report → Report → Display Screen → Display Screen
  success_effect old new d =
      if not (same_flag old.is_success new.is_success) && new.is_success
      then shown_by d (show_success_toast toaster texts.succeeded d.manager d.screen)
      else d

  abbrev pub failed_with : RawError → Tracking → Display Screen → Display Screen
  failed_with raw t d =
      let handled = handle_error toaster false raw d.manager d.screen in
      record { manager = handled.1; tracking = t; screen = handled.2 }

  -- On an error that has changed and that was not the last one handled.
  unfoldable pub receipt_effect :
      Option (ℕ × RawError) → Option (ℕ × RawError) → Display Screen → Display Screen
  receipt_effect old none d = d
  receipt_effect old (some e) d =
      if not (same_error old (some e)) && not (is_same d.tracking.handled_receipt e.0)
      then failed_with e.1 (record d.tracking { handled_receipt = some e.0 }) d
      else d

  unfoldable pub write_effect :
      Option (ℕ × RawError) → Option (ℕ × RawError) → Display Screen → Display Screen
  write_effect old none d = d
  write_effect old (some e) d =
      if not (same_error old (some e)) && not (is_same d.tracking.handled_write e.0)
      then failed_with e.1 (record d.tracking { handled_write = some e.0 }) d
      else d

  -- A render creates its own manager.
  unfoldable pub begin_render : Display Screen → Display Screen
  begin_render d = record d { manager = create_manager texts.context texts.key }

  -- The effects of a deposit, in their order, and those of a withdrawal. The other operations have them
  -- in one of these orders.
  unfoldable pub deposit_render : Report → Report → Display Screen → Display Screen
  deposit_render old new d = write_effect old.write_error new.write_error (
      receipt_effect old.receipt_error new.receipt_error
        (success_effect old new (loading_effect old new (begin_render d))))

  unfoldable pub redeem_render : Report → Report → Display Screen → Display Screen
  redeem_render old new d = receipt_effect old.receipt_error new.receipt_error (
      success_effect old new
        (loading_effect old new (write_effect old.write_error new.write_error (begin_render d))))
