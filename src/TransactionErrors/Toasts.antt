-- ===== src/TransactionErrors/Toasts.antt =====
-- `createTransactionStateManager` of src/utils/transactionErrorHandler.ts. What the sonner library shows
-- is behind an interface. The context in lower case is an argument.
use Prim.Native.String.{◌++◌ as append}
use stake_basket.Prelude.{String, Bool, true, false, Option, none, some, ◌≡◌, str_eq}
use stake_basket.TransactionErrors.{RawError, TransactionError}
use stake_basket.TransactionErrors.Handling.{Toast, handle_transaction_error}

-- What a notification says.
pub data Notice : Type 0 where
  loading success : String → Notice
  failure : Toast → Notice

-- The notifications on the screen, by their identifiers.
pub record Toaster {ℓ} (Screen : Type ℓ) : Type ℓ where
  pub show : String → Notice → Screen → Screen
  pub dismiss : String → Screen → Screen
  pub dismiss_all : Screen → Screen
  pub shown : Screen → String → Option Notice
  pub shown-show : (i : String) (n : Notice) (s : Screen) → shown (show i n s) i ≡ some n
  pub shown-show-other :
      (i j : String) (n : Notice) (s : Screen)
      → str_eq i j ≡ false
      → shown (show i n s) j ≡ shown s j
  pub shown-dismiss : (i : String) (s : Screen) → shown (dismiss i s) i ≡ none
  pub shown-dismiss-other :
      (i j : String) (s : Screen) → str_eq i j ≡ false → shown (dismiss i s) j ≡ shown s j
  pub shown-dismiss_all : (j : String) (s : Screen) → shown (dismiss_all s) j ≡ none

pub record StateManager : Type 0 where
  pub context : String
  pub key : String
  pub current_toast_id : Option String

unfoldable pub create_manager : String → String → StateManager
create_manager context key = record { context = context; key = key; current_toast_id = none }

abbrev pub loading_id : String → String
loading_id key = append key "-loading"

abbrev pub success_id : String → String
success_id key = append key "-success"

abbrev pub error_id : String → String
error_id key = append key "-error"

module _ {ℓ} {Screen : Type ℓ} (toaster : Toaster Screen) where
  abbrev pub dismissed : Option String → Screen → Screen
  dismissed none s = s
  dismissed (some id) s = toaster.dismiss id s

  unfoldable pub clear_toasts : StateManager → Screen → StateManager × Screen
  clear_toasts m s = (record m { current_toast_id = none }, dismissed m.current_toast_id s)

  unfoldable pub show_loading_toast : String → StateManager → Screen → StateManager × Screen
  unfolding clear_toasts
  show_loading_toast message m s = (
    record m { current_toast_id = some (loading_id m.key) },
    toaster.show (loading_id m.key) (loading message) (toaster.dismiss_all (clear_toasts m s).1),
  )

  unfoldable pub show_success_toast : String → StateManager → Screen → StateManager × Screen
  unfolding clear_toasts
  show_success_toast message m s = (
    record m { current_toast_id = some (success_id m.key) },
    toaster.show (success_id m.key) (success message) (clear_toasts m s).1,
  )

  abbrev pub show_failure : String → Option Toast → Screen → Screen
  show_failure id none s = s
  show_failure id (some toast) s = toaster.show id (failure toast) s

  -- `handleError`, whose notification has a fixed identifier
  unfoldable pub handle_error :
      Bool → RawError → StateManager → Screen → TransactionError × StateManager × Screen
  unfolding clear_toasts handle_transaction_error
  handle_error has_retry raw m s =
      let handled = handle_transaction_error m.context true 5000 has_retry raw in
      (
        handled.0,
        (clear_toasts m s).0,
        show_failure (error_id m.key) handled.1 (toaster.dismiss_all (clear_toasts m s).1),
      )
