-- ===== src/TransactionErrors/Tests.antt =====
-- Errors as wallets and nodes word them.
use stake_basket.Prelude.{ℕ, ◌≡◌, refl, true, Option, some, none, ◌⊎◌}
use stake_basket.TransactionErrors.{
  RawError, no_code, error_type, contract_error, permanent_failure, analyze_transaction_error,
}
use stake_basket.TransactionErrors.Handling.{returned, execute_transaction}
use stake_basket.TransactionErrors.Retries.{execute_transaction_reports, IsFailure, IsSuccess}

abbrev reverted : RawError
reverted = record { message = "execution reverted: Paused"; code = no_code }

other_kinds :
    (error_type (record reverted { message = "call reverted" }) ≡ contract_error)
    × (error_type (record reverted { message = "invalid opcode" }) ≡ permanent_failure)
unfolding error_type
other_kinds = (refl, refl)

-- The transaction goes through, and the callback throws.
abbrev on_success : ℕ → Option RawError
on_success n = some reverted

execute_transaction_reports_example :
    ((raw : RawError) × IsFailure on_success (returned 7) raw
      × ((execute_transaction "Deposit" true true on_success (returned 7)).result ≡ none)
      × ((execute_transaction "Deposit" true true on_success (returned 7)).reported
          ≡ some (analyze_transaction_error raw)))
    ⊎ ((y : ℕ) × IsSuccess on_success (returned 7) y
        × ((execute_transaction "Deposit" true true on_success (returned 7)).result ≡ some y)
        × ((execute_transaction "Deposit" true true on_success (returned 7)).reported ≡ none))
execute_transaction_reports_example =
    execute_transaction_reports on_success "Deposit" true true (returned 7)
