-- ===== src/Transactions/Submission.antt =====
-- The bodies of the three operations up to the wallet.
use Prim.Native.String.{◌++◌ as append}
use stake_basket.Prelude.{
  ℕ, String, Bool, true, false, ◌&&◌, Option, none, some, lookup, if◌then◌else◌,
}
use stake_basket.TransactionErrors.{RawError, no_code}
use stake_basket.TransactionErrors.Handling.{Attempt, returned, threw}
use stake_basket.ContractStore.{contracts_of, or_empty, is_present}
use stake_basket.Networks.{
  NetworkError, no_network, unsupported, development_only, validate_network,
  NetworkValidationResult,
}
use stake_basket.Transactions.{Call, deposit, redeem, approve}

-- What the hook reads when it is called, and what the wallet throws at once, if anything.
pub record Setting (C : Type 0) : Type 0 where
  pub chain_id : ℕ
  pub address : Option String
  pub in_development : Bool
  pub show_number : ℕ → String
  pub parse_ether : String → Attempt ℕ
  pub write : C → Option RawError

abbrev pub error_of : String → RawError
error_of message = record { message = message; code = no_code }

-- `validateNetworkForTransaction`: if the network is not valid, the error of its validation. That it
-- also shows this error as a notification of its own is left out.
abbrev pub invalid_network : NetworkValidationResult → Option (Option NetworkError)
invalid_network v = if v.is_supported && v.is_available then none else some v.error

unfoldable pub validate_network_for_transaction : Bool → ℕ → Option (Option NetworkError)
unfolding validate_network
validate_network_for_transaction in_development chain_id =
    invalid_network (validate_network in_development (some chain_id))

abbrev pub network_error_text : (ℕ → String) → NetworkError → String
network_error_text show_number no_network = "No network detected. Please connect your wallet."
network_error_text show_number (unsupported chain_id) =
    append "Unsupported network (Chain ID: "
      (append (show_number chain_id) "). This app only supports CoreDAO networks.")
network_error_text show_number development_only = "Development network not available in production."

-- `validation.error || ...`
abbrev pub refusal_text : (ℕ → String) → ℕ → Option NetworkError → String
refusal_text show_number chain_id (some e) = network_error_text show_number e
refusal_text show_number chain_id none =
    append "Please switch to a supported CoreDAO network. Current chain: " (show_number chain_id)

module _ {C : Type 0} where
  abbrev pub on_network :
      (Option NetworkError → String) → Option (Option NetworkError) → Attempt C → Attempt C
  on_network text none rest = rest
  on_network text (some e) rest = threw (error_of (text e))

  abbrev pub parsed : Attempt ℕ → (ℕ → Attempt C) → Attempt C
  parsed (returned wei) rest = rest wei
  parsed (threw e) rest = threw e

  abbrev pub require : Bool → String → Attempt C → Attempt C
  require true message rest = rest
  require false message rest = threw (error_of message)

  abbrev pub thrown_by : Option RawError → C → Attempt C
  thrown_by none call = returned call
  thrown_by (some e) call = threw e

  abbrev pub written : Setting C → C → Attempt C
  written s call = thrown_by (s.write call) call

  abbrev pub connected : Setting C → Attempt C → Attempt C
  connected s =
      require (is_present s.address) "Wallet not connected. Please connect your wallet first."

  abbrev pub on_valid_network : Setting C → Attempt C → Attempt C
  on_valid_network s =
      on_network (refusal_text s.show_number s.chain_id)
        (validate_network_for_transaction s.in_development s.chain_id)

  abbrev pub contract : Setting C → String → Option String
  contract s name = lookup name (contracts_of s.chain_id)

abbrev pub deployed : Setting Call → Attempt Call → Attempt Call
deployed s =
    require (is_present (contract s "StakeBasket"))
      (append "StakeBasket contract not deployed on chain " (s.show_number s.chain_id))

abbrev pub stake_basket_of : Setting Call → String
stake_basket_of s = or_empty (contract s "StakeBasket")

unfoldable pub submit_deposit : Setting Call → String → Attempt Call
unfolding validate_network_for_transaction
submit_deposit s amount = parsed (s.parse_ether amount) (λ wei.
    connected s (deployed s (on_valid_network s (written s (deposit (stake_basket_of s) wei)))))

unfoldable pub submit_redemption : Setting Call → String → Attempt Call
submit_redemption s shares =
    parsed (s.parse_ether shares)
      (λ wei. connected s (deployed s (written s (redeem (stake_basket_of s) wei))))

unfoldable pub submit_approval : Setting Call → String → Attempt Call
submit_approval s shares = parsed (s.parse_ether shares) (λ wei. connected s (
    require (is_present (contract s "StakeBasketToken")) "BASKET token contract not found" (
      deployed s
        (written s (approve (or_empty (contract s "StakeBasketToken")) (stake_basket_of s) wei)))))
