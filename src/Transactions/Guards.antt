-- ===== src/Transactions/Guards.antt =====
-- What is known of a call that has reached the wallet.
use stake_basket.Prelude.{ℕ, String, Bool, true, false, ◌≡◌, refl, Option, none, some, arith, sym}
use stake_basket.TransactionErrors.{RawError}
use stake_basket.TransactionErrors.Handling.{Attempt, returned, threw}
use stake_basket.ContractStore.{is_present}
use stake_basket.Networks.{NetworkError, NetworkValidationResult, validate_network}
use stake_basket.Transactions.{Call, deposit}
use stake_basket.Transactions.Submission.{
  refusal_text, connected, written, on_valid_network, Setting, parsed, require, on_network,
  thrown_by, submit_deposit, validate_network_for_transaction, invalid_network, contract,
  stake_basket_of,
}

module _ {C : Type 0} where
  pub parsed-returned :
      (a : Attempt ℕ) (rest : ℕ → Attempt C) (call : C)
      → parsed a rest ≡ returned call
      → (wei : ℕ) × (a ≡ returned wei) × (rest wei ≡ returned call)
  parsed-returned (returned wei) rest call h = (wei, refl, h)
  parsed-returned (threw e) rest call h = cc

  pub require-returned :
      (b : Bool) (message : String) (rest : Attempt C) (call : C)
      → require b message rest ≡ returned call
      → (b ≡ true) × (rest ≡ returned call)
  require-returned true message rest call h = (refl, h)
  require-returned false message rest call h = cc

  on_network-returned :
      (text : Option NetworkError → String) (e : Option (Option NetworkError)) (rest : Attempt C)
      (call : C)
      → on_network text e rest ≡ returned call
      → (e ≡ none) × (rest ≡ returned call)
  on_network-returned text none rest call h = (refl, h)
  on_network-returned text (some e) rest call h = cc

  pub thrown_by-returned :
      (e : Option RawError) (sent call : C)
      → thrown_by e sent ≡ returned call
      → (e ≡ none) × (sent ≡ call)
  thrown_by-returned none sent call h = (refl, cc)
  thrown_by-returned (some e) sent call h = cc

valid_network :
    (v : NetworkValidationResult)
    → invalid_network v ≡ none
    → (v.is_supported ≡ true) × (v.is_available ≡ true)
valid_network v h = ground arith

-- The two guards of a connected wallet and of a network that is valid.
module _ {C : Type 0} (s : Setting C) where
  pub connected-returned :
      (rest : Attempt C) (call : C)
      → connected s rest ≡ returned call
      → (is_present s.address ≡ true) × (rest ≡ returned call)
  connected-returned rest call h = require-returned (is_present s.address) _ rest call h

  pub on_valid_network-returned :
      (rest : Attempt C) (call : C)
      → on_valid_network s rest ≡ returned call
      → (((validate_network s.in_development (some s.chain_id)).is_supported ≡ true)
          × ((validate_network s.in_development (some s.chain_id)).is_available ≡ true))
        × (rest ≡ returned call)
  unfolding validate_network_for_transaction
  on_valid_network-returned rest call h =
      let allowed =
        on_network-returned (refusal_text s.show_number s.chain_id)
          (validate_network_for_transaction s.in_development s.chain_id) rest call h in
      (valid_network (validate_network s.in_development (some s.chain_id)) allowed.0, allowed.1)

  -- The guards of a hook in their order: the wallet, the contract and the network.
  abbrev pub Guarded : String → Type 0
  Guarded name =
      (is_present s.address ≡ true)
      × (is_present (contract s name) ≡ true)
      × ((validate_network s.in_development (some s.chain_id)).is_supported ≡ true)
      × ((validate_network s.in_development (some s.chain_id)).is_available ≡ true)

  pub guards-returned :
      (name message : String) (rest : Attempt C) (call : C)
      → connected s (require (is_present (contract s name)) message (on_valid_network s rest))
        ≡ returned call
      → Guarded name × (rest ≡ returned call)
  guards-returned name message rest call h =
      let open_wallet =
        connected-returned
          (require (is_present (contract s name)) message (on_valid_network s rest)) call h in
      let there =
        require-returned (is_present (contract s name)) message (on_valid_network s rest) call
          open_wallet.1 in
      let allowed = on_valid_network-returned rest call there.1 in
      ((open_wallet.0, there.0, allowed.0.0, allowed.0.1), allowed.1)

-- A deposit that has reached the wallet is for the amount that was read, goes to the basket of its own
-- chain, which is there, and its chain is one that the program supports and that is available.
pub submit_deposit-Guarded :
    (s : Setting Call) (text : String) (call : Call)
    → submit_deposit s text ≡ returned call
    → ((wei : ℕ) × (s.parse_ether text ≡ returned wei) × (call ≡ deposit (stake_basket_of s) wei))
      × Guarded s "StakeBasket"
unfolding submit_deposit
submit_deposit-Guarded s text call h =
    let sending =
      written s (deposit (stake_basket_of s) (parsed-returned (s.parse_ether text) _ call h).0) in
    let read = parsed-returned (s.parse_ether text) _ call h in
    let there = guards-returned s "StakeBasket" _ sending call read.2 in
    let sent =
      thrown_by-returned (s.write (deposit (stake_basket_of s) read.0))
        (deposit (stake_basket_of s) read.0) call there.1 in
    ((read.0, read.1, sym sent.1), there.0)
