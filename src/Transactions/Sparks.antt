-- ===== src/Transactions/Sparks.antt =====
-- The calls of the hook src/hooks/useSparksTransactions.ts.
use Prim.Native.String.{◌++◌ as append}
use stake_basket.Prelude.{ℕ, String}
use stake_basket.TransactionErrors.Handling.{Attempt}
use stake_basket.ContractStore.{or_empty, is_present}
use stake_basket.Transactions.Submission.{
  Setting, parsed, connected, require, written, on_valid_network, contract,
}

-- Contract, arguments and the limit of gas.
pub data SparksCall : Type 0 where
  redeem_sparks : String → ℕ → String → ℕ → SparksCall
  claim_rewards : String → String → ℕ → SparksCall

pub data SparksRequest : Type 0 where
  redemption : String → String → SparksRequest
  claim : SparksRequest

abbrev pub sparks_guarded : Setting SparksCall → Attempt SparksCall → Attempt SparksCall
sparks_guarded s rest = connected s (
    require (is_present (contract s "SparksManager"))
      (append "SparksManager contract not deployed on chain " (s.show_number s.chain_id))
      (on_valid_network s rest))

-- The bodies of the two operations up to the wallet.
unfoldable pub submit_sparks_redemption : Setting SparksCall → String → String → Attempt SparksCall
submit_sparks_redemption s amount reason = parsed (s.parse_ether amount) (λ wei.
    sparks_guarded s
      (written s (redeem_sparks (or_empty (contract s "SparksManager")) wei reason 200000)))

unfoldable pub submit_claim : Setting SparksCall → Attempt SparksCall
submit_claim s =
    sparks_guarded s (
      written s (claim_rewards (or_empty (contract s "SparksManager")) (or_empty s.address) 150000))

unfoldable pub submit_sparks : Setting SparksCall → SparksRequest → Attempt SparksCall
unfolding submit_sparks_redemption submit_claim
submit_sparks s (redemption amount reason) = submit_sparks_redemption s amount reason
submit_sparks s claim = submit_claim s
