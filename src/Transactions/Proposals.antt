-- ===== src/Transactions/Proposals.antt =====
-- The calls of the hook src/hooks/useGovernanceTransactions.ts.
use Prim.Native.String.{◌++◌ as append}
use stake_basket.Prelude.{ℕ, String, List, [], ◌∷◌, Option, none, some, str_eq, if◌then◌else◌}
use stake_basket.TransactionErrors.Handling.{Attempt, returned, threw}
use stake_basket.ContractStore.{or_empty, is_present}
use stake_basket.Transactions.Submission.{
  Setting, parsed, connected, require, written, on_valid_network, contract,
}

-- Contract, arguments and the limit of gas.
pub data GovernanceCall : Type 0 where
  propose : String → List String → List ℕ → List String → String → ℕ → GovernanceCall
  cast_vote : String → ℕ → ℕ → ℕ → GovernanceCall
  cast_vote_with_reason : String → ℕ → ℕ → String → ℕ → GovernanceCall
  core_dao_proposal : String → String → String → String → ℕ → GovernanceCall
  validator_delegation : String → String → ℕ → ℕ → GovernanceCall

-- What a user asks for: each operation with its arguments.
pub data GovernanceRequest : Type 0 where
  new_proposal : String → String → List String → List String → List String → GovernanceRequest
  new_vote : ℕ → ℕ → Option String → GovernanceRequest
  new_core_dao_proposal : String → String → String → GovernanceRequest
  new_delegation : String → String → GovernanceRequest

abbrev pub and_then : {A B : Type 0} → Attempt A → (A → Attempt B) → Attempt B
and_then (returned x) rest = rest x
and_then (threw e) rest = threw e

-- `values.map(v => parseEther(v))`
unfoldable pub all_parsed : (String → Attempt ℕ) → List String → Attempt (List ℕ)
all_parsed parse_ether [] = returned []
all_parsed parse_ether (v ∷ values) =
    and_then (parse_ether v)
      (λ n. and_then (all_parsed parse_ether values) (λ rest. returned (n ∷ rest)))

-- The wallet, the contract of the name and the network, in this order.
abbrev pub guarded :
    Setting GovernanceCall → String → String → Attempt GovernanceCall → Attempt GovernanceCall
guarded s name title rest = connected s (
    require (is_present (contract s name))
      (append title (append " contract not deployed on chain " (s.show_number s.chain_id)))
      (on_valid_network s rest))

abbrev pub vote_call : String → ℕ → ℕ → Option String → GovernanceCall
vote_call governance id support none = cast_vote governance id support 200000
vote_call governance id support (some reason) =
    if str_eq reason ""
    then cast_vote governance id support 200000
    else cast_vote_with_reason governance id support reason 250000

-- The bodies of the four operations up to the wallet. The title of a proposal is not sent.
unfoldable pub submit_proposal :
    Setting GovernanceCall
    → String
    → String
    → List String
    → List String
    → List String
    → Attempt GovernanceCall
unfolding all_parsed
submit_proposal s title description targets values calldatas =
    guarded s "BasketGovernance" "Governance" (
      and_then (all_parsed s.parse_ether values) (λ amounts. written s (
        propose (or_empty (contract s "BasketGovernance")) targets amounts calldatas description
          500000)))

unfoldable pub submit_vote : Setting GovernanceCall → ℕ → ℕ → Option String → Attempt GovernanceCall
submit_vote s id support reason =
    guarded s "BasketGovernance" "Governance"
      (written s (vote_call (or_empty (contract s "BasketGovernance")) id support reason))

unfoldable pub submit_core_dao_proposal :
    Setting GovernanceCall → String → String → String → Attempt GovernanceCall
submit_core_dao_proposal s title description snapshot =
    guarded s "CoreDAOGovernanceProxy" "CoreDAO Governance Proxy" (
      written s (
        core_dao_proposal (or_empty (contract s "CoreDAOGovernanceProxy")) title description
          snapshot 300000))

unfoldable pub submit_delegation : Setting GovernanceCall → String → String → Attempt GovernanceCall
submit_delegation s validator amount = parsed (s.parse_ether amount) (λ wei.
    guarded s "CoreDAOGovernanceProxy" "CoreDAO Governance Proxy" (
      written s (
        validator_delegation (or_empty (contract s "CoreDAOGovernanceProxy")) validator wei
          250000)))

unfoldable pub submit_request : Setting GovernanceCall → GovernanceRequest → Attempt GovernanceCall
unfolding submit_proposal submit_vote submit_core_dao_proposal submit_delegation
submit_request s (new_proposal title description targets values calldatas) =
    submit_proposal s title description targets values calldatas
submit_request s (new_vote id support reason) = submit_vote s id support reason
submit_request s (new_core_dao_proposal title description snapshot) =
    submit_core_dao_proposal s title description snapshot
submit_request s (new_delegation validator amount) = submit_delegation s validator amount
