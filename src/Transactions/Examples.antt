-- ===== src/Transactions/Examples.antt =====
-- Calls of governance and of Sparks on Core Testnet2 and on the local chain.
use stake_basket.Prelude.{◌≡◌, refl, false, some, none, lookup}
use stake_basket.TransactionErrors.Handling.{returned}
use stake_basket.ContractStore.{contracts_of}
use stake_basket.Transactions.Submission.{Setting, validate_network_for_transaction}
use stake_basket.Transactions.Proposals.{
  submit_core_dao_proposal, submit_vote, GovernanceCall, cast_vote, submit_request,
  new_core_dao_proposal, core_dao_proposal,
}
use stake_basket.Transactions.Targets.{zero_address}

abbrev wallet : (C : Type 0) → Setting C
wallet C = record {
  chain_id = 1114;
  address = some "0x70997970C51812dc3A010C7d01b50e0d17dc79C8";
  in_development = false;
  show_number = λ n. "1114";
  parse_ether = λ text. returned 5;
  write = λ call. none;
}

abbrev the_vote : GovernanceCall
the_vote = cast_vote "0x43e9E9f5DA3dF1e0E0659be7E321e9397E41aa8e" 7 1 200000

-- The proxy of CoreDAO has the zero address there, and the call is sent all the same.
proposal_to_zero :
    submit_request (wallet GovernanceCall) (new_core_dao_proposal "t" "d" "s")
    ≡ returned (core_dao_proposal zero_address "t" "d" "s" 300000)
unfolding submit_request submit_vote submit_core_dao_proposal lookup contracts_of
    validate_network_for_transaction
proposal_to_zero = refl
