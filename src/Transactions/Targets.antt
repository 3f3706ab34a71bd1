-- ===== src/Transactions/Targets.antt =====
-- Where the calls of governance and of Sparks go.
use stake_basket.Prelude.{
  str_eq, ℕ, String, true, false, ◌≡◌, ◌⊎◌, inl, inr, refl, sym, ◌∙◌, ap, Option, none, some,
  lookup, ◌==◌, Bool-cases,
}
use stake_basket.TransactionErrors.Handling.{Attempt, returned, threw}
use stake_basket.ContractStore.{is_present, or_empty, contracts_of}
use stake_basket.Transactions.Submission.{Setting, contract, written}
use stake_basket.Transactions.Guards.{Guarded, guards-returned, parsed-returned, thrown_by-returned}
use stake_basket.Transactions.Proposals.{
  submit_delegation, submit_core_dao_proposal, submit_vote, submit_proposal, GovernanceCall,
  propose, cast_vote, cast_vote_with_reason, core_dao_proposal, validator_delegation,
  GovernanceRequest, new_proposal, new_vote, new_core_dao_proposal, new_delegation, vote_call,
  and_then, all_parsed, submit_request,
}
use stake_basket.Transactions.Sparks.{
  submit_claim, submit_sparks_redemption, SparksCall, redeem_sparks, claim_rewards, SparksRequest,
  redemption, claim, submit_sparks,
}

abbrev pub zero_address : String
zero_address = "0x0000000000000000000000000000000000000000"

abbrev pub sparks_target : SparksCall → String
sparks_target (redeem_sparks target wei reason gas) = target
sparks_target (claim_rewards target user gas) = target

abbrev pub governance_target : GovernanceCall → String
governance_target (propose target targets amounts calldatas description gas) = target
governance_target (cast_vote target id support gas) = target
governance_target (cast_vote_with_reason target id support reason gas) = target
governance_target (core_dao_proposal target title description snapshot gas) = target
governance_target (validator_delegation target validator wei gas) = target

abbrev pub contract_name : GovernanceRequest → String
contract_name (new_proposal title description targets values calldatas) = "BasketGovernance"
contract_name (new_vote id support reason) = "BasketGovernance"
contract_name (new_core_dao_proposal title description snapshot) = "CoreDAOGovernanceProxy"
contract_name (new_delegation validator amount) = "CoreDAOGovernanceProxy"

-- No network of the configuration has the contract: its address is zero, or it is empty.
sparks_manager-cases :
    (chain_id : ℕ)
    → (or_empty (lookup "SparksManager" (contracts_of chain_id)) ≡ zero_address)
      ⊎ (is_present (lookup "SparksManager" (contracts_of chain_id)) ≡ false)
unfolding contracts_of lookup
sparks_manager-cases chain_id = elim (Bool-cases (chain_id == 31337)) [
  | inl h ↦ rw h (inl refl)
  | inr h ↦ elim (Bool-cases (chain_id == 1114)) [
    | inl g ↦ rw (h, g) (inl refl)
    | inr g ↦ elim (Bool-cases (chain_id == 1116)) [
      | inl k ↦ rw (h, g, k) (inr refl)
      | inr k ↦ rw (h, g, k) (inl refl)
    ]
  ]
]

module _ (s : Setting SparksCall) where
  sparks_manager_zero :
      is_present (contract s "SparksManager") ≡ true
      → or_empty (contract s "SparksManager") ≡ zero_address
  sparks_manager_zero there = elim (sparks_manager-cases s.chain_id) [ inl z ↦ z | inr gone ↦ cc ]

  -- Whatever the network, a call of Sparks that reaches the wallet is sent to the zero address.
  sparks_calls_go_nowhere :
      (request : SparksRequest) (call : SparksCall)
      → submit_sparks s request ≡ returned call
      → sparks_target call ≡ zero_address
  unfolding submit_sparks submit_sparks_redemption submit_claim
  sparks_calls_go_nowhere (redemption amount reason) call h =
      let read = parsed-returned (s.parse_ether amount) _ call h in
      let sending = redeem_sparks (or_empty (contract s "SparksManager")) read.0 reason 200000 in
      let there = guards-returned s "SparksManager" _ (written s sending) call read.2 in
      let sent = thrown_by-returned (s.write sending) sending call there.1 in
      ap sparks_target (sym sent.1) ∙ sparks_manager_zero there.0.1
  sparks_calls_go_nowhere claim call h =
      let sending =
        claim_rewards (or_empty (contract s "SparksManager")) (or_empty s.address) 150000 in
      let there = guards-returned s "SparksManager" _ (written s sending) call h in
      let sent = thrown_by-returned (s.write sending) sending call there.1 in
      ap sparks_target (sym sent.1) ∙ sparks_manager_zero there.0.1

and_then-returned :
    {A B : Type 0}
    → (a : Attempt A) (rest : A → Attempt B) (b : B) → and_then a rest ≡ returned b
    → (x : A) × (a ≡ returned x) × (rest x ≡ returned b)
and_then-returned (returned x) rest b h = (x, refl, h)
and_then-returned (threw e) rest b h = cc

vote_call-target :
    (target : String) (id support : ℕ) (reason : Option String)
    → governance_target (vote_call target id support reason) ≡ target
vote_call-target target id support none = refl
vote_call-target target id support (some reason) = elim (Bool-cases (str_eq reason "")) [
  | inl h ↦ rw h refl
  | inr h ↦ rw h refl
]

module _ (s : Setting GovernanceCall) where
  sent_to :
      (sending call : GovernanceCall) (target : String)
      → governance_target sending ≡ target
      → written s sending ≡ returned call
      → governance_target call ≡ target
  sent_to sending call target goes h =
      ap governance_target (sym (thrown_by-returned (s.write sending) sending call h).1) ∙ goes

  -- A call of governance that reaches the wallet goes to the contract that its operation names, with a
  -- connected wallet, a contract of the chain, and a chain that is supported and available.
  governance_calls-Guarded :
      (request : GovernanceRequest) (call : GovernanceCall)
      → submit_request s request ≡ returned call
      → Guarded s (contract_name request)
        × (governance_target call ≡ or_empty (contract s (contract_name request)))
  unfolding submit_request submit_proposal submit_vote submit_core_dao_proposal submit_delegation
  governance_calls-Guarded (new_proposal title description targets values calldatas) call h =
      let there = guards-returned s "BasketGovernance" _ _ call h in
      let read = and_then-returned (all_parsed s.parse_ether values) _ call there.1 in
      (
        there.0,
        sent_to
            (propose (or_empty (contract s "BasketGovernance")) targets read.0 calldatas description
              500000)
            call _ refl read.2,
      )
  governance_calls-Guarded (new_vote id support reason) call h =
      let there = guards-returned s "BasketGovernance" _ _ call h in
      (
        there.0,
        sent_to (vote_call (or_empty (contract s "BasketGovernance")) id support reason) call _
            (vote_call-target _ id support reason) there.1,
      )
  governance_calls-Guarded (new_core_dao_proposal title description snapshot) call h =
      let there = guards-returned s "CoreDAOGovernanceProxy" _ _ call h in
      (
        there.0,
        sent_to
            (core_dao_proposal (or_empty (contract s "CoreDAOGovernanceProxy")) title description
              snapshot 300000)
            call _ refl there.1,
      )
  governance_calls-Guarded (new_delegation validator amount) call h =
      let read = parsed-returned (s.parse_ether amount) _ call h in
      let there = guards-returned s "CoreDAOGovernanceProxy" _ _ call read.2 in
      (
        there.0,
        sent_to
            (validator_delegation (or_empty (contract s "CoreDAOGovernanceProxy")) validator read.0
              250000)
            call _ refl there.1,
      )
