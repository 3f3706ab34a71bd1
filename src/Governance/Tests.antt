-- ===== src/Governance/Tests.antt =====
-- Runs of the governance service.
use stake_basket.Prelude.{
  ℕ, ◌≤◌, ◌≡◌, refl, true, false, List, [], ◌∷◌, ◌++◌, map, filter, Answer, answered, thrown, ltb,
  if◌then◌else◌,
}
use stake_basket.Governance.{Vote, ProposalDetails, ProposalVoting, Proposal, Outside, cycle}
use stake_basket.Governance.Cycle.{is_vote, ballot, cycle_votes}
use stake_basket.Governance.Service.{
  Event, started, job_called, triggered, emergency, new, apply, run_from, governance_cycles_bounded,
  begin_cycle, emergency_stop, start,
}

-- A cycle runs, the service is stopped in an emergency, and a second cycle is triggered.
abbrev rescue : List Event
rescue = started ∷ job_called ∷ emergency ∷ triggered ∷ []

two_cycles : (run_from (new true "0 * * * *") rescue).cycles ≡ 2
unfolding run_from new apply start begin_cycle emergency_stop
two_cycles = refl

governance_cycles_bounded_example : (run_from (new true "0 * * * *") rescue).cycles ≤ 2
governance_cycles_bounded_example = governance_cycles_bounded true "0 * * * *" rescue

-- Twelve proposals: the third cannot be read, and the others have succeeded.
abbrev details_of : ℕ → Answer ProposalDetails
details_of id = answered (record { title = "CoreDAO Governance: x"; proposal_type = 1 })

abbrev voting_of : ℕ → Answer ProposalVoting
voting_of id =
    if ltb id 4
    then thrown "missing"
    else answered (record { for_votes = 5; against_votes = id; abstain_votes = 1; state = 4 })

abbrev close_vote : Vote
close_vote = record {
  proposal_id = 7;
  for_votes = 5;
  against_votes = 3;
  abstain_votes = 1;
  total_votes = 9;
}

abbrev news : Proposal
news = record { id = "0xabc"; title = "t"; body = "b" }

abbrev outside : Outside
outside = record {
  pending_proposals = answered (news ∷ []);
  pending_creates = λ p. true;
  pending_votes_read = answered (close_vote ∷ []);
  new_proposals = answered (news ∷ []);
  new_creates = λ p. false;
  completed_votes_read = answered (close_vote ∷ []);
}

-- Both readings give the same vote, which is cast twice.
cycle_votes_example :
    filter is_vote (cycle outside)
    ≡ map (ballot "snapshot-id") (close_vote ∷ []) ++ map (ballot "snapshot") (close_vote ∷ [])
cycle_votes_example =
    cycle_votes outside (news ∷ []) (close_vote ∷ []) (close_vote ∷ []) refl refl refl
