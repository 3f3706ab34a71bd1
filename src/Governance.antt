-- ===== src/Governance.antt =====
-- The votes and proposals that backend/src/services/CoreDAOGovernanceService.ts handles, and a cycle
-- of GovernanceAutomationService.ts over them. What the chain and the Snapshot service answer is an
-- argument; an identifier of a Snapshot proposal is its prefix and a number.
pub mod Service
pub mod Cycle
pub mod Readings
mod Tests
use stake_basket.Prelude.{
  includes, ℕ, zero, suc, ◌+◌, ◌-◌, max, Bool, true, false, ◌&&◌, ◌||◌, Option, none, some, String,
  List, [], ◌∷◌, ◌++◌, map, total, length, ltb, leb, ◌==◌, if◌then◌else◌, Answer, answered, thrown,
}

pub record Vote : Type 0 where
  pub proposal_id : ℕ
  pub for_votes : ℕ
  pub against_votes : ℕ
  pub abstain_votes : ℕ
  pub total_votes : ℕ

pub record ProposalDetails : Type 0 where
  pub title : String
  pub proposal_type : ℕ

pub record ProposalVoting : Type 0 where
  pub for_votes : ℕ
  pub against_votes : ℕ
  pub abstain_votes : ℕ
  pub state : ℕ

abbrev pub is_core_dao : ProposalDetails → Bool
is_core_dao d = includes d.title "CoreDAO Governance:" || d.proposal_type == 8

abbrev pub vote_of : ℕ → ProposalVoting → Vote
vote_of id v = record {
  proposal_id = id;
  for_votes = v.for_votes;
  against_votes = v.against_votes;
  abstain_votes = v.abstain_votes;
  total_votes = v.for_votes + v.against_votes + v.abstain_votes;
}

-- One round of the loop: a proposal that cannot be read is skipped. State 4 is Succeeded.
abbrev pub counted : ℕ → Answer ProposalDetails → Answer ProposalVoting → List Vote → List Vote
counted id (thrown e) voting rest = rest
counted id (answered d) (thrown e) rest = rest
counted id (answered d) (answered v) rest =
    if is_core_dao d && leb 4 v.state then vote_of id v ∷ rest else rest

module _ (details : ℕ → Answer ProposalDetails) (voting : ℕ → Answer ProposalVoting) where
  -- the loop, for the rounds that are left
  unfoldable pub votes_from : ℕ → ℕ → List Vote
  votes_from zero id = []
  votes_from (suc rounds) id = counted id (details id) (voting id) (votes_from rounds (id + 1))

  -- `monitorBasketGovernanceVotes`: the last ten proposals.
  unfoldable pub monitor_votes : Answer ℕ → Answer (List Vote)
  unfolding votes_from
  monitor_votes (thrown e) = thrown e
  monitor_votes (answered count) =
      let start = max 1 (count - 9) in answered (votes_from (count + 1 - start) start)

pub data Choice : Type 0 where
  for_it against_it abstain : Choice

unfoldable pub winning_choice : Vote → Choice
winning_choice v =
    if ltb v.against_votes v.for_votes && ltb v.abstain_votes v.for_votes
    then for_it
    else if ltb v.for_votes v.against_votes && ltb v.abstain_votes v.against_votes
    then against_it
    else abstain

pub record Proposal : Type 0 where
  pub id : String
  pub title : String
  pub body : String

-- What a cycle does outside of the service.
pub data Act : Type 0 where
  proxy_created : String → Act
  vote_cast : String × ℕ → Choice → ℕ → Act

abbrev pub cast_votes : String → List Vote → List Act
cast_votes prefix = map (λ v. vote_cast (prefix, v.proposal_id) (winning_choice v) v.total_votes)

-- The first loop of `processPendingGovernanceActions`: a creation that fails ends it.
unfoldable pub create_all : (Proposal → Bool) → List Proposal → List Act × Bool
create_all creates [] = ([], true)
create_all creates (p ∷ ps) =
    let rest = create_all creates ps in
    if creates p then (proxy_created p.id ∷ rest.0, rest.1) else ([], false)

-- What it does with the votes, and whether it returns.
abbrev pub pending_votes : List Act × Bool → Answer (List Vote) → List Act × Bool
pending_votes (acts, false) votes = (acts, false)
pending_votes (acts, true) (thrown e) = (acts, false)
pending_votes (acts, true) (answered votes) = (acts ++ cast_votes "snapshot-id" votes, true)

unfoldable pub process_pending :
    (Proposal → Bool) → Answer (List Proposal) → Answer (List Vote) → List Act × Bool
unfolding create_all
process_pending creates (thrown e) votes = ([], false)
process_pending creates (answered proposals) votes =
    pending_votes (create_all creates proposals) votes

-- `checkForNewProposals`: a creation that fails is skipped.
unfoldable pub create_new : (Proposal → Bool) → List Proposal → List Act
create_new creates [] = []
create_new creates (p ∷ ps) =
    let rest = create_new creates ps in if creates p then proxy_created p.id ∷ rest else rest

abbrev pub check_for_new : (Proposal → Bool) → Answer (List Proposal) → List Act
check_for_new creates (thrown e) = []
check_for_new creates (answered proposals) = create_new creates proposals

-- `processCompletedVotes`
abbrev pub process_completed : Answer (List Vote) → List Act
process_completed (thrown e) = []
process_completed (answered votes) = cast_votes "snapshot" votes

-- What a cycle meets: each phase asks anew.
pub record Outside : Type 0 where
  pub pending_proposals : Answer (List Proposal)
  pub pending_creates : Proposal → Bool
  pub pending_votes_read : Answer (List Vote)
  pub new_proposals : Answer (List Proposal)
  pub new_creates : Proposal → Bool
  pub completed_votes_read : Answer (List Vote)

-- `executeAutomationCycle`, up to its two placeholders and its log.
unfoldable pub cycle : Outside → List Act
unfolding process_pending create_new
cycle o =
    let pending = process_pending o.pending_creates o.pending_proposals o.pending_votes_read in
    if pending.1
    then pending.0
      ++ (check_for_new o.new_creates o.new_proposals ++ process_completed o.completed_votes_read)
    else pending.0
