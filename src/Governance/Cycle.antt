-- ===== src/Governance/Cycle.antt =====
-- Which votes a cycle reads, and which it casts.
use stake_basket.Prelude.{
  ◌≡◌, refl, ◌∙◌, Bool, true, false, List, [], ◌∷◌, ◌++◌, map, filter, filter-append, all,
  Bool-cases, inl, inr, if◌then◌else◌, Answer, answered, thrown,
}
use stake_basket.Governance.{
  String, Vote, winning_choice, Proposal, Act, proxy_created, vote_cast, cast_votes, create_all,
  pending_votes, process_pending, create_new, check_for_new, Outside, cycle,
}

abbrev pub is_vote : Act → Bool
is_vote (proxy_created id) = false
is_vote (vote_cast id choice power) = true

votes-cast_votes :
    (prefix : String) (vs : List Vote)
    → filter is_vote (cast_votes prefix vs) ≡ cast_votes prefix vs
votes-cast_votes prefix [] = refl
votes-cast_votes prefix (v ∷ vs) = cc (votes-cast_votes prefix vs)

votes-create_all :
    (creates : Proposal → Bool) (ps : List Proposal)
    → (filter is_vote (create_all creates ps).0 ≡ []) × ((create_all creates ps).1 ≡ all creates ps)
unfolding create_all
votes-create_all creates [] = (refl, refl)
votes-create_all creates (p ∷ ps) = elim (Bool-cases (creates p)) [
  | inl made ↦ rw made (votes-create_all creates ps)
  | inr failed ↦ rw failed (refl, refl)
]

votes-create_new :
    (creates : Proposal → Bool) (ps : List Proposal) → filter is_vote (create_new creates ps) ≡ []
unfolding create_new
votes-create_new creates [] = refl
votes-create_new creates (p ∷ ps) = elim (Bool-cases (creates p)) [
  | inl made ↦ rw made (votes-create_new creates ps)
  | inr failed ↦ rw failed (votes-create_new creates ps)
]

votes-check_for_new :
    (creates : Proposal → Bool) (ps : Answer (List Proposal))
    → filter is_vote (check_for_new creates ps) ≡ []
votes-check_for_new creates (thrown e) = refl
votes-check_for_new creates (answered ps) = votes-create_new creates ps

-- The votes of a cycle whose first loop did this, and whose later phases did `rest`.
votes-pending :
    (made : List Act × Bool) (votes : List Vote) (rest : List Act)
    → filter is_vote made.0 ≡ []
    → filter is_vote (
        if (pending_votes made (answered votes)).1
        then (pending_votes made (answered votes)).0 ++ rest
        else (pending_votes made (answered votes)).0)
      ≡ (if made.1 then cast_votes "snapshot-id" votes ++ filter is_vote rest else [])
votes-pending (acts, true) votes rest h =
    rw (filter-append, filter-append, h, votes-cast_votes "snapshot-id" votes) refl
votes-pending (acts, false) votes rest h = h

-- How a vote is cast: as which Snapshot proposal, with which choice and which power.
abbrev pub ballot : String → Vote → Act
ballot prefix v = vote_cast (prefix, v.proposal_id) (winning_choice v) v.total_votes

-- The votes of a cycle in which the pending proposals, the pending votes and the completed votes can be
-- read. If a proxy cannot be created for one of the proposals, none is cast. Otherwise each of the pending
-- votes is cast as the proposal snapshot-id-N, and then each of the completed votes as snapshot-N.
pub cycle_votes :
    (o : Outside) (proposals : List Proposal) (votes completed : List Vote)
    → o.pending_proposals ≡ answered proposals
    → o.pending_votes_read ≡ answered votes
    → o.completed_votes_read ≡ answered completed
    → filter is_vote (cycle o) ≡ (
        if all o.pending_creates proposals
        then map (ballot "snapshot-id") votes ++ map (ballot "snapshot") completed
        else [])
unfolding cycle process_pending
cycle_votes o proposals votes completed e1 e2 e3 =
    let (made, kept) = votes-create_all o.pending_creates proposals in
    let rest = check_for_new o.new_creates o.new_proposals ++ cast_votes "snapshot" completed in
    rw (e1, e2, e3, ← kept)
      (votes-pending (create_all o.pending_creates proposals) votes rest made
        ∙ rw
            (
              filter-append,
              votes-check_for_new o.new_creates o.new_proposals,
              votes-cast_votes "snapshot" completed,
            )
            refl)
