-- ===== src/Governance/Readings.antt =====
-- The votes that are read from the chain.
use stake_basket.Prelude.{
  ℕ, zero, suc, ◌+◌, ◌-◌, ◌≤◌, ◌<◌, max, ◌≡◌, refl, List, [], ◌∷◌, length, leb, ◌&&◌, arith, All,
  All-map, Bool-cases, inl, inr, Answer, answered, thrown,
}
use stake_basket.Governance.{
  Vote, ProposalDetails, ProposalVoting, is_core_dao, counted, votes_from, monitor_votes,
}

-- Numbered upwards.
abbrev pub IsRising : List Vote → Type 0
IsRising [] = Unit
IsRising (v ∷ vs) = All (λ w. v.proposal_id < w.proposal_id) vs × IsRising vs

-- A vote that was read: its number, and its total.
abbrev pub IsRead : ℕ → ℕ → Vote → Type 0
IsRead first past v =
    (first ≤ v.proposal_id)
    × (v.proposal_id < past)
    × (v.total_votes ≡ v.for_votes + v.against_votes + v.abstain_votes)

record AreRead (rounds first : ℕ) (vs : List Vote) : Type 0 where
  read : All (IsRead first (first + rounds)) vs
  rising : IsRising vs
  few : length vs ≤ rounds

skipped-AreRead :
    (rounds id : ℕ) (rest : List Vote) → AreRead rounds (id + 1) rest → AreRead (suc rounds) id rest
skipped-AreRead rounds id rest r = record {
  read =
      All-map (λ v (h : IsRead (id + 1) (id + 1 + rounds) v). (omega arith, omega arith, h.2)) rest
        r.read;
  rising = r.rising;
  few = omega (arith, r.few);
}

counted-AreRead :
    (rounds id : ℕ) (details : Answer ProposalDetails) (voting : Answer ProposalVoting)
    (rest : List Vote)
    → AreRead rounds (id + 1) rest
    → AreRead (suc rounds) id (counted id details voting rest)
counted-AreRead rounds id (thrown e) voting rest r = skipped-AreRead rounds id rest r
counted-AreRead rounds id (answered d) (thrown e) rest r = skipped-AreRead rounds id rest r
counted-AreRead rounds id (answered d) (answered v) rest r =
    elim (Bool-cases (is_core_dao d && leb 4 v.state)) [
      | inl hit ↦ rw hit (record {
        read = ((omega arith, omega arith, refl), (skipped-AreRead rounds id rest r).read);
        rising = (
          All-map (λ w (h : IsRead (id + 1) (id + 1 + rounds) w). omega arith) rest r.read,
          r.rising,
        );
        few = omega (arith, r.few);
      })
      | inr miss ↦ rw miss (skipped-AreRead rounds id rest r)
    ]

module _ (details : ℕ → Answer ProposalDetails) (voting : ℕ → Answer ProposalVoting) where
  votes_from-AreRead : (rounds id : ℕ) → AreRead rounds id (votes_from details voting rounds id)
  unfolding votes_from
  votes_from-AreRead zero id = record { read = tt; rising = tt; few = omega arith }
  votes_from-AreRead (suc rounds) id =
      counted-AreRead rounds id (details id) (voting id) _ (votes_from-AreRead rounds (id + 1))

  -- Once the number of proposals is known, a reading returns: at most ten votes, of the ten last
  -- proposals, each once and in their order, and the total of each is the sum of its three counts.
  monitor_votes_range :
      (count : ℕ)
      → (votes : List Vote) × (monitor_votes details voting (answered count) ≡ answered votes)
        × All (IsRead (max 1 (count - 9)) (count + 1)) votes
        × IsRising votes
        × (length votes ≤ 10)
  unfolding monitor_votes
  monitor_votes_range count =
      let first : ℕ = max 1 (count - 9) in
      let rounds : ℕ = count + 1 - first in
      let all_read = votes_from-AreRead rounds first in
      let end : first + rounds ≡ count + 1 = omega arith in
      (
        votes_from details voting rounds first,
        refl,
        All-map (λ v (h : IsRead first (first + rounds) v). (h.0, omega arith, h.2)) _
            all_read.read,
        all_read.rising,
        omega (arith, all_read.few),
      )
