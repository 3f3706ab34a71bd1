-- ===== src/RebalancePlan/Soundness.antt =====
-- The plan of a rebalancing: who gives, who receives, and how much.
use mathlib.Core.List.{Mem}
use stake_basket.Prelude.{
  All-take, All-Mem, filter-All, ltb→lt, ◌&&◌, ℕ, suc, ◌+◌, ◌%◌, ◌≤◌, ◌<◌, ◌≡◌, refl, Bool, true,
  false, String, List, [], ◌∷◌, length, min, total, take, filter, All, sort_by-All, ◌==◌,
  if◌then◌else◌, arith, Bool-cases, inl, inr, ltb,
}
use stake_basket.Monitoring.{ValidatorInfo}
use stake_basket.RebalancePlan.{
  is_problem, is_good, sources, distribute, distribute_from, Target, Source, rebalance_plan,
}

-- No validator both gives and receives.
pub good-not-problem : (v : ValidatorInfo) → is_good v ≡ true → is_problem v ≡ false
unfolding is_good is_problem
good-not-problem v h = ground arith

-- Between one or three and more good validators the whole amount is divided; between two an odd unit
-- is left over.
pub distribute-total :
    (amount : ℕ) (good : List ValidatorInfo)
    → 0 < length good
    → total (λ t. t.amount) (distribute amount good) + (if length good == 2 then amount % 2 else 0)
      ≡ amount
unfolding distribute distribute_from
distribute-total amount [] h = absurd (omega arith)
distribute-total amount (a ∷ []) h = ground arith
distribute-total amount (a ∷ b ∷ []) h = ground arith
distribute-total amount (a ∷ b ∷ c ∷ rest) h =
    let e : min (suc (suc (suc (length rest)))) 3 ≡ 3 = omega arith in rw e (ground arith)

-- A good validator of the list, at its rate.
abbrev pub IsTarget : List ValidatorInfo → Target → Type 0
IsTarget validators t =
    (v : ValidatorInfo) × Mem v validators
    × (is_good v ≡ true)
    × (t.address ≡ v.address)
    × (t.expected_apy ≡ v.effective_apy)

-- A problem validator of the list, with all of its delegation.
abbrev pub IsSource : (String → ℕ) → List ValidatorInfo → Source → Type 0
IsSource delegated validators s =
    (v : ValidatorInfo) × Mem v validators
    × (is_problem v ≡ true)
    × (s.address ≡ v.address)
    × (s.amount ≡ delegated v.address)
    × (0 < s.amount)

-- What passes a test, and where it comes from.
abbrev Chosen : (ValidatorInfo → Bool) → List ValidatorInfo → ValidatorInfo → Type 0
Chosen p validators v = Mem v validators × (p v ≡ true)

filter-Chosen :
    (p : ValidatorInfo → Bool) (vs : List ValidatorInfo) → All (Chosen p vs) (filter p vs)
filter-Chosen p vs = filter-All p (λ v. Mem v vs) vs (All-Mem vs)

module _ (validators : List ValidatorInfo) where
  distribute_from-IsTarget :
      (index per remaining : ℕ) (good : List ValidatorInfo)
      → All (Chosen is_good validators) good
      → All (IsTarget validators) (distribute_from index per remaining good)
  unfolding distribute_from
  distribute_from-IsTarget index per remaining [] h = tt
  distribute_from-IsTarget index per remaining (v ∷ good) ((m, p), h) =
      ((v, m, p, refl, refl), distribute_from-IsTarget (suc index) per _ good h)

  distribute-IsTarget :
      (amount : ℕ) (good : List ValidatorInfo)
      → All (Chosen is_good validators) good
      → All (IsTarget validators) (distribute amount good)
  unfolding distribute
  distribute-IsTarget amount good h = elim (Bool-cases (ltb 0 (length good) && ltb 0 amount)) [
    | inl some_good ↦ rw some_good (
        distribute_from-IsTarget 0 _ amount (take 3 good)
          (All-take (Chosen is_good validators) 3 good h))
    | inr idle ↦ rw idle tt
  ]

  sources-IsSource :
      (delegated : String → ℕ) (problems : List ValidatorInfo)
      → All (Chosen is_problem validators) problems
      → All (IsSource delegated validators) (sources delegated problems)
  unfolding sources
  sources-IsSource delegated [] h = tt
  sources-IsSource delegated (v ∷ problems) ((m, p), h) =
      elim (Bool-cases (ltb 0 (delegated v.address))) [
        | inl holds ↦
            rw holds
              ((v, m, p, refl, refl, ltb→lt _ _ holds), sources-IsSource delegated problems h)
        | inr bare ↦ rw bare (sources-IsSource delegated problems h)
      ]

-- No delegation of a problem validator is left out.
sources-total :
    (delegated : String → ℕ) (problems : List ValidatorInfo)
    → total (λ s. s.amount) (sources delegated problems) ≡ total (λ v. delegated v.address) problems
unfolding sources
sources-total delegated [] = refl
sources-total delegated (v ∷ problems) = ground (arith, sources-total delegated problems)

distribute-le :
    (amount : ℕ) (good : List ValidatorInfo)
    → total (λ t. t.amount) (distribute amount good) ≤ amount
unfolding distribute
distribute-le amount [] = omega arith
distribute-le amount (v ∷ good) = omega (arith, distribute-total amount (v ∷ good))

-- In a plan every source is a problem validator of the list that gives all of its positive delegation,
-- and together they give what all its problem validators have; every target is a good validator of the
-- list, with its rate; no validator is both a problem and good; and the targets receive no more than is
-- given.
pub rebalance_plan_sound :
    (delegated : String → ℕ) (validators : List ValidatorInfo)
    → let plan = rebalance_plan delegated validators in
      All (IsSource delegated validators) plan.from_validators
      × (total (λ s. s.amount) plan.from_validators
          ≡ total (λ v. delegated v.address) (filter is_problem validators))
      × All (IsTarget validators) plan.to_validators
      × ((v : ValidatorInfo) → is_good v ≡ true → is_problem v ≡ false)
      × (total (λ t. t.amount) plan.to_validators ≤ total (λ s. s.amount) plan.from_validators)
unfolding rebalance_plan
rebalance_plan_sound delegated validators = (
  sources-IsSource validators delegated _ (filter-Chosen is_problem validators),
  sources-total delegated (filter is_problem validators),
  distribute-IsTarget validators _ _
      (sort_by-All _ (Chosen is_good validators) _ (filter-Chosen is_good validators)),
  good-not-problem,
  distribute-le _ _,
)
