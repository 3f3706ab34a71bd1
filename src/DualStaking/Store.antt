-- ===== src/DualStaking/Store.antt =====
-- The store of src/store/useDualStakingStore.ts, which has four tiers of its own. An amount is the number
-- that its text denotes.
pub mod Positions
use stake_basket.Prelude.{
  ℕ, ◌+◌, ◌*◌, Bool, true, false, not, ◌&&◌, Option, none, some, String, Ratio, ◌over◌, less, add,
  times, quotient, distance, ltb, if◌then◌else◌,
}
use stake_basket.DualStaking.{amount}

pub data StoreTier : Type 0 where
  base boost super satoshi : StoreTier

pub record DualStakePosition : Type 0 where
  pub core_amount : Ratio
  pub btc_amount : Ratio
  pub shares : Ratio
  pub tier : StoreTier
  pub ratio : Ratio
  pub apy : Ratio
  pub rewards : Ratio
  pub last_claim_time : ℕ

pub data Transaction : Type 0 where
  staking unstaking claiming rebalancing : Transaction

pub record DualStaking : Type 0 where
  pub core_balance : Ratio
  pub btc_balance : Ratio
  pub position : Option DualStakePosition
  pub is_loading : Bool
  pub selected_tier : Option StoreTier
  pub needs_rebalancing : Bool
  pub rebalance_threshold : ℕ
  pub is_staking : Bool
  pub is_unstaking : Bool
  pub is_claiming : Bool
  pub is_rebalancing : Bool
  pub error : Option String

unfoldable pub initial : DualStaking
initial = record {
  core_balance = 0 over 1;
  btc_balance = 0 over 1;
  position = none;
  is_loading = false;
  selected_tier = none;
  needs_rebalancing = false;
  rebalance_threshold = 5;
  is_staking = false;
  is_unstaking = false;
  is_claiming = false;
  is_rebalancing = false;
  error = none;
}

-- `TIER_REQUIREMENTS[tier].ratio`, which `getTargetRatio` reads, and its `apy`
abbrev pub target_ratio : StoreTier → ℕ
target_ratio base = 0
target_ratio boost = 2000
target_ratio super = 6000
target_ratio satoshi = 16000

abbrev pub tier_apy : StoreTier → ℕ
tier_apy base = 8
tier_apy boost = 12
tier_apy super = 16
tier_apy satoshi = 20

-- `getCurrentRatio`, of the position that is stored
abbrev pub current_ratio : Option DualStakePosition → Ratio
current_ratio none = 0 over 1
current_ratio (some p) =
    if ltb 0 p.btc_amount.num then quotient p.core_amount p.btc_amount else 0 over 1

-- More than so many percent off the target, which is not 0.
unfoldable pub is_off : Ratio → ℕ → ℕ → Bool
is_off ratio target percent =
    less (percent over 1)
      (times (quotient (distance ratio (target over 1)) (target over 1)) (100 over 1))
    && ltb 0 target

-- `setPosition`: the ratio is read before the position is stored.
unfoldable pub set_position : DualStakePosition → DualStaking → DualStaking
unfolding is_off
set_position p s = record s {
  position = some p;
  needs_rebalancing = is_off (current_ratio s.position) (target_ratio p.tier) s.rebalance_threshold;
}

unfoldable pub clear_position : DualStaking → DualStaking
clear_position s = record s { position = none; selected_tier = none; needs_rebalancing = false }

unfoldable pub set_balances : Ratio → Ratio → DualStaking → DualStaking
set_balances core btc s = record s { core_balance = core; btc_balance = btc }

unfoldable pub set_selected_tier : Option StoreTier → DualStaking → DualStaking
set_selected_tier tier s = record s { selected_tier = tier }

unfoldable pub set_loading : Bool → DualStaking → DualStaking
set_loading loading s = record s { is_loading = loading }

unfoldable pub set_transaction_state : Transaction → Bool → DualStaking → DualStaking
set_transaction_state staking state s = record s { is_staking = state }
set_transaction_state unstaking state s = record s { is_unstaking = state }
set_transaction_state claiming state s = record s { is_claiming = state }
set_transaction_state rebalancing state s = record s { is_rebalancing = state }

unfoldable pub set_error : Option String → DualStaking → DualStaking
set_error error s = record s { error = error }

unfoldable pub set_needs_rebalancing : Bool → DualStaking → DualStaking
set_needs_rebalancing needs s = record s { needs_rebalancing = needs }

unfoldable pub calculate_required_core : Ratio → StoreTier → Ratio
calculate_required_core btc tier = times (amount btc) (target_ratio tier over 1)

unfoldable pub calculate_optimal_tier : Ratio → Ratio → StoreTier
calculate_optimal_tier core btc =
    let ratio = quotient (amount core) (amount btc) in
    if not (ltb 0 (amount btc).num)
    then base
    else if not (less ratio (16000 over 1))
    then satoshi
    else if not (less ratio (6000 over 1))
    then super
    else if not (less ratio (2000 over 1))
    then boost
    else base

-- `getPositionValue`, before its texts: the total, the share of CORE and that of BTC
unfoldable pub position_value : Option DualStakePosition → Ratio × Ratio × Ratio
position_value none = (0 over 1, 0 over 1, 0 over 1)
position_value (some p) =
    let btc = times p.btc_amount (50000 over 1) in (add p.core_amount btc, p.core_amount, btc)
