-- ===== src/WithdrawFlow/Tests.antt =====
-- Runs of a withdrawal.
use stake_basket.Prelude.{◌≡◌, refl, true, false, none, List, [], ◌∷◌}
use stake_basket.WithdrawFlow.{
  Hooks, initial, start_withdrawal, run_effects, approve_tokens, redeem_tokens,
}
use stake_basket.WithdrawFlow.Flow.{
  Event, started, rendered, waited, reset, apply, run_from, IsConsistent,
  withdraw_flow-IsConsistent,
}

abbrev approving : Hooks
approving = record {
  is_approving = true;
  is_redeeming = false;
  approve_success = false;
  redeem_success = false;
}

abbrev approved : Hooks
approved = record approving { is_approving = false; approve_success = true }

-- The success of an earlier withdrawal is still there.
abbrev left_over : Hooks
left_over = record approving { redeem_success = true }

-- Reset within the half second.
abbrev reset_early : List Event
reset_early =
    started true "5"
    ∷ rendered true true true approving
    ∷ rendered true true true approved
    ∷ reset
    ∷ waited
    ∷ []

withdraw_flow-IsConsistent_example : IsConsistent (run_from initial reset_early)
withdraw_flow-IsConsistent_example = withdraw_flow-IsConsistent reset_early

redeems_nothing :
    (run_from initial reset_early).calls ≡ redeem_tokens none ∷ approve_tokens "5" ∷ []
unfolding run_from apply initial start_withdrawal run_effects
redeems_nothing = refl
