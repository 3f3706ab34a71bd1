-- ===== src/WithdrawFlow/Flow.antt =====
-- The runs of the flow.
use stake_basket.Prelude.{
  ◌≡◌, refl, String, Bool, true, false, ◌||◌, List, [], ◌∷◌, str_eq, if◌then◌else◌, ltb, arith,
}
use stake_basket.WithdrawFlow.{
  WithdrawStep, completed, approve_tokens, WithdrawFlow, Hooks, initial, start_withdrawal, fail,
  approval_effect, success_effect, failure_effect, run_effects, redeem_after_delay, reset_flow,
  is_approval, is_redemption, is_pending, if_due,
}

pub data Event : Type 0 where
  started : Bool → String → Event
  rendered : Bool → Bool → Bool → Hooks → Event
  failed : String → Event
  waited reset : Event

unfoldable pub apply : Event → WithdrawFlow → WithdrawFlow
unfolding start_withdrawal run_effects fail redeem_after_delay reset_flow
apply (started needs_approval amount) s = start_withdrawal needs_approval amount s
apply (rendered first second third h) s = run_effects first second third h s
apply (failed text) s = fail text s
apply waited s = if ltb 0 s.waiting then redeem_after_delay s else s
apply reset s = reset_flow s

unfoldable pub run_from : WithdrawFlow → List Event → WithdrawFlow
run_from s [] = s
run_from s (e ∷ es) = run_from (apply e s) es

-- A withdrawal runs just in the two steps in between, and just then there is an amount.
abbrev pub IsConsistent : WithdrawFlow → Type 0
IsConsistent s =
    (s.is_withdrawing ≡ (is_approval s.step || is_redemption s.step))
    × (is_pending s.pending_amount ≡ s.is_withdrawing)

start_withdrawal-IsConsistent :
    (needs_approval : Bool) (amount : String) (s : WithdrawFlow)
    → IsConsistent s
    → IsConsistent (start_withdrawal needs_approval amount s)
unfolding start_withdrawal
start_withdrawal-IsConsistent needs_approval amount s c = ground arith

approval_effect-IsConsistent :
    (h : Hooks) (s : WithdrawFlow) → IsConsistent s → IsConsistent (approval_effect h s.step s)
unfolding approval_effect
approval_effect-IsConsistent h s c = ground arith

success_effect-IsConsistent :
    (h : Hooks) (r : WithdrawStep) (s : WithdrawFlow)
    → IsConsistent s
    → IsConsistent (success_effect h r s)
unfolding success_effect
success_effect-IsConsistent h r s c = ground arith

failure_effect-IsConsistent :
    (h : Hooks) (r : WithdrawStep) (s : WithdrawFlow)
    → IsConsistent s
    → IsConsistent (failure_effect h r s)
unfolding failure_effect fail
failure_effect-IsConsistent h r s c = ground arith

if_due-IsConsistent :
    (due : Bool) (effect : WithdrawFlow → WithdrawFlow) (s : WithdrawFlow)
    → IsConsistent s
    → IsConsistent (effect s)
    → IsConsistent (if_due due effect s)
if_due-IsConsistent true effect s c ce = ce
if_due-IsConsistent false effect s c ce = c

run_effects-IsConsistent :
    (first second third : Bool) (h : Hooks) (s : WithdrawFlow)
    → IsConsistent s
    → IsConsistent (run_effects first second third h s)
unfolding run_effects
run_effects-IsConsistent first second third h s c =
    let c1 =
      if_due-IsConsistent first (approval_effect h s.step) s c
        (approval_effect-IsConsistent h s c) in
    let c2 =
      if_due-IsConsistent second (success_effect h s.step) _ c1
        (success_effect-IsConsistent h s.step _ c1) in
    if_due-IsConsistent third (failure_effect h s.step) _ c2
      (failure_effect-IsConsistent h s.step _ c2)

apply-IsConsistent : (e : Event) (s : WithdrawFlow) → IsConsistent s → IsConsistent (apply e s)
unfolding apply fail redeem_after_delay reset_flow
apply-IsConsistent (started needs_approval amount) s c =
    start_withdrawal-IsConsistent needs_approval amount s c
apply-IsConsistent (rendered first second third h) s c =
    run_effects-IsConsistent first second third h s c
apply-IsConsistent (failed text) s c = (refl, refl)
apply-IsConsistent waited s c = ground arith
apply-IsConsistent reset s c = (refl, refl)

run_from-IsConsistent :
    (es : List Event) (s : WithdrawFlow) → IsConsistent s → IsConsistent (run_from s es)
unfolding run_from
run_from-IsConsistent [] s c = c
run_from-IsConsistent (e ∷ es) s c = run_from-IsConsistent es (apply e s) (apply-IsConsistent e s c)

-- Whatever is started, rendered, waited for, reset or fails, in any order: the flow says that it
-- withdraws just in the steps of approval and redemption, and just then it has an amount.
pub withdraw_flow-IsConsistent : (es : List Event) → IsConsistent (run_from initial es)
unfolding initial
withdraw_flow-IsConsistent es = run_from-IsConsistent es initial (refl, refl)

-- While the success of an earlier redemption is still reported, a new withdrawal that asks for an
-- approval counts as completed as soon as it is rendered, although all it has called is the approval.
old_success_completes :
    (s : WithdrawFlow) (amount : String) (h : Hooks) (first third : Bool)
    → str_eq amount "" ≡ false
    → s.is_withdrawing ≡ false
    → h.redeem_success ≡ true
    → h.is_approving ≡ true
    → ((run_effects first true third h (start_withdrawal true amount s)).step ≡ completed)
      × ((run_effects first true third h (start_withdrawal true amount s)).calls
          ≡ approve_tokens amount ∷ s.calls)
unfolding run_effects start_withdrawal approval_effect success_effect failure_effect
old_success_completes s amount h true true filled free old asking =
    rw (filled, free, old, asking) (ground arith)
old_success_completes s amount h true false filled free old asking =
    rw (filled, free, old) (ground arith)
old_success_completes s amount h false true filled free old asking =
    rw (filled, free, old, asking) (refl, refl)
old_success_completes s amount h false false filled free old asking =
    rw (filled, free, old) (refl, refl)
