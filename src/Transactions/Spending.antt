-- ===== src/Transactions/Spending.antt =====
-- Approvals of the dual hook and the deposit that they are for.
use stake_basket.Prelude.{some, ℕ, String, Bool, true, false, ◌≡◌, Option, sym}
use stake_basket.TransactionErrors.Handling.{Attempt, returned}
use stake_basket.ContractStore.{is_present, or_empty}
use stake_basket.Networks.{validate_network}
use stake_basket.Transactions.Submission.{Setting, require, written, on_valid_network}
use stake_basket.Transactions.Guards.{
  parsed-returned, require-returned, thrown_by-returned, connected-returned,
  on_valid_network-returned,
}
use stake_basket.Transactions.Dual.{
  DualCall, deposit, approve, dual_basket, core_token, btc_token, dual_deployed, dual_deposit_call,
  submit_dual_deposit, submit_token_approval, submit_core_approval, submit_btc_approval,
}

module _ (s : Setting DualCall) where
  -- An approval that has reached the wallet is for the amount that was read, and names the basket.
  submit_token_approval-returned :
      (token : Option String) (missing amount : String) (call : DualCall)
      → submit_token_approval s token missing amount ≡ returned call
      → (wei : ℕ) × (s.parse_ether amount ≡ returned wei)
        × (is_present token ≡ true)
        × (call ≡ approve (or_empty token) (or_empty (dual_basket s)) wei 80000)
  unfolding submit_token_approval
  submit_token_approval-returned token missing amount call h =
      let read = parsed-returned (s.parse_ether amount) _ call h in
      let sent_call = approve (or_empty token) (or_empty (dual_basket s)) read.0 80000 in
      let open_wallet =
        connected-returned s
          (require (is_present token) missing (dual_deployed s (written s sent_call))) call
          read.2 in
      let token_there =
        require-returned (is_present token) missing (dual_deployed s (written s sent_call)) call
          open_wallet.1 in
      let there =
        require-returned (is_present (dual_basket s)) _ (written s sent_call) call token_there.1 in
      let sent = thrown_by-returned (s.write sent_call) sent_call call there.1 in
      (read.0, read.1, token_there.0, sym sent.1)

  submit_dual_deposit-returned :
      (core_amount btc_amount : String) (native : Bool) (call : DualCall)
      → submit_dual_deposit s core_amount btc_amount native ≡ returned call
      → (core btc : ℕ) × (s.parse_ether core_amount ≡ returned core)
        × (s.parse_ether btc_amount ≡ returned btc)
        × ((validate_network s.in_development (some s.chain_id)).is_available ≡ true)
        × (call ≡ dual_deposit_call native (or_empty (dual_basket s)) core btc)
  unfolding submit_dual_deposit
  submit_dual_deposit-returned core_amount btc_amount native call h =
      let read_core = parsed-returned (s.parse_ether core_amount) _ call h in
      let read_btc = parsed-returned (s.parse_ether btc_amount) _ call read_core.2 in
      let sent_call = dual_deposit_call native (or_empty (dual_basket s)) read_core.0 read_btc.0 in
      let open_wallet =
        connected-returned s (dual_deployed s (on_valid_network s (written s sent_call))) call
          read_btc.2 in
      let there =
        require-returned (is_present (dual_basket s)) _ (on_valid_network s (written s sent_call))
          call open_wallet.1 in
      let allowed = on_valid_network-returned s (written s sent_call) call there.1 in
      let sent = thrown_by-returned (s.write sent_call) sent_call call allowed.1 in
      (read_core.0, read_btc.0, read_core.1, read_btc.1, allowed.0.1, sym sent.1)

  same_amount : (a : Attempt ℕ) (m n : ℕ) → a ≡ returned m → a ≡ returned n → m ≡ n
  same_amount a m n h k = cc

  -- A deposit of both tokens takes what was approved for the same texts: the two approvals name the
  -- basket that the deposit is sent to, and the amounts that it takes. The deposit also waits for a
  -- network that is available.
  pub approvals_match_deposit :
      (core_amount btc_amount : String) (core_approval btc_approval call : DualCall)
      → submit_core_approval s core_amount ≡ returned core_approval
      → submit_btc_approval s btc_amount ≡ returned btc_approval
      → submit_dual_deposit s core_amount btc_amount false ≡ returned call
      → ((validate_network s.in_development (some s.chain_id)).is_available ≡ true)
        × (basket : String) × (core btc : ℕ) × (call ≡ deposit basket core btc 400000)
        × (core_approval ≡ approve (or_empty (core_token s)) basket core 80000)
        × (btc_approval ≡ approve (or_empty (btc_token s)) basket btc 80000)
  unfolding submit_core_approval submit_btc_approval
  approvals_match_deposit core_amount btc_amount core_approval btc_approval call hc hb hd =
      let c = submit_token_approval-returned (core_token s) _ core_amount core_approval hc in
      let b = submit_token_approval-returned (btc_token s) _ btc_amount btc_approval hb in
      let d = submit_dual_deposit-returned core_amount btc_amount false call hd in
      (
        d.4,
        or_empty (dual_basket s),
        c.0,
        b.0,
        rw
            (
              same_amount (s.parse_ether core_amount) c.0 d.0 c.1 d.2,
              same_amount (s.parse_ether btc_amount) b.0 d.1 b.1 d.3,
            )
            d.5,
        c.3,
        b.3,
      )
