-- ===== src/Redemption/HookTests.antt =====
-- The hook with texts that are read by their length.
use stake_basket.Prelude.{
  ℕ, zero, suc, ◌*◌, ◌≤◌, String, some, ◌over◌, answered, ◌≡◌, refl, ap, arith, true, false,
}
use stake_basket.Validation.{text_length}
use stake_basket.Redemption.{core_amount, ether}
use stake_basket.ContractStore.{or_empty}
use stake_basket.Redemption.Hybrid.{
  Readers, PriceSource, api, calculate_redemption, Calculation, execute_redemption, can_redeem,
  or_zero,
}
use stake_basket.Redemption.Hooks.{
  handed_over, ReadsNumbers, too_many_shares_calculated, execute_redemption_within_balance,
}

ones : ℕ → String
ones zero = ""
ones (suc n) = String.◌∷◌ "1" (ones n)

text_length-ones : (n : ℕ) → text_length (ones n) ≡ n
unfolding ones
text_length-ones zero = refl
text_length-ones (suc n) = ap suc (text_length-ones n)

abbrev readers : Readers
readers = record {
  parse_ether = λ s. answered (text_length s * ether);
  parse_number = λ q. answered q.num;
  show_number = ones;
  round = λ q. q;
}

readers-ReadsNumbers : ReadsNumbers readers
readers-ReadsNumbers n = rw (text_length-ones n) refl

abbrev api_source : PriceSource
api_source = record { core_price = 1 over 2; btc_price = 95000 over 1; source = api }

abbrev comes_back : ℕ
comes_back = (core_amount readers.round (handed_over ether 5 7 0 api_source)).num

abbrev shown : Calculation
shown =
    calculate_redemption readers "1"
      (record { total_supply = some 5; total_pooled_core = some 7; total_pooled_btc = some 0 })
      api_source

too_many_shares_calculated_example :
    (shown.calculated_return ≡ some comes_back) × (shown.has_message ≡ false)
too_many_shares_calculated_example =
    too_many_shares_calculated readers "1" ether 5 7 (some 0) api_source comes_back
      readers-ReadsNumbers refl refl refl (omega arith) (omega arith) (omega arith) (omega arith)
      (omega arith, omega arith)

execute_redemption_within_balance_example :
    (readers.parse_ether "1" ≡ answered ether)
    × (ether ≤ or_zero (some (3 * ether)))
    × ("0xB" ≡ or_empty (some "0xB"))
    × (can_redeem readers (some (3 * ether)) "1" ≡ answered true)
unfolding execute_redemption
execute_redemption_within_balance_example =
    execute_redemption_within_balance readers (some "0xA") (some "0xB") (some (3 * ether))
      (some (1 over 1)) "1" "0xB" ether refl
