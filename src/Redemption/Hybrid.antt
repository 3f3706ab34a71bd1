-- ===== src/Redemption/Hybrid.antt =====
-- The hooks src/hooks/useHybridRedemption.ts and useApiBasedRedemption.ts. What `parseEther` and `parseFloat` read, and the text of a
-- number, are arguments; what the contracts hold is in wei, and 0 counts as missing, as for the hook.
use stake_basket.Prelude.{
  suc, ℕ, String, Bool, true, false, not, ◌&&◌, ◌||◌, Option, none, some, List, [], ◌∷◌, Ratio,
  ◌over◌, Answer, answered, thrown, less, ltb, leb, any, ◌==◌, str_eq, if◌then◌else◌,
}
use stake_basket.Redemption.{Redemption, redeemed, in_ether, calculate_redemption_amount}
use stake_basket.ContractStore.{is_present, or_empty}

pub data PriceOrigin : Type 0 where
  contract api nowhere : PriceOrigin

pub record PriceSource : Type 0 where
  pub core_price : Ratio
  pub btc_price : Ratio
  pub source : PriceOrigin

pub record ContractPrices : Type 0 where
  pub core : Option ℕ
  pub btc : Option ℕ
  pub has_error : Bool

abbrev pub or_zero : Option ℕ → ℕ
or_zero none = 0
or_zero (some n) = n

abbrev pub is_positive : Ratio → Bool
is_positive r = less (0 over 1) r

abbrev pub api_prices : Ratio → Ratio → PriceSource
api_prices core btc =
    if is_positive core && is_positive btc
    then record { core_price = core; btc_price = btc; source = api }
    else record { core_price = 0 over 1; btc_price = 0 over 1; source = nowhere }

-- `getBestPrices`
unfoldable pub get_best_prices : (Ratio → Ratio) → ContractPrices → Ratio → Ratio → PriceSource
get_best_prices round c core btc =
    if ltb 0 (or_zero c.core) && ltb 0 (or_zero c.btc) && not c.has_error
    then record {
      core_price = in_ether round (or_zero c.core);
      btc_price = in_ether round (or_zero c.btc);
      source = contract;
    }
    else api_prices core btc

pub record Pool : Type 0 where
  pub total_supply : Option ℕ
  pub total_pooled_core : Option ℕ
  pub total_pooled_btc : Option ℕ

-- What the hook shows: the amount that comes back, its value, and whether there is a message.
pub record Calculation : Type 0 where
  pub calculated_return : Option ℕ
  pub usd_value : Ratio
  pub has_message : Bool

abbrev pub cleared : Bool → Calculation
cleared has_message = record {
  calculated_return = none;
  usd_value = 0 over 1;
  has_message = has_message;
}

abbrev pub shown_result : Redemption → Calculation
shown_result (redeemed r) = record {
  calculated_return = some r.core_to_return;
  usd_value = r.usd_value;
  has_message = false;
}
shown_result _ = cleared true

abbrev pub on_answer : Answer ℕ → (ℕ → Calculation) → Calculation
on_answer (answered n) rest = rest n
on_answer (thrown e) rest = cleared true

-- What the hook is given: readers, the text of a number, and the rounding to double precision.
pub record Readers : Type 0 where
  pub parse_ether : String → Answer ℕ
  pub parse_number : Ratio → Answer ℕ
  pub show_number : ℕ → String
  pub round : Ratio → Ratio

-- The figures of the pool are in wei, and their texts are read as amounts in ether.
unfoldable pub calculated : Readers → String → Pool → PriceSource → Calculation
unfolding calculate_redemption_amount
calculated r shares pool prices = on_answer (r.parse_ether shares) (λ wanted.
    on_answer (r.parse_ether (r.show_number (or_zero pool.total_supply))) (λ supply.
      on_answer (r.parse_ether (r.show_number (or_zero pool.total_pooled_core))) (λ core.
        on_answer (r.parse_ether (r.show_number (or_zero pool.total_pooled_btc))) (λ btc.
          shown_result (
            calculate_redemption_amount r.round r.parse_number (record {
              shares = wanted;
              total_supply = supply;
              pooled_core = core;
              pooled_btc = btc;
              core_price = prices.core_price;
              btc_price = prices.btc_price;
            }))))))

-- `price === 0`, which NaN is not
abbrev pub is_zero_price : Ratio → Bool
is_zero_price p = p.num == 0 && ltb 0 p.den

-- `calculateRedemption`
unfoldable pub calculate_redemption : Readers → String → Pool → PriceSource → Calculation
unfolding calculated
calculate_redemption r shares pool prices =
    if str_eq shares "" || or_zero pool.total_supply == 0 || or_zero pool.total_pooled_core == 0
    then cleared false
    else if is_zero_price prices.core_price || is_zero_price prices.btc_price
    then cleared true
    else calculated r shares pool prices

-- `calculateRedemption` of src/hooks/useApiBasedRedemption.ts, with the prices of the API alone
unfoldable pub calculate_api_redemption : Readers → String → Pool → Ratio → Ratio → Calculation
unfolding calculated
calculate_api_redemption r shares pool core btc =
    if str_eq shares ""
      || or_zero pool.total_supply == 0
      || or_zero pool.total_pooled_core == 0
      || not (is_positive core)
    then cleared false
    else calculated r shares pool (record { core_price = core; btc_price = btc; source = api })

-- What a call of `executeRedemption` does: a message, an error that nothing catches, or a call.
pub data HookExecution : Type 0 where
  reported uncaught : String → HookExecution
  submitted : String → ℕ → HookExecution

-- `parseFloat(shares) <= 0`; NaN is not.
abbrev pub is_not_positive : Option Ratio → Bool
is_not_positive none = false
is_not_positive (some r) = not (ltb 0 r.num) && ltb 0 r.den

abbrev pub execute_parsed : String → ℕ → Answer ℕ → HookExecution
execute_parsed basket balance (thrown e) = uncaught e
execute_parsed basket balance (answered wei) =
    if ltb balance wei then reported "Insufficient BASKET token balance" else submitted basket wei

-- `executeRedemption`, with the number that `parseFloat` reads
unfoldable pub execute_redemption :
    Readers → Option String → Option String → Option ℕ → Option Ratio → String → HookExecution
execute_redemption r address basket balance number shares =
    if not (is_present address) || not (is_present basket) || str_eq shares ""
    then reported "Missing required data for redemption"
    else if or_zero balance == 0 || is_not_positive number
    then reported "Invalid redemption amount"
    else execute_parsed (or_empty basket) (or_zero balance) (r.parse_ether shares)

-- `executeRedemption` of src/hooks/useApiBasedRedemption.ts, which differs in its messages alone
unfoldable pub execute_api_redemption :
    Readers → Option String → Option String → Option ℕ → Option Ratio → String → HookExecution
unfolding execute_redemption
execute_api_redemption r address basket balance number shares =
    execute_redemption r address basket balance number shares

-- `canRedeem`
unfoldable pub can_redeem : Readers → Option ℕ → String → Answer Bool
can_redeem r balance shares =
    if or_zero balance == 0 || str_eq shares ""
    then answered false
    else elim (r.parse_ether shares) [
      | answered wei ↦ answered (leb wei (or_zero balance))
      | thrown e ↦ thrown e
    ]

-- The effect of a success: the transactions that have been announced, and whether this one is now.
unfoldable pub announce : String → List String → List String × Bool
announce hash shown =
    if any (λ h. str_eq h hash) shown then (shown, false) else (hash ∷ shown, true)

-- How often a run of the effect announces a transaction.
unfoldable pub announcements : String → List String → List String → ℕ
unfolding announce
announcements hash [] shown = 0
announcements hash (h ∷ hashes) shown =
    let step = announce h shown in
    let rest = announcements hash hashes step.0 in
    if step.1 && str_eq h hash then suc rest else rest
