-- ===== src/Redemption/Hooks.antt =====
-- What the redemption hook lets through.
use stake_basket.Prelude.{
  ℕ, ◌*◌, ◌<◌, ◌≤◌, String, true, false, not, ◌||◌, Option, some, List, [], ◌∷◌, Ratio, Answer,
  answered, thrown, ltb, leb, any, ◌==◌, str_eq, eq_iff, ◌≡◌, refl, arith, Bool-cases, inl, inr,
}
use stake_basket.Redemption.{
  ether, core_amount, calculate_redemption_amount, redeemed_as, result_of,
  RedemptionCalculationParams,
}
use stake_basket.ContractStore.{is_present, or_empty}
use stake_basket.Redemption.Hybrid.{
  Readers, PriceSource, calculate_redemption, calculated, shown_result, submitted,
  execute_redemption, execute_parsed, is_not_positive, can_redeem, announce, announcements, or_zero,
}

-- `parseEther` of the text of a whole number.
abbrev pub ReadsNumbers : Readers → Type 0
ReadsNumbers r = (n : ℕ) → r.parse_ether (r.show_number n) ≡ answered (n * ether)

shown_answer :
    (round : Ratio → Ratio) (p : RedemptionCalculationParams) (a : Answer ℕ) (n : ℕ)
    → a ≡ answered n
    → ((shown_result (redeemed_as round p a)).calculated_return ≡ some n)
      × ((shown_result (redeemed_as round p a)).has_message ≡ false)
unfolding redeemed_as result_of
shown_answer round p a n e = rw e (refl, refl)

supply_times : (n : ℕ) → 0 < n → (n * ether == 0) ≡ false
supply_times n pos = ground arith

-- What the hook hands to the calculator for a supply and a pool in wei.
abbrev pub handed_over : ℕ → ℕ → ℕ → ℕ → PriceSource → RedemptionCalculationParams
handed_over wanted supply core btc prices = record {
  shares = wanted;
  total_supply = supply * ether;
  pooled_core = core * ether;
  pooled_btc = btc * ether;
  core_price = prices.core_price;
  btc_price = prices.btc_price;
}

-- The hook gives the supply in wei as an amount in ether. So a redemption of more shares than there are,
-- at two positive prices and with a pool, is calculated all the same, without a message, if it is at most
-- 10^18 times the supply and parseEther reads the text of the amount that comes out. The text of a whole
-- number is read as that many ether.
pub too_many_shares_calculated :
    (r : Readers) (shares : String) (wanted supply core : ℕ) (btc : Option ℕ) (prices : PriceSource)
    (back : ℕ)
    → ReadsNumbers r
    → r.parse_number (core_amount r.round (handed_over wanted supply core (or_zero btc) prices))
      ≡ answered back
    → str_eq shares "" ≡ false
    → r.parse_ether shares ≡ answered wanted
    → 0 < supply
    → 0 < core
    → supply < wanted
    → wanted ≤ supply * ether
    → (0 < prices.core_price.num) × (0 < prices.btc_price.num)
    → let shown =
        calculate_redemption r shares
          (record {
            total_supply = some supply;
            total_pooled_core = some core;
            total_pooled_btc = btc;
          })
          prices in
      (shown.calculated_return ≡ some back) × (shown.has_message ≡ false)
unfolding calculate_redemption calculated calculate_redemption_amount redeemed_as result_of
too_many_shares_calculated r shares wanted supply core btc prices back reads writes filled given
      some_supply some_core more fits (pc, pb) =
    let no_core : (core == 0) ≡ false = ground arith in
    let no_supply : (supply == 0) ≡ false = ground arith in
    let enough : ltb (supply * ether) wanted ≡ false = ground arith in
    let core_fine : ltb 0 prices.core_price.num ≡ true = ground arith in
    let btc_fine : ltb 0 prices.btc_price.num ≡ true = ground arith in
    let core_not : (prices.core_price.num == 0) ≡ false = ground arith in
    let btc_not : (prices.btc_price.num == 0) ≡ false = ground arith in
    rw
      (
        filled,
        no_supply,
        no_core,
        core_not,
        btc_not,
        given,
        reads supply,
        reads core,
        reads (or_zero btc),
        supply_times supply some_supply,
        enough,
        core_fine,
        btc_fine,
      )
      (shown_answer r.round (handed_over wanted supply core (or_zero btc) prices) _ _ writes)

execute_parsed-submitted :
    (basket : String) (balance : ℕ) (a : Answer ℕ) (target : String) (wei : ℕ)
    → execute_parsed basket balance a ≡ submitted target wei
    → (a ≡ answered wei) × (wei ≤ balance) × (target ≡ basket)
execute_parsed-submitted basket balance (thrown e) target wei h = cc
execute_parsed-submitted basket balance (answered n) target wei h =
    elim (Bool-cases (ltb balance n)) [
      | inl over ↦ absurd (ground (h, over, arith))
      | inr within ↦
          let sent : submitted basket n ≡ submitted target wei = rw within at h in
          let same : n ≡ wei = cc in
          let least : n ≤ balance = ground arith in (rw same refl, rw (← same) least, cc)
    ]

can_redeem_within :
    (r : Readers) (balance : Option ℕ) (shares : String) (wei : ℕ)
    → (or_zero balance == 0 || str_eq shares "") ≡ false
    → r.parse_ether shares ≡ answered wei
    → wei ≤ or_zero balance
    → can_redeem r balance shares ≡ answered true
unfolding can_redeem
can_redeem_within r balance shares wei present given within =
    let fits : leb wei (or_zero balance) ≡ true = ground arith in rw (present, given, fits) refl

-- A call that reaches the wallet is for the amount that was read, which the user has, and `canRedeem`
-- has said so.
pub execute_redemption_within_balance :
    (r : Readers) (address basket : Option String) (balance : Option ℕ) (number : Option Ratio)
    (shares target : String) (wei : ℕ)
    → execute_redemption r address basket balance number shares ≡ submitted target wei
    → (r.parse_ether shares ≡ answered wei)
      × (wei ≤ or_zero balance)
      × (target ≡ or_empty basket)
      × (can_redeem r balance shares ≡ answered true)
unfolding execute_redemption
execute_redemption_within_balance r address basket balance number shares target wei h =
    elim (Bool-cases (not (is_present address) || not (is_present basket) || str_eq shares "")) [
      | inl lacking ↦ absurd (ground (h, lacking, arith))
      | inr given ↦ elim (Bool-cases (or_zero balance == 0 || is_not_positive number)) [
        | inl invalid ↦ absurd (ground (h, given, invalid, arith))
        | inr valid ↦
            let sent =
              execute_parsed-submitted (or_empty basket) (or_zero balance) (r.parse_ether shares)
                target wei (rw (given, valid) at h) in
            let present : (or_zero balance == 0 || str_eq shares "") ≡ false = ground arith in
            (sent.0, sent.1, sent.2, can_redeem_within r balance shares wei present sent.0 sent.1)
      ]
    ]

announced_already :
    (hash : String) (hashes shown : List String)
    → any (λ h. str_eq h hash) shown ≡ true
    → announcements hash hashes shown ≡ 0
unfolding announcements announce
announced_already hash [] shown there = refl
announced_already hash (h ∷ hashes) shown there = elim (Bool-cases (any (λ g. str_eq g h) shown)) [
  | inl known ↦ rw known (announced_already hash hashes shown there)
  | inr new ↦ elim (Bool-cases (str_eq h hash)) [
    | inl same ↦ absurd (ground ((eq_iff h hash).0 same, new, there, arith))
    | inr other ↦ rw (new, other) (announced_already hash hashes (h ∷ shown) (rw (other) there))
  ]
]

-- However often the effect runs, and for whichever transactions, each is announced once at most.
announced_once : (hash : String) (hashes shown : List String) → announcements hash hashes shown ≤ 1
unfolding announcements announce
announced_once hash [] shown = omega arith
announced_once hash (h ∷ hashes) shown = elim (Bool-cases (any (λ g. str_eq g h) shown)) [
  | inl known ↦ rw known (announced_once hash hashes shown)
  | inr new ↦ elim (Bool-cases (str_eq h hash)) [
    | inl same ↦
        let done = announced_already hash hashes (h ∷ shown) (rw same refl) in
        rw (new, same, done) (omega arith)
    | inr other ↦ rw (new, other) (announced_once hash hashes (h ∷ shown))
  ]
]
