-- ===== src/DualStaking/Tiers.antt =====
-- Which tier a larger deposit has.
use native.Mathlib.Nat.{mul-pos}
use stake_basket.Prelude.{
  ◌≡◌, Bool-cases, inl, inr, ltb, ltb→lt, lt→ltb, zero, suc, ℕ, ◌*◌, ◌≤◌, ◌<◌, Ratio, ◌over◌, times,
  arith,
}
use stake_basket.Prelude.Rounding.{
  IsAtMost, IsRounding, IsAtMost-times, IsAtMost-add, not_less-IsAtMost,
}
use stake_basket.DualStaking.{
  DualTier, base, bronze, silver, gold, satoshi, min_core, min_btc, min_usd, or_else, amount,
  PriceData, core_asset, btc_asset, total_usd_value, calculate_tier,
}

abbrev pub rank : DualTier → ℕ
rank base = 0
rank bronze = 1
rank silver = 2
rank gold = 3
rank satoshi = 4

or_else-finite : (a b : Ratio) → 0 < a.den → 0 < b.den → 0 < (or_else a b).den
or_else-finite a b ha hb = ground arith

pub amount-pos : (a : Ratio) → 0 < a.num → amount a ≡ a
amount-pos a h = ground arith

factor-pos : (m n : ℕ) → 0 < m * n → 0 < m
factor-pos zero n h = absurd (omega arith)
factor-pos (suc m) n h = omega arith

amount-IsAtMost : (a b : Ratio) → IsAtMost a b → IsAtMost (amount a) (amount b)
amount-IsAtMost a b (fa, fb, le) = elim (Bool-cases (ltb 0 a.num)) [
  | inr none_given ↦
      rw none_given (omega arith, or_else-finite b (0 over 1) fb (omega arith), omega arith)
  | inl given ↦
      let positive : 0 < a.num = ltb→lt _ _ given in
      let more : 0 < b.num * a.den = omega (arith, mul-pos positive fb, le) in
      let also : 0 < b.num = factor-pos b.num a.den more in rw (given, lt→ltb _ _ also) (fa, fb, le)
]

module _ (round : Ratio → Ratio) (p : PriceData) (core more_core btc more_btc : Ratio) where
  value-IsAtMost :
      IsRounding round
      → 0 < p.core_price.den
      → 0 < p.btc_price.den
      → IsAtMost core more_core
      → IsAtMost btc more_btc
      → 0 < (round (times (amount more_core) (core_asset p))).den
      → 0 < (round (times (amount more_btc) (btc_asset p))).den
      → 0 < (total_usd_value round p more_core more_btc).den
      → IsAtMost (total_usd_value round p core btc) (total_usd_value round p more_core more_btc)
  unfolding total_usd_value
  value-IsAtMost law hc hb c b fc fb f =
      law _ _
        (IsAtMost-add _ _ _ _
          (law _ _
            (IsAtMost-times _ _ (core_asset p)
              (or_else-finite p.core_price (15 over 10) hc (omega arith))
              (amount-IsAtMost core more_core c))
            fc)
          (law _ _
            (IsAtMost-times _ _ (btc_asset p)
              (or_else-finite p.btc_price (65000 over 1) hb (omega arith))
              (amount-IsAtMost btc more_btc b))
            fb))
        f

  tier-rank :
      IsAtMost (amount core) (amount more_core)
      → IsAtMost (amount btc) (amount more_btc)
      → IsAtMost (total_usd_value round p core btc) (total_usd_value round p more_core more_btc)
      → rank (calculate_tier round p core btc) ≤ rank (calculate_tier round p more_core more_btc)
  unfolding calculate_tier
  tier-rank c b v =
      let keeps = λ (bound : Ratio). not_less-IsAtMost _ _ bound v in
      ground (
        arith,
        not_less-IsAtMost _ _ min_core c,
        not_less-IsAtMost _ _ (round min_btc) b,
        keeps min_usd,
        keeps (1000000 over 1),
        keeps (500000 over 1),
        keeps (100000 over 1),
        keeps (10000 over 1),
      )

  -- At the same prices, which are finite, a deposit with as much CORE and as much BTC as another one, or
  -- more, has at least its tier, however the operations round, if rounding keeps the order of numbers and
  -- the value of the larger deposit is finite.
  pub larger_deposit_keeps_tier :
      IsRounding round
      → 0 < p.core_price.den
      → 0 < p.btc_price.den
      → IsAtMost core more_core
      → IsAtMost btc more_btc
      → 0 < (round (times (amount more_core) (core_asset p))).den
      → 0 < (round (times (amount more_btc) (btc_asset p))).den
      → 0 < (total_usd_value round p more_core more_btc).den
      → rank (calculate_tier round p core btc) ≤ rank (calculate_tier round p more_core more_btc)
  larger_deposit_keeps_tier law hc hb c b fc fb f =
      tier-rank (amount-IsAtMost core more_core c) (amount-IsAtMost btc more_btc b)
        (value-IsAtMost law hc hb c b fc fb f)
