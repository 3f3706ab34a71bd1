-- ===== src/History/Freshness.antt =====
-- When what is shown is fresh.
use stake_basket.Prelude.{
  length, take, length-take, ◌&&◌, ℕ, ◌+◌, ◌<◌, ◌≤◌, true, false, Option, none, some, String, List,
  ◌≡◌, refl, lookup-insert, ltb, arith, eq_refl,
}
use stake_basket.ContractStore.{is_present}
use stake_basket.History.{local_transactions, Block, final_transactions}
use mathlib.Core.Bool.{◌&&◌}
use stake_basket.History.Fetching.{
  cache_duration, History, cached, begin_fetch, begin_with, finish_local,
}

-- What a fetch that begins leaves.
abbrev pub started : ℕ → History → History
started now s = record s { last_fetch = now; loading = true; error = none }

-- What a fetch of the local chain has brought is shown again, without another one, to whoever asks for
-- the same account within half a minute; there are ten transactions at most.
pub local_history_cached :
    (address basket token key : String) (now later : ℕ) (blocks : List (Option Block)) (s : History)
    → is_present (some address) ≡ true
    → is_present (some basket) ≡ true
    → later < now + 30000
    → let after = finish_local true key now address basket token (some blocks) s in
      let again = begin_fetch (some address) (some basket) key later after in
      (again.1 ≡ cached)
      × (again.0.loading ≡ false)
      × (again.0.transactions ≡ final_transactions address basket token blocks)
      × (length again.0.transactions ≤ 10)
unfolding finish_local begin_fetch begin_with final_transactions
local_history_cached address basket token key now later blocks s there here soon =
    let fresh : ltb later (now + cache_duration) ≡ true = ground arith in
    let few : length (take 10 (local_transactions address basket token blocks)) ≤ 10 =
      omega (arith, length-take 10 (local_transactions address basket token blocks)) in
    rw
      (
        there,
        here,
        lookup-insert key key
            (record { entries = final_transactions address basket token blocks; stored_at = now })
            s.cache,
        eq_refl key,
        fresh,
      )
      (refl, refl, refl, few)
