-- ===== src/History/Tests.antt =====
-- A history of one block, and an account that is switched.
use stake_basket.Prelude.{
  ◌≤◌, true, false, Option, none, some, List, [], ◌∷◌, String, ◌≡◌, refl, take, length, sort_down,
  arith,
}
use stake_basket.Validation.{lower_case}
use stake_basket.History.{
  own_transactions, local_transaction, is_own, RawTransaction, Block, other, get_method_name,
  get_transaction_type, final_transactions, local_transactions,
}
use stake_basket.History.Fetching.{History, Start, cached, begin_fetch, finish_local}
use stake_basket.History.Freshness.{local_history_cached}
use stake_basket.History.Order.{blocks_of, time, final_transactions-sorted}

abbrev user : String
user = "0xAb01"

abbrev basket_address : String
basket_address = "0xBb02"

abbrev token_address : String
token_address = "0xCc03"

abbrev deposit_input : String
deposit_input = "0xb6b55f250000000000"

abbrev sent : RawTransaction
sent = record {
  sender = some "0xab01";
  target = some "0xbb02";
  hash = some "0x11";
  input = some deposit_input;
  value = some "0x0";
  time_stamp = none;
  is_error = none;
  block_number = none;
}

abbrev blocks : List (Option Block)
blocks =
    some (record { timestamp = 9; number = 2; transactions = sent ∷ [] })
    ∷ none
    ∷ some (record { timestamp = 5; number = 1; transactions = sent ∷ [] })
    ∷ []

-- A transaction without input is called a deposit, but its type is another one.
plain_transfer : (get_method_name "0x" ≡ "Deposit") × (get_transaction_type "0x" ≡ other)
unfolding get_method_name get_transaction_type
plain_transfer = (refl, refl)

two_shown : length (final_transactions user basket_address token_address blocks) ≡ 2
unfolding final_transactions local_transactions own_transactions local_transaction is_own lower_case
two_shown = refl

final_transactions-sorted_example :
    final_transactions user basket_address token_address blocks
    ≡ take 10 (sort_down time (local_transactions user basket_address token_address blocks))
unfolding blocks_of
final_transactions-sorted_example =
    final_transactions-sorted user basket_address token_address blocks ((omega arith, tt), (tt, tt))

abbrev fresh : History
fresh = record { transactions = []; loading = false; error = none; last_fetch = 0; cache = [] }

abbrev shown_again : History × Start
shown_again =
    begin_fetch (some user) (some basket_address) "31337-0xAb01" 60000
      (finish_local true "31337-0xAb01" 50000 user basket_address token_address (some blocks) fresh)

local_history_cached_example :
    (shown_again.1 ≡ cached)
    × (shown_again.0.loading ≡ false)
    × (shown_again.0.transactions ≡ final_transactions user basket_address token_address blocks)
    × (length shown_again.0.transactions ≤ 10)
local_history_cached_example =
    local_history_cached user basket_address token_address "31337-0xAb01" 50000 60000 blocks fresh
      refl refl (omega arith)

abbrev before : History
before = (begin_fetch (some user) (some basket_address) "31337-0xAb01" 50000 fresh).0

abbrev switched : History × Start
switched = begin_fetch (some "0xDd04") (some basket_address) "31337-0xDd04" 53000 before

abbrev left : History
left =
    finish_local false "31337-0xAb01" 54000 user basket_address token_address (some blocks)
      switched.0
