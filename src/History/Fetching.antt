-- ===== src/History/Fetching.antt =====
-- The fetching of src/hooks/useTransactionHistory.ts, split where it waits for its answers. Whether the
-- effect that began it is still mounted when they come is an argument of the second half.
use Prim.Native.String.{◌++◌ as append}
use stake_basket.Prelude.{
  ℕ, ◌+◌, Bool, true, false, ◌&&◌, Option, none, some, String, List, [], Dict, lookup, insert, ltb,
  str_eq, if◌then◌else◌,
}
use stake_basket.ContractStore.{is_present}
use stake_basket.History.{
  Transaction, RawTransaction, Block, final_transactions, explored_transactions,
}

pub record CachedHistory : Type 0 where
  pub entries : List Transaction
  pub stored_at : ℕ

-- The state of the hook, and the cache, which is one for the program.
pub record History : Type 0 where
  pub transactions : List Transaction
  pub loading : Bool
  pub error : Option String
  pub last_fetch : ℕ
  pub cache : Dict CachedHistory

pub data Start : Type 0 where
  unavailable cached throttled fetching : Start

abbrev pub cache_duration : ℕ
cache_duration = 30000

abbrev pub cache_key : (ℕ → String) → ℕ → String → String
cache_key show_number chain_id address = append (show_number chain_id) (append "-" address)

-- By the entry of the cache.
unfoldable pub begin_with : ℕ → Option CachedHistory → History → History × Start
begin_with now none s =
    if ltb now (s.last_fetch + 10000)
    then (s, throttled)
    else (record s { last_fetch = now; loading = true; error = none }, fetching)
begin_with now (some c) s =
    if ltb now (c.stored_at + cache_duration)
    then (record s { transactions = c.entries; loading = false }, cached)
    else if ltb now (s.last_fetch + 10000)
    then (s, throttled)
    else (record s { last_fetch = now; loading = true; error = none }, fetching)

-- The effect up to its first answer, for the account and the basket of the chain, if there are both.
unfoldable pub begin_fetch : Option String → Option String → String → ℕ → History → History × Start
unfolding begin_with
begin_fetch address basket key now s =
    if is_present address && is_present basket
    then begin_with now (lookup key s.cache) s
    else (s, unavailable)

abbrev pub stored : String → ℕ → List Transaction → History → History
stored key now txs s = record s {
  transactions = txs;
  cache = insert key (record { entries = txs; stored_at = now }) s.cache;
}

-- `finally`
abbrev pub settled_fetch : Bool → History → History
settled_fetch mounted s = if mounted then record s { loading = false } else s

-- The answers of the local node, if all came: once the effect is unmounted, the missing ones are
-- reported still, but nothing else is set.
unfoldable pub finish_local :
    Bool → String → ℕ → String → String → String → Option (List (Option Block)) → History → History
unfolding final_transactions
finish_local mounted key now address basket token none s =
    settled_fetch mounted (record s { error = some "Failed to load local transaction history" })
finish_local mounted key now address basket token (some blocks) s =
    if mounted
    then settled_fetch mounted (stored key now (final_transactions address basket token blocks) s)
    else s

-- What an explorer answers: its status and its list, if it has one.
pub record ExplorerAnswer : Type 0 where
  pub status : String
  pub result : Option (List RawTransaction)

abbrev pub has_good_status : Option ExplorerAnswer → Bool
has_good_status none = false
has_good_status (some a) = str_eq a.status "1"

abbrev pub or_first_answer : Option ExplorerAnswer → Option ExplorerAnswer → Option ExplorerAnswer
or_first_answer first none = first
or_first_answer first (some a) = some a

-- The second endpoint is asked where the first one has no good answer.
unfoldable pub chosen_answer : Option ExplorerAnswer → Option ExplorerAnswer → Option ExplorerAnswer
chosen_answer first second = if has_good_status first then first else or_first_answer first second

abbrev pub or_no_list : Option (List RawTransaction) → List RawTransaction
or_no_list none = []
or_no_list (some txs) = txs

abbrev pub listed : Option ExplorerAnswer → List RawTransaction
listed none = []
listed (some a) = if str_eq a.status "1" then or_no_list a.result else []

unfoldable pub finish_explored :
    (String → Option ℕ)
    → (String → Option ℕ)
    → Bool
    → String
    → ℕ
    → String
    → String
    → String
    → Option ExplorerAnswer
    → Option ExplorerAnswer
    → History
    → History
unfolding explored_transactions chosen_answer
finish_explored parse_time parse_number mounted key now address basket token first second s =
    if mounted
    then settled_fetch mounted (
        stored key now
          (explored_transactions parse_time parse_number now address basket token
            (listed (chosen_answer first second)))
          s)
    else s

-- On another chain nothing is asked.
unfoldable pub finish_elsewhere : Bool → History → History
finish_elsewhere mounted s = settled_fetch mounted s
