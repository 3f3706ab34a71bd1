-- ===== src/History.antt =====
-- The history of transactions of src/hooks/useTransactionHistory.ts: what of a block is shown, and how.
-- What `parseInt` and `Date.parse` read is an argument; `none` stands for NaN.
pub mod Fetching
pub mod Freshness
pub mod Order
mod Tests
use Prim.Native.String
use stake_basket.Prelude.{
  ℕ, zero, suc, ◌*◌, Bool, true, false, ◌&&◌, ◌||◌, not, Option, none, some, String, List, [], ◌∷◌,
  ◌++◌, map, filter, take, Dict, lookup, str_eq, if◌then◌else◌,
}
use stake_basket.ContractStore.{or_empty, is_present}
use stake_basket.Validation.{lower_case}

pub data TransactionType : Type 0 where
  deposit redeem other : TransactionType

pub record Transaction : Type 0 where
  pub hash : String
  pub method : String
  pub kind : TransactionType
  pub timestamp : Option ℕ
  pub value : String
  pub succeeded : Bool
  pub block_number : Option ℕ

-- A transaction as a node or an explorer gives it.
pub record RawTransaction : Type 0 where
  pub sender : Option String
  pub target : Option String
  pub hash : Option String
  pub input : Option String
  pub value : Option String
  pub time_stamp : Option String
  pub is_error : Option String
  pub block_number : Option String

pub record Block : Type 0 where
  pub timestamp : ℕ
  pub number : ℕ
  pub transactions : List RawTransaction

-- `input.slice(0, n)`
abbrev pub first_chars : ℕ → String → String
first_chars zero s = ""
first_chars (suc n) String.[] = ""
first_chars (suc n) (String.◌∷◌ c s) = String.◌∷◌ c (first_chars n s)

abbrev pub no_input : String → Bool
no_input input = str_eq input "" || str_eq input "0x" || str_eq input "null"

abbrev pub methods : Dict String
methods =
    ("0xb6b55f25", "Deposit")
    ∷ ("0x2e1a7d4d", "Withdraw")
    ∷ ("0xdb006a75", "Redeem")
    ∷ ("0xa9059cbb", "Transfer")
    ∷ ("0x095ea7b3", "Approve")
    ∷ ("0x4a432a46", "Get Price")
    ∷ ("0x6a627842", "Mint")
    ∷ ("0x40c10f19", "Mint")
    ∷ ("0x23b872dd", "Transfer From")
    ∷ []

-- `a || fallback`
abbrev pub or_text : String → Option String → String
or_text fallback none = fallback
or_text fallback (some s) = if str_eq s "" then fallback else s

unfoldable pub get_method_name : String → String
get_method_name input =
    if no_input input then "Deposit" else or_text "Deposit" (lookup (first_chars 10 input) methods)

unfoldable pub get_transaction_type : String → TransactionType
get_transaction_type input =
    if no_input input
    then other
    else if str_eq (first_chars 10 input) "0xb6b55f25"
    then deposit
    else if str_eq (first_chars 10 input) "0x2e1a7d4d"
    then redeem
    else if str_eq (first_chars 10 input) "0xdb006a75"
    then redeem
    else other

-- `a?.toLowerCase() === b.toLowerCase()`
abbrev pub is_address_of : String → Option String → Bool
is_address_of address none = false
is_address_of address (some a) = str_eq (lower_case a) (lower_case address)

-- From the user to the basket or to its token.
unfoldable pub is_own : String → String → String → RawTransaction → Bool
is_own address basket token tx =
    is_address_of address tx.sender
    && (is_address_of basket tx.target || is_address_of token tx.target)

-- A transaction of the local chain, which is taken to have succeeded.
unfoldable pub local_transaction : Block → RawTransaction → Transaction
unfolding get_method_name get_transaction_type
local_transaction block tx = record {
  hash = or_empty tx.hash;
  method = get_method_name (or_text "0x" tx.input);
  kind = get_transaction_type (or_text "0x" tx.input);
  timestamp = some (block.timestamp * 1000);
  value = or_text "0" tx.value;
  succeeded = true;
  block_number = some block.number;
}

unfoldable pub own_transactions : String → String → String → Block → List Transaction
unfolding is_own local_transaction
own_transactions address basket token block =
    map (local_transaction block)
      (filter (λ tx. is_own address basket token tx && is_present tx.hash) block.transactions)

-- Of all blocks, in their order; a block without a result is passed over.
unfoldable pub local_transactions :
    String → String → String → List (Option Block) → List Transaction
unfolding own_transactions
local_transactions address basket token [] = []
local_transactions address basket token (none ∷ blocks) =
    local_transactions address basket token blocks
local_transactions address basket token (some block ∷ blocks) =
    own_transactions address basket token block ++ local_transactions address basket token blocks

-- What is shown: the array is cut before a copy of it that is not used is sorted.
unfoldable pub final_transactions :
    String → String → String → List (Option Block) → List Transaction
unfolding local_transactions
final_transactions address basket token blocks =
    take 10 (local_transactions address basket token blocks)

abbrev pub shown_time : (String → Option ℕ) → ℕ → Option String → Option ℕ
shown_time parse_time now none = some now
shown_time parse_time now (some text) = if str_eq text "" then some now else parse_time text

abbrev pub is_zero_text : Option String → Bool
is_zero_text none = false
is_zero_text (some text) = str_eq text "0"

-- A transaction of the explorer.
unfoldable pub explored_transaction :
    (String → Option ℕ) → (String → Option ℕ) → ℕ → RawTransaction → Transaction
unfolding get_method_name get_transaction_type
explored_transaction parse_time parse_number now tx = record {
  hash = or_empty tx.hash;
  method = get_method_name (or_empty tx.input);
  kind = get_transaction_type (or_empty tx.input);
  timestamp = shown_time parse_time now tx.time_stamp;
  value = or_text "0" tx.value;
  succeeded = is_zero_text tx.is_error;
  block_number = parse_number (or_text "0" tx.block_number);
}

unfoldable pub explored_transactions :
    (String → Option ℕ)
    → (String → Option ℕ)
    → ℕ
    → String
    → String
    → String
    → List RawTransaction
    → List Transaction
unfolding is_own explored_transaction
explored_transactions parse_time parse_number now address basket token txs = take 5 (
    map (explored_transaction parse_time parse_number now)
      (filter (is_own address basket token) txs))
