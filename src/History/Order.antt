-- ===== src/History/Order.antt =====
-- The order of what is shown of the local chain.
use stake_basket.Prelude.{
  ℕ, ◌*◌, ◌≤◌, Option, none, some, List, [], ◌∷◌, ◌++◌, map, filter, take, String, ◌≡◌, refl, arith,
  All, All-append, All-map, IsDescending, sort_down, put_down, ◌&&◌,
}
use stake_basket.ContractStore.{is_present}
use stake_basket.History.{
  Transaction, RawTransaction, Block, own_transactions, local_transactions, final_transactions,
  local_transaction, is_own,
}

abbrev pub or_zero : Option ℕ → ℕ
or_zero none = 0
or_zero (some n) = n

abbrev pub time : Transaction → ℕ
time t = or_zero t.timestamp

-- The blocks that have a result.
unfoldable pub blocks_of : List (Option Block) → List Block
blocks_of [] = []
blocks_of (none ∷ blocks) = blocks_of blocks
blocks_of (some block ∷ blocks) = block ∷ blocks_of blocks

abbrev pub block_time : Block → ℕ
block_time block = block.timestamp

module _ {A : Type 0} (key : A → ℕ) where
  put_down_first : (x : A) (ys : List A) → All (λ y. key y ≤ key x) ys → put_down key x ys ≡ x ∷ ys
  unfolding put_down
  put_down_first x [] h = refl
  put_down_first x (y ∷ ys) h = ground (arith, h.0)

  sort_down_descending : (xs : List A) → IsDescending key xs → sort_down key xs ≡ xs
  unfolding sort_down
  sort_down_descending [] h = refl
  sort_down_descending (x ∷ xs) h = rw (sort_down_descending xs h.1) (put_down_first x xs h.0)

  IsDescending-append :
      (xs ys : List A)
      → IsDescending key xs
      → IsDescending key ys
      → All (λ x. All (λ y. key y ≤ key x) ys) xs
      → IsDescending key (xs ++ ys)
  IsDescending-append [] ys hx hy h = hy
  IsDescending-append (x ∷ xs) ys hx hy h =
      (All-append (λ y. key y ≤ key x) xs ys hx.0 h.0, IsDescending-append xs ys hx.1 hy h.1)

  IsDescending-constant : (n : ℕ) (xs : List A) → All (λ x. key x ≡ n) xs → IsDescending key xs
  IsDescending-constant n [] h = tt
  IsDescending-constant n (x ∷ xs) h =
      (All-map (λ y e. omega (arith, e, h.0)) xs h.1, IsDescending-constant n xs h.1)

local_times :
    (block : Block) (txs : List RawTransaction)
    → All (λ t. time t ≡ block.timestamp * 1000) (map (local_transaction block) txs)
unfolding local_transaction
local_times block [] = tt
local_times block (tx ∷ txs) = (refl, local_times block txs)

own_transactions-time :
    (address basket token : String) (block : Block)
    → All (λ t. time t ≡ block.timestamp * 1000) (own_transactions address basket token block)
unfolding own_transactions
own_transactions-time address basket token block =
    local_times block
      (filter (λ tx. is_own address basket token tx && is_present tx.hash) block.transactions)

-- No transaction is later than all the blocks.
local_transactions-below :
    (address basket token : String) (n : ℕ) (blocks : List (Option Block))
    → All (λ b. block_time b ≤ n) (blocks_of blocks)
    → All (λ t. time t ≤ n * 1000) (local_transactions address basket token blocks)
unfolding local_transactions blocks_of
local_transactions-below address basket token n [] h = tt
local_transactions-below address basket token n (none ∷ blocks) h =
    local_transactions-below address basket token n blocks h
local_transactions-below address basket token n (some block ∷ blocks) h =
    All-append (λ t. time t ≤ n * 1000) (own_transactions address basket token block)
      (local_transactions address basket token blocks)
      (All-map (λ t e. omega (arith, e, h.0)) (own_transactions address basket token block)
        (own_transactions-time address basket token block))
      (local_transactions-below address basket token n blocks h.1)

local_transactions-IsDescending :
    (address basket token : String) (blocks : List (Option Block))
    → IsDescending block_time (blocks_of blocks)
    → IsDescending time (local_transactions address basket token blocks)
unfolding local_transactions blocks_of
local_transactions-IsDescending address basket token [] h = tt
local_transactions-IsDescending address basket token (none ∷ blocks) h =
    local_transactions-IsDescending address basket token blocks h
local_transactions-IsDescending address basket token (some block ∷ blocks) h =
    let below = local_transactions-below address basket token block.timestamp blocks h.0 in
    let rest = local_transactions address basket token blocks in
    IsDescending-append time (own_transactions address basket token block) rest
      (IsDescending-constant time (block.timestamp * 1000)
        (own_transactions address basket token block)
        (own_transactions-time address basket token block))
      (local_transactions-IsDescending address basket token blocks h.1)
      (All-map (λ t e. All-map (λ u le. omega (arith, e, le)) rest below)
        (own_transactions address basket token block)
        (own_transactions-time address basket token block))

-- The blocks are asked for from the last one back. If their times descend, what is shown is what sorting
-- all transactions by their time and then cutting would give, although the array is cut before.
pub final_transactions-sorted :
    (address basket token : String) (blocks : List (Option Block))
    → IsDescending block_time (blocks_of blocks)
    → final_transactions address basket token blocks
      ≡ take 10 (sort_down time (local_transactions address basket token blocks))
unfolding final_transactions
final_transactions-sorted address basket token blocks h =
    rw
      (sort_down_descending time (local_transactions address basket token blocks)
        (local_transactions-IsDescending address basket token blocks h))
      refl
