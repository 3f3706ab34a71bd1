-- ===== src/Faucet.antt =====
-- The faucet of backend/src/routes/faucet.ts. A request is split where it waits for the transaction:
-- `request` runs up to `writeContract`, and `granted` when that has ended well.
pub mod Cooldown
mod Tests
use stake_basket.Prelude.{
  ℕ, ◌+◌, ◌-◌, ◌*◌, ◌/◌, Bool, true, false, not, ◌&&◌, ◌||◌, Option, none, some, String, List, [],
  ◌∷◌, Dict, lookup, insert, ltb, if◌then◌else◌,
}
use stake_basket.Access.{ClientData, rate_limit}
use stake_basket.Validation.{
  FaucetRequest, Token, token_of, is_address, is_faucet_request, sanitize_address, lower_case,
}

pub record Faucet : Type 0 where
  pub cooldowns : Dict ℕ
  pub limits : Dict ClientData

abbrev pub cooldown_time : ℕ
cooldown_time = 5 * 60 * 1000

-- Both tests on the entry of an address; an entry of 0 counts as none.
abbrev pub is_cooling : Option ℕ → ℕ → Bool
is_cooling none now = false
is_cooling (some last) now = ltb 0 last && ltb now (last + cooldown_time)

-- `Math.max(0, Math.ceil(remaining / 1000 / 60))`
abbrev pub minutes_left : Option ℕ → ℕ → ℕ
minutes_left none now = 0
minutes_left (some last) now =
    if ltb 0 last then (last + cooldown_time - now + 59999) / 60000 else 0

unfoldable pub is_on_cooldown : String → ℕ → Faucet → Bool
is_on_cooldown address now s = is_cooling (lookup (lower_case address) s.cooldowns) now

unfoldable pub get_remaining_cooldown : String → ℕ → Faucet → ℕ
get_remaining_cooldown address now s = minutes_left (lookup (lower_case address) s.cooldowns) now

unfoldable pub set_cooldown : String → ℕ → Faucet → Faucet
set_cooldown address now s = record s { cooldowns = insert (lower_case address) now s.cooldowns }

-- The answers before the transaction; `sending` waits for it.
pub data Response : Type 0 where
  rate_limited invalid_body invalid_address invalid_token : Response
  cooling_down : ℕ → Response
  sending : Token → String → Response

-- The handler of `/request` on a body, from the check of the address on.
unfoldable pub respond : String → Option Token → ℕ → Faucet → Response
unfolding is_on_cooldown get_remaining_cooldown
respond address none now s = if is_address address then invalid_token else invalid_address
respond address (some token) now s =
    if not (is_address address)
    then invalid_address
    else if is_on_cooldown address now s
    then cooling_down (get_remaining_cooldown address now s)
    else sending token address

abbrev pub requested_token : Option String → Option Token
requested_token none = none
requested_token (some s) = token_of s

-- `/request`: the limiter, the schema, and the handler. The body is read between the limiter and the
-- handler, so that each reads the clock.
unfoldable pub request : String → FaucetRequest → ℕ → ℕ → Faucet → Faucet × Response
unfolding respond
request client body arrived now s =
    let admitted = rate_limit 3 300000 client arrived s.limits in
    (
      record s { limits = admitted.0 },
      if not admitted.1
          then rate_limited
          else if not (is_faucet_request body)
          then invalid_body
          else respond (sanitize_address body.address) (requested_token body.token) now s,
    )

-- The transaction of a request has been sent. One that fails changes nothing.
unfoldable pub granted : String → ℕ → Faucet → Faucet
unfolding set_cooldown
granted address now s = set_cooldown address now s

pub data AllResponse : Type 0 where
  refused : AllResponse
  wait_minutes : ℕ → AllResponse
  sending_all : String → AllResponse

-- `/request-all` up to its first transaction; it has no limiter, and takes the address as it comes.
unfoldable pub request_all : String → ℕ → Faucet → AllResponse
unfolding is_on_cooldown get_remaining_cooldown
request_all address now s =
    if not (is_address address)
    then refused
    else if is_on_cooldown address now s
    then wait_minutes (get_remaining_cooldown address now s)
    else sending_all address

-- and its end: the cooldown is set whether or not anything was sent; the result is `success`.
unfoldable pub ended_all : String → Bool → Bool → Bool → ℕ → Faucet → Faucet × Bool
unfolding set_cooldown
ended_all address core_sent core_btc_sent basket_sent now s =
    (set_cooldown address now s, core_sent || core_btc_sent || basket_sent)
