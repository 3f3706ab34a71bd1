-- ===== src/Validation.antt =====
-- The schemas and the clean-up functions of backend/src/middleware/validation.ts, over texts as
-- sequences of characters. `toLowerCase` is modelled on the letters that an address may hold.
pub mod Addresses
mod Tests
use Prim.Native.Char.{Char, code}
use Prim.Native.String
use stake_basket.Prelude.{
  ℕ, suc, Bool, true, false, not, Option, none, some, String, ◌&&◌, ◌||◌, leb, ◌==◌, str_eq,
  if◌then◌else◌,
}

abbrev pub is_digit : ℕ → Bool
is_digit c = leb b'0' c && leb c b'9'

-- `[a-fA-F0-9]`
abbrev pub is_hex : ℕ → Bool
is_hex c = is_digit c || (leb b'a' c && leb c b'f') || (leb b'A' c && leb c b'F')

abbrev pub text_length : String → ℕ
text_length String.[] = 0
text_length (String.◌∷◌ c s) = suc (text_length s)

abbrev pub all_hex : String → Bool
all_hex String.[] = true
all_hex (String.◌∷◌ c s) = is_hex (code c) && all_hex s

-- `/^0x[a-fA-F0-9]{40}$/`
unfoldable pub is_address : String → Bool
is_address (String.◌∷◌ c (String.◌∷◌ d s)) =
    code c == b'0' && code d == b'x' && text_length s == 40 && all_hex s
is_address _ = false

-- `/^\d+(\.\d+)?$/`, by what may follow what was read.
pub data AmountPart : Type 0 where
  nothing digits point decimals : AmountPart

abbrev pub amount_next : AmountPart → ℕ → Option AmountPart
amount_next nothing c = if is_digit c then some digits else none
amount_next digits c = if is_digit c then some digits else if c == b'.' then some point else none
amount_next point c = if is_digit c then some decimals else none
amount_next decimals c = if is_digit c then some decimals else none

abbrev pub amount_ends : AmountPart → Bool
amount_ends digits = true
amount_ends decimals = true
amount_ends _ = false

unfoldable pub is_amount_from : Option AmountPart → String → Bool
is_amount_from none s = false
is_amount_from (some part) String.[] = amount_ends part
is_amount_from (some part) (String.◌∷◌ c s) = is_amount_from (amount_next part (code c)) s

unfoldable pub is_amount : String → Bool
unfolding is_amount_from
is_amount s = is_amount_from (some nothing) s

-- `input.replace(/[<>\"']/g, '')`
abbrev pub is_markup : ℕ → Bool
is_markup c = c == b'<' || c == b'>' || c == 34 || c == 39

unfoldable pub sanitize_input : String → String
sanitize_input String.[] = String.[]
sanitize_input (String.◌∷◌ c s) =
    let rest = sanitize_input s in if is_markup (code c) then rest else String.◌∷◌ c rest

-- The white space that `trim` removes.
abbrev pub is_space : ℕ → Bool
is_space c =
    (leb 9 c && leb c 13)
    || c == 32
    || c == 160
    || c == 0x1680
    || (leb 0x2000 c && leb c 0x200a)
    || c == 0x2028
    || c == 0x2029
    || c == 0x202f
    || c == 0x205f
    || c == 0x3000
    || c == 0xfeff

unfoldable pub trim_start : String → String
trim_start String.[] = String.[]
trim_start (String.◌∷◌ c s) =
    let rest = trim_start s in if is_space (code c) then rest else String.◌∷◌ c s

abbrev pub unless_blank : Char → String → String
unless_blank c String.[] = if is_space (code c) then String.[] else String.◌∷◌ c String.[]
unless_blank c s = String.◌∷◌ c s

unfoldable pub trim_end : String → String
trim_end String.[] = String.[]
trim_end (String.◌∷◌ c s) = unless_blank c (trim_end s)

abbrev pub lower_char : Char → Char
lower_char c =
    if code c == b'A'
    then "a"
    else if code c == b'B'
    then "b"
    else if code c == b'C'
    then "c"
    else if code c == b'D'
    then "d"
    else if code c == b'E'
    then "e"
    else if code c == b'F'
    then "f"
    else c

unfoldable pub lower_case : String → String
lower_case String.[] = String.[]
lower_case (String.◌∷◌ c s) = String.◌∷◌ (lower_char c) (lower_case s)

unfoldable pub sanitize_address : String → String
unfolding trim_start trim_end lower_case
sanitize_address address = trim_end (trim_start (lower_case address))

pub data Token : Type 0 where
  core core_btc basket : Token

-- `z.enum(['CORE', 'coreBTC', 'BASKET'])`
unfoldable pub token_of : String → Option Token
token_of s =
    if str_eq s "CORE"
    then some core
    else if str_eq s "coreBTC"
    then some core_btc
    else if str_eq s "BASKET"
    then some basket
    else none

pub record FaucetRequest : Type 0 where
  pub address : String
  pub token : Option String
  pub amount : Option String

abbrev pub optional : (String → Bool) → Option String → Bool
optional p none = true
optional p (some s) = p s

abbrev pub is_token : Option Token → Bool
is_token none = false
is_token (some t) = true

-- `faucetRequestSchema` on a body that is an object with these fields as texts
unfoldable pub is_faucet_request : FaucetRequest → Bool
unfolding is_address is_amount token_of
is_faucet_request r =
    is_address r.address
    && optional (λ s. is_token (token_of s)) r.token
    && optional is_amount r.amount
