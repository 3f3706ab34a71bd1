-- ===== src/Access/Tokens.antt =====
-- Tokens and keys of backend/src/middleware/auth.ts. What `jwt.verify` gives, what `jwt.sign` makes and
-- the hash of node's crypto are arguments, and so is what the rest of the request does.
use Prim.Native.String.{◌++◌ as append}
use stake_basket.Prelude.{
  ℕ, zero, suc, String, Bool, not, Option, none, some, Answer, answered, thrown, str_eq,
  if◌then◌else◌,
}

pub record AuthUser : Type 0 where
  pub id : String
  pub role : String
  pub address : Option String

-- An error with its status, or what the request went on to
pub data Outcome (R : Type 0) : Type 0 where
  refused : ℕ → String → Outcome R
  passed_on : R → Outcome R

-- `header.substring(n)`
abbrev pub substring : ℕ → String → String
substring zero s = s
substring (suc n) String.[] = ""
substring (suc n) (String.◌∷◌ c s) = substring n s

abbrev pub bearer_token : String → Option String
bearer_token header =
    if str_eq header (append "Bearer " (substring 7 header))
    then some (substring 7 header)
    else none

abbrev pub after_next : {R : Type 0} → String → Answer R → Outcome R
after_next message (answered r) = passed_on r
after_next message (thrown e) = refused 401 message

abbrev pub with_user : {R : Type 0} → Answer AuthUser → (AuthUser → Answer R) → Outcome R
with_user (answered user) next = after_next "Invalid or expired token" (next user)
with_user (thrown e) next = refused 401 "Invalid or expired token"

abbrev pub with_token :
    {R : Type 0} → (String → Answer AuthUser) → Option String → (AuthUser → Answer R) → Outcome R
with_token verify none next = refused 401 "Authentication required"
with_token verify (some token) next = with_user (verify token) next

-- The `try` of `jwtAuth` encloses the rest of the request.
unfoldable pub jwt_auth :
    {R : Type 0} → (String → Answer AuthUser) → Option String → (AuthUser → Answer R) → Outcome R
jwt_auth verify none next = refused 401 "Authentication required"
jwt_auth verify (some header) next = with_token verify (bearer_token header) next

unfoldable pub is_valid_api_key : (String → String → String) → String → String → Bool
is_valid_api_key hmac secret key = str_eq (hmac secret key) (hmac secret secret)

unfoldable pub api_key_auth :
    {R : Type 0} → (String → String → String) → String → Option String → Answer R → Outcome R
unfolding is_valid_api_key
api_key_auth hmac secret none next = refused 401 "API key required"
api_key_auth hmac secret (some key) next =
    if str_eq key ""
    then refused 401 "API key required"
    else if not (is_valid_api_key hmac secret key)
    then refused 401 "Invalid API key"
    else after_next "Authentication failed" next

abbrev pub first_given : Option String → String → String
first_given none default = default
first_given (some s) default = if str_eq s "" then default else s

unfoldable pub get_client_id : Option String → Option String → String
get_client_id forwarded_for real_ip = first_given forwarded_for (first_given real_ip "unknown")

unfoldable pub generate_token : (AuthUser → String → String) → AuthUser → String
generate_token sign user = sign user "24h"
