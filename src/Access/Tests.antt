-- ===== src/Access/Tests.antt =====
-- Runs of the rate limiter and of the role check.
use stake_basket.Prelude.{
  ℕ, ◌+◌, ◌++◌, Dict, ◌≡◌, refl, ◌≤◌, arith, lookup, insert, String, List, [], ◌∷◌,
}
use stake_basket.Access.{
  ClientData, Request, some, rate_limit, served, role_level, has_permission, require_role, Verdict,
}
use stake_basket.Prelude.{Answer, answered, thrown, none, str_eq, if◌then◌else◌}
use stake_basket.Access.Tokens.{
  AuthUser, jwt_auth, passed_on, refused, api_key_auth, is_valid_api_key,
}
use stake_basket.Access.Bursts.{served_in_window}

-- Two requests of a client to each of two routes around the end of its window, and one of another client.
abbrev to_request : String → ℕ → Request
to_request client now = record { max_requests = 3; window = 300000; client = client; now = now }

abbrev to_balances : String → ℕ → Request
to_balances client now = record { max_requests = 10; window = 60000; client = client; now = now }

abbrev burst : List Request
burst =
    to_request "a" 9
    ∷ to_balances "a" 10
    ∷ to_request "b" 10
    ∷ to_balances "a" 11
    ∷ to_request "a" 12
    ∷ []

abbrev entries : Dict ClientData
entries = insert "a" (record { count = 0; reset_time = 10 }) []

served_in_window_example : served 3 "a" entries burst ≤ 6
served_in_window_example = served_in_window 3 "a" 9 60000 burst entries (omega arith) (ground arith)

-- Where each minute begins with a look at the balances, six requests for tokens are handed on within
-- three minutes, of which five minutes are to allow three.
abbrev minute : ℕ → List Request
minute now = to_balances "a" now ∷ to_request "a" (now + 1) ∷ to_request "a" (now + 2) ∷ []

six_in_three_minutes : served 3 "a" [] (minute 1 ++ minute 60002 ++ minute 120003) ≡ 6
unfolding served rate_limit lookup insert
six_in_three_minutes = refl

operator_is_no_admin : require_role "admin" (some "operator") ≡ Verdict.forbidden
unfolding require_role has_permission role_level
operator_is_no_admin = refl

abbrev admin : AuthUser
admin = record { id = "1"; role = "admin"; address = none }

abbrev verified : String → Answer AuthUser
verified token = if str_eq token "t" then answered admin else thrown "jwt malformed"

token_accepted :
    jwt_auth verified (some "Bearer t") (λ user. answered user.role) ≡ passed_on "admin"
unfolding jwt_auth
token_accepted = refl

token_without_scheme :
    jwt_auth verified (some "t") (λ user. answered user.role)
    ≡ refused 401 "Authentication required"
unfolding jwt_auth
token_without_scheme = refl

-- An error that `next` throws is answered as a bad token.
handler_error :
    jwt_auth {R = String} verified (some "Bearer t") (λ user. thrown "no database")
    ≡ refused 401 "Invalid or expired token"
unfolding jwt_auth
handler_error = refl

-- The only key is the secret of the server, where the hash is injective.
secret_is_key :
    api_key_auth {R = String} (λ secret key. key) "s" (some "s") (answered "done")
    ≡ passed_on "done"
unfolding api_key_auth is_valid_api_key
secret_is_key = refl
