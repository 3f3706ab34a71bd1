-- ===== src/Access.antt =====
-- The rate limiter and the role check of backend/src/middleware/auth.ts. The map of the limiter is
-- one for all the limits that the program installs.
pub mod Bursts
pub mod Tokens
mod Tests
use stake_basket.Prelude.{
  ℕ, ◌+◌, Bool, true, false, Option, none, some, String, List, [], ◌∷◌, Dict, lookup, insert, ltb,
  ◌&&◌, leb, str_eq, if◌then◌else◌,
}

pub record ClientData : Type 0 where
  pub count : ℕ
  pub reset_time : ℕ

-- `rateLimits.set(clientId, { count: 1, resetTime: now + windowMs })`
abbrev pub opened : ℕ → String → ℕ → Dict ClientData → Dict ClientData
opened window client now = insert client (record { count = 1; reset_time = now + window })

-- What becomes of a request, by the entry of its client.
abbrev pub admit : ℕ → ℕ → String → ℕ → Dict ClientData → Option ClientData → Dict ClientData × Bool
admit max_requests window client now limits none = (opened window client now limits, true)
admit max_requests window client now limits (some d) =
    if ltb d.reset_time now
    then (opened window client now limits, true)
    else if leb max_requests d.count
    then (limits, false)
    else (insert client (record d { count = d.count + 1 }) limits, true)

-- One request of a client at a time: the new map, and whether the request is handed on (and not
-- answered with the status 429).
unfoldable pub rate_limit : ℕ → ℕ → String → ℕ → Dict ClientData → Dict ClientData × Bool
rate_limit max_requests window client now limits =
    admit max_requests window client now limits (lookup client limits)

-- A request to a route with its limit. The entries are those of the client, whatever the route.
pub record Request : Type 0 where
  pub max_requests : ℕ
  pub window : ℕ
  pub client : String
  pub now : ℕ

-- How many requests of one client to routes with a limit of m at most a run of requests hands on.
unfoldable pub served : ℕ → String → Dict ClientData → List Request → ℕ
served m client limits [] = 0
served m client limits (r ∷ requests) =
    let step = rate_limit r.max_requests r.window r.client r.now limits in
    let rest = served m client step.0 requests in
    if str_eq r.client client && leb r.max_requests m
    then (if step.1 then 1 + rest else rest)
    else rest

-- `roleHierarchy[role]`; `undefined` for a text that is no role
unfoldable pub role_level : String → Option ℕ
role_level role =
    if str_eq role "viewer"
    then some 1
    else if str_eq role "operator"
    then some 2
    else if str_eq role "admin"
    then some 3
    else none

-- A comparison with `undefined` is false.
abbrev pub at_least : Option ℕ → Option ℕ → Bool
at_least (some a) (some b) = leb b a
at_least _ _ = false

unfoldable pub has_permission : String → String → Bool
unfolding role_level
has_permission user_role required_role = at_least (role_level user_role) (role_level required_role)

pub data Verdict : Type 0 where
  unauthenticated forbidden passed : Verdict

-- `requireRole`, on the role of the user of the request if there is one: 401, 403 or the next handler
unfoldable pub require_role : String → Option String → Verdict
require_role required_role none = Verdict.unauthenticated
require_role required_role (some role) =
    if has_permission role required_role then Verdict.passed else Verdict.forbidden
