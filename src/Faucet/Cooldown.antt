-- ===== src/Faucet/Cooldown.antt =====
-- The cooldown of an address, over requests that come in between and that overlap.
use stake_basket.Prelude.{
  ◌&&◌, ℕ, ◌+◌, ◌≤◌, ◌<◌, ◌≡◌, ◌≢◌, refl, Bool, true, false, Option, none, some, String, List, [],
  ◌∷◌, lookup, lookup-insert, str_eq, eq_refl, arith, All, Bool-cases, inl, inr,
}
use stake_basket.Access.{rate_limit}
use stake_basket.Validation.{
  FaucetRequest, Token, token_of, is_address, is_faucet_request, sanitize_address, lower_case,
}
use stake_basket.Validation.Addresses.{both, sanitize_address-keeps}
use stake_basket.Validation.{optional, is_token}
use stake_basket.Faucet.{
  requested_token, requested_token, Faucet, cooldown_time, is_cooling, minutes_left, is_on_cooldown,
  set_cooldown, respond, sending, request, granted, sending_all, request_all, ended_all,
}

-- What happens to a faucet, each with its time.
pub data Event : Type 0 where
  asked : String → FaucetRequest → ℕ → ℕ → Event
  sent : String → ℕ → Event
  asked_all : String → ℕ → Event
  sent_all : String → Bool → Bool → Bool → ℕ → Event

abbrev pub time_of : Event → ℕ
time_of (asked client body arrived now) = now
time_of (sent address now) = now
time_of (asked_all address now) = now
time_of (sent_all address a b c now) = now

unfoldable pub apply : Event → Faucet → Faucet
apply (asked client body arrived now) s = (request client body arrived now s).0
apply (sent address now) s = granted address now s
apply (asked_all address now) s = s
apply (sent_all address a b c now) s = (ended_all address a b c now s).0

unfoldable pub run_from : Faucet → List Event → Faucet
run_from s [] = s
run_from s (e ∷ es) = run_from (apply e s) es

-- No transaction ends.
abbrev pub IsAsking : Event → Type 0
IsAsking (asked client body arrived now) = Unit
IsAsking (asked_all address now) = Unit
IsAsking _ = ⊥

-- The entry of an address is from this time or later.
abbrev pub IsSince : ℕ → Option ℕ → Type 0
IsSince t none = ⊥
IsSince t (some last) = t ≤ last

set_cooldown-IsSince :
    (key address : String) (t now : ℕ) (s : Faucet)
    → t ≤ now
    → IsSince t (lookup key s.cooldowns)
    → IsSince t (lookup key (set_cooldown address now s).cooldowns)
unfolding set_cooldown
set_cooldown-IsSince key address t now s le h =
    elim (Bool-cases (str_eq (lower_case address) key)) [
      | inl hit ↦ rw (lookup-insert, hit) le
      | inr miss ↦ rw (lookup-insert, miss) h
    ]

apply-IsSince :
    (key : String) (t : ℕ) (e : Event) (s : Faucet)
    → t ≤ time_of e
    → IsSince t (lookup key s.cooldowns)
    → IsSince t (lookup key (apply e s).cooldowns)
unfolding apply request granted ended_all
apply-IsSince key t (asked client body arrived now) s le h = h
apply-IsSince key t (sent address now) s le h = set_cooldown-IsSince key address t now s le h
apply-IsSince key t (asked_all address now) s le h = h
apply-IsSince key t (sent_all address a b c now) s le h =
    set_cooldown-IsSince key address t now s le h

run_from-IsSince :
    (key : String) (t : ℕ) (es : List Event) (s : Faucet)
    → All (λ e. t ≤ time_of e) es
    → IsSince t (lookup key s.cooldowns)
    → IsSince t (lookup key (run_from s es).cooldowns)
unfolding run_from
run_from-IsSince key t [] s later h = h
run_from-IsSince key t (e ∷ es) s (le, later) h =
    run_from-IsSince key t es (apply e s) later (apply-IsSince key t e s le h)

cooling_since :
    (o : Option ℕ) (t now : ℕ)
    → 0 < t
    → now < t + cooldown_time
    → IsSince t o
    → (is_cooling o now ≡ true) × (0 < minutes_left o now)
cooling_since none t now pos soon h = absurd h
cooling_since (some last) t now pos soon h = ground arith

respond-cooling :
    (address : String) (o : Option Token) (now : ℕ) (s : Faucet) (token : Token) (to : String)
    → is_on_cooldown address now s ≡ true
    → respond address o now s ≢ sending token to
unfolding respond
respond-cooling address none now s token to h e = elim (Bool-cases (is_address address)) [
  | inl fine ↦ cc (rw fine at e)
  | inr bad ↦ cc (rw bad at e)
]
respond-cooling address (some k) now s token to h e = elim (Bool-cases (is_address address)) [
  | inl fine ↦ cc (rw (fine, h) at e)
  | inr bad ↦ cc (rw bad at e)
]

request-cooling :
    (client : String) (body : FaucetRequest) (arrived now : ℕ) (s : Faucet) (token : Token)
    (to : String)
    → is_on_cooldown (sanitize_address body.address) now s ≡ true
    → (request client body arrived now s).1 ≢ sending token to
unfolding request is_on_cooldown
request-cooling client body arrived now s token to h e =
    elim (Bool-cases (rate_limit 3 300000 client arrived s.limits).1) [
      | inr over ↦ cc (rw over at e)
      | inl admitted ↦ elim (Bool-cases (is_faucet_request body)) [
        | inr bad ↦ cc (rw (admitted, bad) at e)
        | inl fine ↦
            respond-cooling (sanitize_address body.address) (requested_token body.token) now s token
              to h (rw (admitted, fine) at e)
      ]
    ]

request_all-cooling :
    (address : String) (now : ℕ) (s : Faucet) (to : String)
    → is_on_cooldown address now s ≡ true
    → request_all address now s ≢ sending_all to
unfolding request_all
request_all-cooling address now s to h e = elim (Bool-cases (is_address address)) [
  | inl fine ↦ cc (rw (fine, h) at e)
  | inr bad ↦ cc (rw bad at e)
]

-- Once the transaction of a request for an address has ended at a time t, whatever happens from then on,
-- a request for it that is checked within five minutes of t is not let through to a transaction, by
-- either route and however its letters are written.
pub faucet_cooldown_holds :
    (address : String) (t : ℕ) (s : Faucet) (es : List Event)
    → 0 < t
    → All (λ e. t ≤ time_of e) es
    → (now : ℕ) → now < t + cooldown_time
    → (client : String) (body : FaucetRequest) (arrived : ℕ) (token : Token) (other to : String)
    → lower_case (sanitize_address body.address) ≡ lower_case address
    → lower_case other ≡ lower_case address
    → ((request client body arrived now (run_from (granted address t s) es)).1 ≢ sending token to)
      × (request_all other now (run_from (granted address t s) es) ≢ sending_all to)
unfolding is_on_cooldown granted set_cooldown
faucet_cooldown_holds address t s es pos later now soon client body arrived token other to e1 e2 =
    let key = lower_case address in
    let s' = run_from (granted address t s) es in
    let since : IsSince t (lookup key s'.cooldowns) =
      run_from-IsSince key t es (granted address t s) later
        (rw (lookup-insert, eq_refl) (omega arith)) in
    let cools = (cooling_since (lookup key s'.cooldowns) t now pos soon since).0 in
    (
      request-cooling client body arrived now s' token to (rw e1 cools),
      request_all-cooling other now s' to (rw e2 cools),
    )

run_from-asking :
    (es : List Event) (s : Faucet) → All IsAsking es → (run_from s es).cooldowns ≡ s.cooldowns
unfolding run_from apply request
run_from-asking [] s h = refl
run_from-asking (asked client body arrived now ∷ es) s h =
    run_from-asking es (apply (asked client body arrived now) s) h.1
run_from-asking (asked_all address now ∷ es) s h = run_from-asking es s h.1
run_from-asking (sent address now ∷ es) s h = absurd h.0
run_from-asking (sent_all address a b c now ∷ es) s h = absurd h.0

-- Requests that wait for their transaction do not count: after any number of them an address that was
-- not cooling is served again, by both routes, if the limiter lets the client pass and the body is fine.
waiting_requests_do_not_count :
    (es : List Event) (s : Faucet)
    → All IsAsking es
    → (client : String) (body : FaucetRequest) (arrived now : ℕ) (token : Token)
    → is_faucet_request body ≡ true
    → requested_token body.token ≡ some token
    → is_on_cooldown (sanitize_address body.address) now s ≡ false
    → (rate_limit 3 300000 client arrived (run_from s es).limits).1 ≡ true
    → ((request client body arrived now (run_from s es)).1
        ≡ sending token (sanitize_address body.address))
      × (request_all (sanitize_address body.address) now (run_from s es)
          ≡ sending_all (sanitize_address body.address))
unfolding is_on_cooldown request respond request_all is_faucet_request
waiting_requests_do_not_count es s asking client body arrived now token fine wanted free room =
    let (address_ok, amount_ok) =
      both (is_address body.address && optional (λ s. is_token (token_of s)) body.token) _ fine in
    let valid =
      (sanitize_address-keeps body.address (both (is_address body.address) _ address_ok).0).0 in
    let same = run_from-asking es s asking in
    (rw (room, fine, wanted, valid, same, free) refl, rw (valid, same, free) refl)
