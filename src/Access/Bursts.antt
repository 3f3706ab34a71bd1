-- ===== src/Access/Bursts.antt =====
-- How many requests of a client the rate limiter hands on, and who passes the role check.
use stake_basket.Prelude.{
  ltb→lt, ◌<◌, Bool, ◌&&◌, if◌then◌else◌, ◌*◌, ap, sym, leb-false→lt, All-map, ℕ, ◌+◌, ◌-◌, ◌≤◌,
  ◌≡◌, refl, ◌∙◌, ◌⊎◌, true, false, Option, none, some, String, List, [], ◌∷◌, Dict, lookup,
  lookup-insert, str_eq, eq_iff, eq_refl, arith, All, Bool-cases, Option-cases, inl, inr, ltb, leb,
}
use stake_basket.Access.{ClientData, Request, rate_limit, served, role_level, has_permission}

-- What a request makes of the entry of its client: a new window, one more in the window, or nothing.
data Step (r : Request) (limits : Dict ClientData) (next : Dict ClientData × Bool) : Type 0 where
  opens :
      next.1 ≡ true
      → lookup r.client next.0 ≡ some (record { count = 1; reset_time = r.now + r.window })
      → (lookup r.client limits ≡ none)
        ⊎ ((d : ClientData) × (lookup r.client limits ≡ some d) × (d.reset_time < r.now))
      → Step r limits next
  counts :
      (d : ClientData)
      → next.1 ≡ true
      → lookup r.client limits ≡ some d
      → lookup r.client next.0 ≡ some (record { count = d.count + 1; reset_time = d.reset_time })
      → d.count < r.max_requests
      → Step r limits next
  refuses : next ≡ (limits, false) → Step r limits next

abbrev step_of : Request → Dict ClientData → Dict ClientData × Bool
step_of r limits = rate_limit r.max_requests r.window r.client r.now limits

step_of-Step : (r : Request) (limits : Dict ClientData) → Step r limits (step_of r limits)
unfolding rate_limit
step_of-Step r limits = elim (Option-cases (lookup r.client limits)) [
  | inl missing ↦ opens (rw missing refl) (rw (missing, lookup-insert, eq_refl) refl) (inl missing)
  | inr (d, found) ↦ elim (Bool-cases (ltb d.reset_time r.now)) [
    | inl expired ↦
        opens (rw (found, expired) refl) (rw (found, expired, lookup-insert, eq_refl) refl)
          (inr (d, found, ltb→lt _ _ expired))
    | inr running ↦ elim (Bool-cases (leb r.max_requests d.count)) [
      | inl full ↦ refuses (rw (found, running, full) refl)
      | inr room ↦
          counts d (rw (found, running, room) refl) found
            (rw (found, running, room, lookup-insert, eq_refl) refl) (leb-false→lt _ _ room)
    ]
  ]
]

some-inj : (d e : ClientData) → some d ≡ some e → d ≡ e
some-inj d e h = cc

module _ (m : ℕ) (client : String) where
  -- A request of another client leaves the client's entry as it is.
  rate_limit_other :
      (r : Request) (limits : Dict ClientData)
      → str_eq r.client client ≡ false
      → lookup client (step_of r limits).0 ≡ lookup client limits
  unfolding rate_limit
  rate_limit_other r limits other = elim (Option-cases (lookup r.client limits)) [
    | inl missing ↦ rw (missing, lookup-insert, other) refl
    | inr (d, found) ↦ rw found (elim (Bool-cases (ltb d.reset_time r.now)) [
      | inl expired ↦ rw (expired, lookup-insert, other) refl
      | inr running ↦ rw running (elim (Bool-cases (leb r.max_requests d.count)) [
        | inl full ↦ rw full refl
        | inr room ↦ rw (room, lookup-insert, other) refl
      ])
    ])
  ]

  -- What one request adds to those that are counted.
  abbrev gain : Request → Bool → ℕ
  gain r handed_on =
      if str_eq r.client client && leb r.max_requests m then (if handed_on then 1 else 0) else 0

  served-gain :
      (r : Request) (requests : List Request) (limits : Dict ClientData)
      → served m client limits (r ∷ requests)
        ≡ gain r (step_of r limits).1 + served m client (step_of r limits).0 requests
  unfolding served
  served-gain r requests limits = ground arith

  gain-other : (r : Request) (b : Bool) → str_eq r.client client ≡ false → gain r b ≡ 0
  gain-other r b other = rw other refl

  gain-refused : (r : Request) → gain r false ≡ 0
  gain-refused r = ground arith

  gain-le : (r : Request) (b : Bool) → gain r b ≤ 1
  gain-le r b = ground arith

  -- A request that is counted and handed on had room below m.
  gain-room :
      (r : Request) (b : Bool) (n : ℕ) → n < r.max_requests → gain r b + (m - (n + 1)) ≤ m - n
  gain-room r b n below = ground (arith, below)

  -- Once a window lasts past the deadline, only what its counter leaves below m is handed on.
  served_after :
      (deadline : ℕ) (requests : List Request) (limits : Dict ClientData) (d : ClientData)
      → lookup client limits ≡ some d
      → deadline ≤ d.reset_time
      → All (λ r. r.now ≤ deadline) requests
      → served m client limits requests ≤ m - d.count
  unfolding served
  served_after deadline [] limits d found late h = omega arith
  served_after deadline (r ∷ requests) limits d found late (le, h) =
      rw (served-gain r requests limits) (elim (Bool-cases (str_eq r.client client)) [
        | inr other ↦ omega (
          arith,
          gain-other r (step_of r limits).1 other,
          served_after deadline requests (step_of r limits).0 d
              (rate_limit_other r limits other ∙ found) late h,
        )
        | inl same ↦
            let own : r.client ≡ client = (eq_iff r.client client).0 same in
            let mine : lookup r.client limits ≡ some d = rw own found in
            let rest = served_after deadline requests in
            elim (step_of-Step r limits) [
              | opens on after (inl missing) ↦ let clash : none ≡ some d = rw missing at mine in cc
              | opens on after (inr (e, there, expired)) ↦
                  let same_entry : e ≡ d = some-inj e d (sym there ∙ mine) in
                  absurd (omega (arith, ap (λ (x : ClientData). x.reset_time) same_entry))
              | counts e on there after below ↦
                  let same_entry : e ≡ d = some-inj e d (sym there ∙ mine) in
                  let left =
                    rest (step_of r limits).0
                      (record { count = e.count + 1; reset_time = e.reset_time }) (rw (← own) after)
                      (rw same_entry late) h in
                  omega (
                    arith,
                    ap (λ (x : ClientData). x.count) same_entry,
                    left,
                    gain-room r (step_of r limits).1 e.count below,
                  )
              | refuses stays ↦ rw stays (omega (arith, gain-refused r, rest limits d found late h))
            ]
      ])

  -- Requests below m that the running window still allows.
  abbrev room_left : Option ClientData → ℕ
  room_left none = 0
  room_left (some d) = m - d.count

  room_left-le : (o : Option ClientData) → room_left o ≤ m
  room_left-le none = omega arith
  room_left-le (some d) = omega arith

  served_from :
      (start shortest : ℕ) (requests : List Request) (limits : Dict ClientData)
      → 1 ≤ m
      → All (λ r. (start ≤ r.now) × (r.now ≤ start + shortest) × (shortest ≤ r.window)) requests
      → served m client limits requests ≤ m + room_left (lookup client limits)
  unfolding served
  served_from start shortest [] limits pos h = omega arith
  served_from start shortest (r ∷ requests) limits pos ((from, to, long), h) =
      let ahead = served_from start shortest requests in
      rw (served-gain r requests limits) (elim (Bool-cases (str_eq r.client client)) [
        | inr other ↦ omega (
          arith,
          gain-other r (step_of r limits).1 other,
          ap room_left (rate_limit_other r limits other),
          ahead (step_of r limits).0 pos h,
        )
        | inl same ↦
            let own : r.client ≡ client = (eq_iff r.client client).0 same in
            elim (step_of-Step r limits) [
              | opens on after was ↦ omega (
                arith,
                gain-le r (step_of r limits).1,
                served_after (start + shortest) requests (step_of r limits).0
                    (record { count = 1; reset_time = r.now + r.window }) (rw (← own) after)
                    (omega arith) (All-map (λ q b. b.1) requests h),
              )
              | counts e on there after below ↦
                  let before : lookup client limits ≡ some e = rw (← own) there in
                  let next : lookup client (step_of r limits).0
                      ≡ some (record { count = e.count + 1; reset_time = e.reset_time }) =
                    rw (← own) after in
                  omega (
                    arith,
                    ap room_left before,
                    ap room_left next,
                    gain-room r (step_of r limits).1 e.count below,
                    ahead (step_of r limits).0 pos h,
                  )
              | refuses stays ↦ rw stays (omega (arith, gain-refused r, ahead limits pos h))
            ]
      ])

-- The routes share the entries of a client, and each has its own limit and window. Whatever the entries
-- are, and whatever else is sent to any route, at most 2 m of the requests of one client to routes with a
-- limit of m or less are handed on within the length of the shortest window of all routes. m is at least 1.
pub served_in_window :
    (m : ℕ) (client : String) (start shortest : ℕ) (requests : List Request)
    (limits : Dict ClientData)
    → 1 ≤ m
    → All (λ r. (start ≤ r.now) × (r.now ≤ start + shortest) × (shortest ≤ r.window)) requests
    → served m client limits requests ≤ 2 * m
served_in_window m client start shortest requests limits pos h = omega (
  arith,
  served_from m client start shortest requests limits pos h,
  room_left-le m client (lookup client limits),
)

-- Role checks compose: who may do what a second role may, which may do what a third role may, may do
-- that as well; and the administrator may do all that any role check lets anyone do.
has_permission_ranks :
    (a b c : String)
    → (has_permission a b ≡ true → has_permission b c ≡ true → has_permission a c ≡ true)
      × (has_permission a c ≡ true → has_permission "admin" c ≡ true)
unfolding has_permission role_level
has_permission_ranks a b c = ground arith
