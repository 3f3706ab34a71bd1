-- ===== src/RequestLimiter/Service.antt =====
-- How many requests run, when they start, and in which order.
use stake_basket.Prelude.{
  All-map, All-without, ℕ, ◌+◌, ◌≤◌, ◌<◌, ◌≡◌, refl, ◌∙◌, sym, ap, List, [], ◌∷◌, ◌++◌, map, length,
  arith, All, append_assoc, ltb, leb, Bool-cases, inl, inr,
}
use mathlib.Core.List.{reverse-cons, reverse}
use stake_basket.RequestLimiter.{
  RequestLimiter, new, take_next, process_queue, add_request, finish_request, min_delay,
}
use stake_basket.RequestLimiter.Steps.{Step, settle, fire, Reach, start, wait, add, next}

abbrev pub last_start : List (ℕ × ℕ) → ℕ
last_start [] = 0
last_start ((request, time) ∷ starts) = time

-- Each start comes at least the delay after the one before it, and the first one after time 0.
abbrev pub IsSpaced : List (ℕ × ℕ) → Type 0
IsSpaced [] = Unit
IsSpaced ((request, time) ∷ starts) = (last_start starts + min_delay ≤ time) × IsSpaced starts

abbrev pub served : RequestLimiter → List ℕ
served s = reverse (map (λ (r : ℕ × ℕ). r.0) s.started)

-- What every part of the code keeps.
pub record IsFair (added : List ℕ) (now : ℕ) (s : RequestLimiter) : Type 0 where
  pub few : s.active_requests ≤ 3
  pub spaced : IsSpaced s.started
  pub last : s.last_request_time ≡ last_start s.started
  pub past : s.last_request_time ≤ now
  pub ordered : served s ++ s.queue ≡ added
  pub soon : All (λ t. t ≤ now + min_delay) s.timers

-- Whoever waits is sure to be looked at: a request runs, or a timer is set.
abbrev pub IsAwake : RequestLimiter → Type 0
IsAwake s = 0 < length s.queue → 0 < s.active_requests + length s.timers

take_next-ordered :
    (added : List ℕ) (now request : ℕ) (rest : List ℕ) (s : RequestLimiter)
    → served s ++ request ∷ rest ≡ added
    → reverse (map (λ (r : ℕ × ℕ). r.0) ((request, now) ∷ s.started)) ++ rest ≡ added
take_next-ordered added now request rest s e =
    (rw (reverse-cons request (map (λ (r : ℕ × ℕ). r.0) s.started))
      (append_assoc (served s) (request ∷ []) rest))
    ∙ e

-- After a look at the queue the limiter is awake, whatever it was before.
take_next-IsFair :
    (added : List ℕ) (now : ℕ) (queue : List ℕ) (s : RequestLimiter)
    → s.queue ≡ queue
    → s.active_requests < 3
    → IsFair added now s
    → IsFair added now (take_next now queue s) × IsAwake (take_next now queue s)
unfolding take_next
take_next-IsFair added now [] s e few f = (f, rw e (λ h. absurd (omega arith)))
take_next-IsFair added now (request ∷ rest) s e few f =
    elim (Bool-cases (ltb now (s.last_request_time + min_delay))) [
      | inl early ↦ rw early (
        record {
          few = f.few;
          spaced = f.spaced;
          last = f.last;
          past = f.past;
          ordered = f.ordered;
          soon = (omega (arith, f.past), f.soon);
        },
        λ h. omega arith,
      )
      | inr free ↦ rw free (
        record {
          few = omega (arith, few);
          spaced = (ground (arith, f.last), f.spaced);
          last = refl;
          past = omega arith;
          ordered =
              take_next-ordered added now request rest s
                (ap (λ q. served s ++ q) (sym e) ∙ f.ordered);
          soon = f.soon;
        },
        λ h. omega arith,
      )
    ]

process_queue-IsFair :
    (added : List ℕ) (now : ℕ) (s : RequestLimiter)
    → IsFair added now s
    → IsFair added now (process_queue now s) × IsAwake (process_queue now s)
unfolding process_queue
process_queue-IsFair added now s f = elim (Bool-cases (leb 3 s.active_requests)) [
  | inl full ↦ rw full (f, λ h. ground arith)
  | inr room ↦ rw room (take_next-IsFair added now s.queue s refl (ground arith) f)
]

add_request-IsFair :
    (added : List ℕ) (now request : ℕ) (s : RequestLimiter)
    → IsFair added now s
    → IsFair (added ++ request ∷ []) now (add_request request now s)
      × IsAwake (add_request request now s)
unfolding add_request
add_request-IsFair added now request s f =
    process_queue-IsFair (added ++ request ∷ []) now (record s { queue = s.queue ++ request ∷ [] })
      (record {
        few = f.few;
        spaced = f.spaced;
        last = f.last;
        past = f.past;
        soon = f.soon;
        ordered =
            sym (append_assoc (served s) s.queue (request ∷ []))
            ∙ ap (λ q. q ++ request ∷ []) f.ordered;
      })

pub Step-IsFair :
    (added : List ℕ) (now : ℕ) (s t : RequestLimiter)
    → Step now s t
    → IsFair added now s
    → IsFair added now t × IsAwake t
unfolding finish_request
Step-IsFair added now s t (settle _ busy) f = (
  record {
    few = omega (arith, f.few);
    spaced = f.spaced;
    last = f.last;
    past = f.past;
    ordered = f.ordered;
    soon = (omega arith, f.soon);
  },
  λ h. omega arith,
)
Step-IsFair added now s t (fire _ before after due e le) f =
    process_queue-IsFair added now (record s { timers = before ++ after })
      (record {
        few = f.few;
        spaced = f.spaced;
        last = f.last;
        past = f.past;
        ordered = f.ordered;
        soon = All-without (λ t. t ≤ now + min_delay) before due after (rw e at f.soon);
      })

pub IsFair-wait :
    (added : List ℕ) (now later : ℕ) (s : RequestLimiter)
    → now ≤ later
    → IsFair added now s × IsAwake s
    → IsFair added later s × IsAwake s
IsFair-wait added now later s le (f, awake) = (
  record {
    few = f.few;
    spaced = f.spaced;
    last = f.last;
    past = omega (arith, f.past);
    ordered = f.ordered;
    soon = All-map (λ t (h : t ≤ now + min_delay). omega arith) s.timers f.soon;
  },
  awake,
)

pub Reach-IsFair :
    {added : List ℕ} {now : ℕ} {s : RequestLimiter}
    → Reach added now s
    → IsFair added now s × IsAwake s
unfolding new
Reach-IsFair start = (
  record {
    few = omega arith;
    spaced = tt;
    last = refl;
    past = omega arith;
    ordered = refl;
    soon = tt;
  },
  λ h. absurd (omega arith),
)
Reach-IsFair (wait r le) = IsFair-wait _ _ _ _ le (Reach-IsFair r)
Reach-IsFair (add r request) = add_request-IsFair _ _ request _ (Reach-IsFair r).0
Reach-IsFair (next r step) = Step-IsFair _ _ _ _ step (Reach-IsFair r).0

-- Whatever is added, settles and fires, at most three requests run, two starts in a row are at least
-- 200 ms apart, and the requests started, in the order of their starts, are the first ones added.
pub limiter_serves_in_order :
    {added : List ℕ} {now : ℕ} {s : RequestLimiter}
    → Reach added now s
    → (s.active_requests ≤ 3) × IsSpaced s.started × (served s ++ s.queue ≡ added)
limiter_serves_in_order r = let f = (Reach-IsFair r).0 in (f.few, f.spaced, f.ordered)
