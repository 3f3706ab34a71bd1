-- ===== src/RequestLimiter/Steps.antt =====
-- The runs of the limiter: calls, settling requests, timers that fire, and time that passes.
use stake_basket.Prelude.{ℕ, ◌≤◌, ◌<◌, ◌≡◌, List, [], ◌∷◌, ◌++◌}
use stake_basket.RequestLimiter.{RequestLimiter, new, process_queue, add_request, finish_request}

-- A timer fires at its time or later, and any timer that is due may be the next.
pub data Step (now : ℕ) : RequestLimiter → RequestLimiter → Type 0 where
  settle : (s : RequestLimiter) → 0 < s.active_requests → Step now s (finish_request now s)
  fire :
      (s : RequestLimiter) (before after : List ℕ) (due : ℕ)
      → s.timers ≡ before ++ due ∷ after
      → due ≤ now
      → Step now s (process_queue now (record s { timers = before ++ after }))

-- Reachable with these requests added, in this order, at this time.
pub data Reach : List ℕ → ℕ → RequestLimiter → Type 0 where
  start : Reach [] 0 new
  wait :
      {added : List ℕ} {now later : ℕ} {s : RequestLimiter}
      → Reach added now s
      → now ≤ later
      → Reach added later s
  add :
      {added : List ℕ} {now : ℕ} {s : RequestLimiter}
      → Reach added now s
      → (request : ℕ) → Reach (added ++ request ∷ []) now (add_request request now s)
  next :
      {added : List ℕ} {now : ℕ} {s t : RequestLimiter}
      → Reach added now s
      → Step now s t
      → Reach added now t

-- What may follow a state while nothing is added.
pub data Run (now : ℕ) (s : RequestLimiter) : ℕ → RequestLimiter → Type 0 where
  here : Run now s now s
  wait :
      {later latest : ℕ} {t : RequestLimiter}
      → Run now s later t
      → later ≤ latest
      → Run now s latest t
  next : {later : ℕ} {t u : RequestLimiter} → Run now s later t → Step later t u → Run now s later u

pub Run-trans :
    {now later : ℕ} {s t : RequestLimiter} {latest : ℕ} {u : RequestLimiter}
    → Run now s later t
    → Run later t latest u
    → Run now s latest u
Run-trans r Run.here = r
Run-trans r (Run.wait q le) = Run.wait (Run-trans r q) le
Run-trans r (Run.next q step) = Run.next (Run-trans r q) step
