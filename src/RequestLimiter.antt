-- ===== src/RequestLimiter.antt =====
-- The class RequestLimiter of src/utils/requestLimiter.ts. A request is a number; it waits in the
-- queue, runs, and ends whenever its promise settles. The timers of the runtime and a record of the
-- starts, newest first, are part of the state.
pub mod Steps
pub mod Service
pub mod Progress
mod Tests
use stake_basket.Prelude.{ℕ, ◌+◌, ◌-◌, Bool, List, [], ◌∷◌, ◌++◌, ◌||◌, ltb, leb, if◌then◌else◌}

pub record RequestLimiter : Type 0 where
  pub queue : List ℕ
  pub active_requests : ℕ
  pub last_request_time : ℕ
  pub timers : List ℕ
  pub started : List (ℕ × ℕ)

abbrev pub max_concurrent : ℕ
max_concurrent = 3

abbrev pub min_delay : ℕ
min_delay = 200

unfoldable pub new : RequestLimiter
new = record { queue = []; active_requests = 0; last_request_time = 0; timers = []; started = [] }

-- What `processQueue` does with a queue once fewer than three requests run. A timer that is set for
-- the rest of the delay is due when the delay since the last start is over.
unfoldable pub take_next : ℕ → List ℕ → RequestLimiter → RequestLimiter
take_next now [] s = s
take_next now (request ∷ rest) s =
    if ltb now (s.last_request_time + min_delay)
    then record s { timers = (s.last_request_time + min_delay) ∷ s.timers }
    else record s {
      queue = rest;
      active_requests = s.active_requests + 1;
      last_request_time = now;
      started = (request, now) ∷ s.started;
    }

unfoldable pub process_queue : ℕ → RequestLimiter → RequestLimiter
unfolding take_next
process_queue now s = if leb max_concurrent s.active_requests then s else take_next now s.queue s

unfoldable pub add_request : ℕ → ℕ → RequestLimiter → RequestLimiter
unfolding process_queue
add_request request now s = process_queue now (record s { queue = s.queue ++ request ∷ [] })

-- the `finally` of a request that settled
unfoldable pub finish_request : ℕ → RequestLimiter → RequestLimiter
finish_request now s = record s {
  active_requests = s.active_requests - 1;
  timers = (now + min_delay) ∷ s.timers;
}
