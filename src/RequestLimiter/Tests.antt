-- ===== src/RequestLimiter/Tests.antt =====
-- Runs of the request limiter.
use stake_basket.Prelude.{◌+◌, ◌*◌, ◌≤◌, ◌≡◌, refl, [], ◌∷◌, ◌++◌, length, arith}
use stake_basket.RequestLimiter.{RequestLimiter, new, add_request, min_delay}
use stake_basket.RequestLimiter.Steps.{Reach, start, wait, add, Run}
use stake_basket.RequestLimiter.Service.{IsSpaced, served, limiter_serves_in_order}
use stake_basket.RequestLimiter.Progress.{limiter_drains}

-- Two requests at once: the second one waits.
abbrev busy : RequestLimiter
busy = add_request 8 1000 (add_request 7 1000 new)

abbrev busy_reached : Reach (7 ∷ 8 ∷ []) 1000 busy
busy_reached = add (add (wait start (omega arith)) 7) 8

busy_waits : busy.queue ≡ 8 ∷ []
unfolding add_request new
busy_waits = refl

limiter_serves_in_order_example :
    (busy.active_requests ≤ 3) × IsSpaced busy.started × (served busy ++ busy.queue ≡ 7 ∷ 8 ∷ [])
limiter_serves_in_order_example = limiter_serves_in_order busy_reached

limiter_drains_example :
    (t : RequestLimiter) × Run 1000 busy (1000 + min_delay * length busy.queue) t
    × (t.queue ≡ [])
    × (served t ≡ 7 ∷ 8 ∷ [])
limiter_drains_example = limiter_drains busy_reached
