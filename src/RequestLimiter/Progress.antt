-- ===== src/RequestLimiter/Progress.antt =====
-- No waiting request is forgotten.
use stake_basket.Prelude.{
  ℕ, zero, suc, ◌+◌, ◌*◌, ◌≤◌, ◌<◌, ◌≡◌, refl, ◌∙◌, sym, ap, List, [], ◌∷◌, ◌++◌, length, arith,
  append-nil,
}
use stake_basket.RequestLimiter.{
  RequestLimiter, take_next, process_queue, finish_request, min_delay,
}
use stake_basket.RequestLimiter.Steps.{Step, settle, fire, Reach, Run, Run-trans}
use stake_basket.RequestLimiter.Service.{
  IsFair, IsAwake, Step-IsFair, IsFair-wait, Reach-IsFair, served,
}

-- A state that may follow, with this queue and no more than so many requests running.
record Follows (added : List ℕ) (now : ℕ) (s : RequestLimiter) (later : ℕ) (queue : List ℕ)
    : Type 0 where
  state : RequestLimiter
  run : Run now s later state
  queued : state.queue ≡ queue
  fair : IsFair added later state
  awake : IsAwake state

follows_after :
    {added : List ℕ} {now later latest : ℕ} {s t : RequestLimiter} {queue : List ℕ}
    → Run now s later t
    → Follows added later t latest queue
    → Follows added now s latest queue
follows_after r f = record {
  state = f.state;
  run = Run-trans r f.run;
  queued = f.queued;
  fair = f.fair;
  awake = f.awake;
}

-- All that runs may settle at once.
settle_all :
    (added : List ℕ) (now k : ℕ) (s : RequestLimiter)
    → s.active_requests ≡ k
    → IsFair added now s
    → IsAwake s
    → (f : Follows added now s now s.queue) × (f.state.active_requests ≡ 0)
unfolding finish_request follows_after
settle_all added now zero s e f a =
    (record { state = s; run = Run.here; queued = refl; fair = f; awake = a }, e)
settle_all added now (suc k) s e f a =
    let step : Step now s (finish_request now s) = settle s (omega arith) in
    let kept = Step-IsFair added now s (finish_request now s) step f in
    let rest = settle_all added now k (finish_request now s) (omega arith) kept.0 kept.1 in
    (follows_after (Run.next Run.here step) rest.0, rest.1)

process_queue-takes :
    (now request : ℕ) (rest : List ℕ) (s : RequestLimiter)
    → s.queue ≡ request ∷ rest
    → s.active_requests < 3
    → s.last_request_time + min_delay ≤ now
    → (process_queue now s).queue ≡ rest
unfolding process_queue take_next
process_queue-takes now request rest s e few old = rw e (ground arith)

-- With nothing running, any timer that fires after the delay starts the oldest request.
fire_first :
    (added : List ℕ) (now request : ℕ) (rest timers : List ℕ) (s : RequestLimiter)
    → s.timers ≡ timers
    → 0 < length timers
    → s.active_requests ≡ 0
    → s.queue ≡ request ∷ rest
    → IsFair added now s
    → IsAwake s
    → Follows added now s (now + min_delay) rest
fire_first added now request rest [] s e some idle q f a = absurd (omega arith)
fire_first added now request rest (due ∷ timers) s e some idle q f a =
    let later : ℕ = now + min_delay in
    let due_then : due ≤ later = (rw e at f.soon).0 in
    let left : RequestLimiter = record s { timers = timers } in
    let step : Step later s (process_queue later left) = fire s [] timers due e due_then in
    let kept =
      Step-IsFair added later s (process_queue later left) step
        (IsFair-wait added now later s (omega arith) (f, a)).0 in
    record {
      state = process_queue later left;
      run = Run.next (Run.wait Run.here (omega arith)) step;
      queued = process_queue-takes later request rest left q (omega arith) (omega (arith, f.past));
      fair = kept.0;
      awake = kept.1;
    }

-- After the delay some timer finds the oldest request.
serve_next :
    (added : List ℕ) (now request : ℕ) (rest : List ℕ) (s : RequestLimiter)
    → s.queue ≡ request ∷ rest
    → IsFair added now s
    → IsAwake s
    → Follows added now s (now + min_delay) rest
serve_next added now request rest s e f a =
    let (quiet, idle) = settle_all added now s.active_requests s refl f a in
    let waiting : quiet.state.queue ≡ request ∷ rest = quiet.queued ∙ e in
    follows_after quiet.run (
      fire_first added now request rest quiet.state.timers quiet.state refl
        (let awake = quiet.awake (rw waiting (omega arith)) in omega arith) idle waiting quiet.fair
        quiet.awake)

serve_all :
    (added : List ℕ) (now : ℕ) (queue : List ℕ) (s : RequestLimiter)
    → s.queue ≡ queue
    → IsFair added now s
    → IsAwake s
    → Follows added now s (now + min_delay * length queue) []
serve_all added now [] s e f a =
    let z : now + min_delay * 0 ≡ now = omega arith in
    rw z (record { state = s; run = Run.here; queued = e; fair = f; awake = a })
serve_all added now (request ∷ rest) s e f a =
    let one = serve_next added now request rest s e f a in
    let others = serve_all added (now + min_delay) rest one.state one.queued one.fair one.awake in
    let z : now + min_delay * length (request ∷ rest) ≡ now + min_delay + min_delay * length rest =
      omega arith in
    rw z (follows_after one.run others)

-- From every reachable state, if requests settle and timers fire, some run without new requests starts
-- everything that waits, within 200 ms for each request in the queue; then all that was ever added was
-- started, in the order in which it was added.
pub limiter_drains :
    {added : List ℕ} {now : ℕ} {s : RequestLimiter}
    → Reach added now s
    → (t : RequestLimiter) × Run now s (now + min_delay * length s.queue) t
      × (t.queue ≡ [])
      × (served t ≡ added)
limiter_drains {added} {now} {s} r =
    let (fair, awake) = Reach-IsFair r in
    let f = serve_all added now s.queue s refl fair awake in
    (
      f.state,
      f.run,
      f.queued,
      sym (append-nil (served f.state))
          ∙ ap (λ q. served f.state ++ q) (sym f.queued)
          ∙ f.fair.ordered,
    )
