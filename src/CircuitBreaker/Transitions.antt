-- ===== src/CircuitBreaker/Transitions.antt =====
-- When the breaker opens, how long it rejects, and what a late result can change.
use p2p_gossip_lb.Prelude.{ℕ, ◌*◌, ◌≤◌, ◌<◌, ◌≡◌, ◌≢◌, ◌↔◌, Bool, true, false, none, some, arith}
use p2p_gossip_lb.Prelude.Int.{◌+ℤ◌, ◌≤ℤ◌, ◌<ℤ◌}
use p2p_gossip_lb.Prelude.Time.{Time, before, is_zero}
use p2p_gossip_lb.CircuitBreaker.Counters.{Counts}
use p2p_gossip_lb.CircuitBreaker.{
  CircuitBreaker, closed, opened, half_open, circuit_open, default_ready_to_trip, current_state,
  before_request, after_request,
}

-- The default test trips exactly from 50 requests on, where more than a fifth have failed.
default_ready_to_trip_iff :
    (c : Counts)
    → (default_ready_to_trip c ≡ true)
      ↔ ((50 ≤ c.total_requests) × (c.total_requests < 5 * c.total_failures))
unfolding default_ready_to_trip
default_ready_to_trip_iff c = ground arith

opened_rejects :
    (cb : CircuitBreaker) (now : Time)
    → cb.state ≡ opened
    → before cb.expiry now ≡ false
    → before_request cb now ≡ (cb, cb.generation, some circuit_open)
unfolding before_request
opened_rejects cb now s e = ground arith

opened_probes :
    (cb : CircuitBreaker) (now : Time)
    → cb.state ≡ opened
    → before cb.expiry now ≡ true
    → ((before_request cb now).0.state ≡ half_open)
      × (0 < cb.config.max_requests → (before_request cb now).2 ≡ none)
unfolding before_request
opened_probes cb now s e = (ground arith, λ p. ground arith)

tripped :
    (cb : CircuitBreaker) (generation : ℕ) (now : Time)
    → cb.state ≡ closed
    → (after_request cb generation false now).state ≡ opened
    → ((after_request cb generation false now).expiry ≡ now +ℤ cb.config.timeout)
      × ((after_request cb generation false now).config ≡ cb.config)
unfolding after_request
tripped cb generation now s o = ground arith

-- A closed breaker that a failed call opens rejects every request up to the timeout, and does not
-- change by it.
pub trip_blocks :
    (cb : CircuitBreaker) (generation : ℕ) (now later : Time)
    → cb.state ≡ closed
    → (after_request cb generation false now).state ≡ opened
    → later ≤ℤ now +ℤ cb.config.timeout
    → before_request (after_request cb generation false now) later ≡ (
      after_request cb generation false now,
      (after_request cb generation false now).generation,
      some circuit_open,
    )
trip_blocks cb generation now later s o h =
    let (e, c) = tripped cb generation now s o in
    opened_rejects (after_request cb generation false now) later o (rw e (ground arith))

-- A closed breaker that a failed call opens is half open for the first request after the timeout,
-- and admits it, where `MaxRequests` is positive.
pub trip_probes :
    (cb : CircuitBreaker) (generation : ℕ) (now later : Time)
    → cb.state ≡ closed
    → (after_request cb generation false now).state ≡ opened
    → now +ℤ cb.config.timeout <ℤ later
    → 0 < cb.config.max_requests
    → ((before_request (after_request cb generation false now) later).0.state ≡ half_open)
      × ((before_request (after_request cb generation false now) later).2 ≡ none)
trip_probes cb generation now later s o h p =
    let (e, c) = tripped cb generation now s o in
    let cb' = after_request cb generation false now in
    let (half, admitted) = opened_probes cb' later o (rw e (ground arith)) in
    (half, admitted (rw c p))

-- The result of a call of another generation than the present one changes nothing that `State()`
-- would not change.
pub stale_result_ignored :
    (cb : CircuitBreaker) (generation : ℕ) (success : Bool) (now : Time)
    → (current_state cb now).generation ≢ generation
    → after_request cb generation success now ≡ current_state cb now
unfolding after_request
stale_result_ignored cb generation success now h = ground arith

-- When the interval of a closed breaker has ended, the next step resets `Requests` alone: the totals
-- that `ReadyToTrip` is given stay.
pub interval_keeps_totals :
    (cb : CircuitBreaker) (now : Time)
    → cb.state ≡ closed
    → before cb.expiry now ≡ true
    → is_zero cb.expiry ≡ false
    → ((current_state cb now).counts.total_requests ≡ cb.counts.total_requests)
      × ((current_state cb now).counts.total_failures ≡ cb.counts.total_failures)
      × ((current_state cb now).counts.consec_fail ≡ cb.counts.consec_fail)
      × ((current_state cb now).counts.requests ≡ 0)
unfolding current_state
interval_keeps_totals cb now h p q = (ground arith, ground arith, ground arith, ground arith)
