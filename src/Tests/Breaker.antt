-- ===== src/Tests/Breaker.antt =====
-- Concrete schedules of pkg/circuitbreaker/circuitbreaker.go.
use p2p_gossip_lb.Prelude.{◌≤◌, ◌≡◌, refl, true, false, none, some, List, [], ◌∷◌, arith, leb}
use p2p_gossip_lb.Prelude.Int.{pos, ◌+ℤ◌}
use p2p_gossip_lb.Prelude.Text.{codes}
use p2p_gossip_lb.CircuitBreaker.Counters.{zero_counts}
use p2p_gossip_lb.CircuitBreaker.{
  CircuitBreaker, Config, new, closed, opened, half_open, circuit_open, before_request,
  after_request,
}
use p2p_gossip_lb.CircuitBreaker.Transitions.{trip_blocks}
use p2p_gossip_lb.CircuitBreaker.Calls.{Event, begins, ends, run}
use p2p_gossip_lb.CircuitBreaker.Calls.Closing.{ClosesWithin, half_open_closes}
use p2p_gossip_lb.CircuitBreaker.Calls.Recovery.{
  start, count, half_open_limited, half_open_recovers,
}

-- trips at the first failure, waits 30, and probes with two calls
abbrev touchy : Config
touchy = record {
  max_requests = 2;
  interval = pos 10;
  timeout = pos 30;
  ready_to_trip = some (λ c. leb 1 c.total_failures);
  has_on_state_change = true;
}

abbrev fresh_breaker : CircuitBreaker
fresh_breaker = record {
  name = codes "b";
  config = touchy;
  state = closed;
  generation = 0;
  counts = zero_counts;
  expiry = pos 1010;
  notified = [];
}

trips_here : (after_request fresh_breaker 0 false (pos 1000)).state ≡ opened
unfolding after_request
trips_here = refl

trip_blocks_example : before_request (after_request fresh_breaker 0 false (pos 1000)) (pos 1030) ≡ (
  after_request fresh_breaker 0 false (pos 1000),
  (after_request fresh_breaker 0 false (pos 1000)).generation,
  some circuit_open,
)
trip_blocks_example =
    trip_blocks fresh_breaker 0 (pos 1000) (pos 1030) refl trips_here (unfold ◌+ℤ◌ in omega arith)

-- One call fails at 1005; after the timeout one probe begins and succeeds.
abbrev probed : List Event
probed =
    begins (pos 1000) ∷ ends 0 false (pos 1005) ∷ begins (pos 1040) ∷ ends 0 true (pos 1041) ∷ []

probed_half_open : (run (start (codes "b") touchy (pos 1000)) probed).breaker.state ≡ half_open
unfolding run new before_request after_request ◌+ℤ◌
probed_half_open = refl

probed_idle :
    count
      (run (start (codes "b") touchy (pos 1000)) probed).breaker.generation
      (run (start (codes "b") touchy (pos 1000)) probed).running
    ≡ 0
unfolding run new before_request after_request ◌+ℤ◌
probed_idle = refl

half_open_limited_example :
    count
      (run (start (codes "b") touchy (pos 1000)) probed).breaker.generation
      (run (start (codes "b") touchy (pos 1000)) probed).running
    ≤ 2
half_open_limited_example =
    half_open_limited (codes "b") touchy (pos 1000) probed (omega arith) (omega arith) (omega arith)
      probed_half_open

half_open_recovers_example :
    (before_request (run (start (codes "b") touchy (pos 1000)) probed).breaker (pos 1050)).2 ≡ none
half_open_recovers_example =
    half_open_recovers (codes "b") touchy (pos 1000) probed (pos 1050) (omega arith) (omega arith)
      (omega arith) probed_half_open probed_idle

half_open_closes_example :
    ClosesWithin
      ((pos 1050, pos 1051) ∷ (pos 1060, pos 1061) ∷ [])
      (run (start (codes "b") touchy (pos 1000)) probed)
half_open_closes_example =
    half_open_closes (codes "b") touchy (pos 1000) probed
      ((pos 1050, pos 1051) ∷ (pos 1060, pos 1061) ∷ []) (omega arith) (omega arith) (omega arith)
      (omega arith) probed_half_open probed_idle
