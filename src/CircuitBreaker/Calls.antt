-- ===== src/CircuitBreaker/Calls.antt =====
-- Calls of many goroutines: `Call` takes the mutex twice, and any steps of other calls come between.
-- A schedule is a list of events; a call that was admitted holds its generation until it ends.
pub mod Recovery
pub mod Closing
use p2p_gossip_lb.Prelude.{
  ℕ, suc, zero, ◌+◌, Bool, true, false, Option, none, some, List, [], ◌∷◌, ◌==◌, if◌then◌else◌,
  get_elem?,
}
use p2p_gossip_lb.Prelude.Time.{Time}
use p2p_gossip_lb.CircuitBreaker.{CircuitBreaker, Error, before_request, after_request}

pub record System : Type 0 where
  pub breaker : CircuitBreaker
  pub running : List ℕ  -- the generations of the calls between their two steps

pub data Event : Type 0 where
  begins : Time → Event  -- a call reaches `beforeRequest`
  ends : ℕ → Bool → Time → Event  -- the call at this index of `running` reaches `afterRequest`

abbrev pub remove_at : List ℕ → ℕ → List ℕ
remove_at [] i = []
remove_at (x ∷ xs) zero = xs
remove_at (x ∷ xs) (suc i) = x ∷ remove_at xs i

abbrev enroll : CircuitBreaker × ℕ × Option Error → List ℕ → System
enroll (cb, generation, none) running = record { breaker = cb; running = generation ∷ running }
enroll (cb, generation, some e) running = record { breaker = cb; running = running }

abbrev pub conclude : Option ℕ → System → ℕ → Bool → Time → System
conclude none s i success now = s
conclude (some generation) s i success now = record {
  breaker = after_request s.breaker generation success now;
  running = remove_at s.running i;
}

pub step : System → Event → System
step s (begins now) = enroll (before_request s.breaker now) s.running
step s (ends i success now) = conclude (get_elem? s.running i) s i success now

unfoldable pub run : System → List Event → System
unfolding step
run s [] = s
run s (e ∷ es) = run (step s e) es
