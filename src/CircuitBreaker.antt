-- ===== src/CircuitBreaker.antt =====
-- pkg/circuitbreaker/circuitbreaker.go. Every method holds the mutex throughout, so it is one step.
-- The clock is read inside a method: its value is an argument. The calls of `OnStateChange` are
-- recorded, newest first.
pub mod Counters
pub mod Transitions
pub mod Calls
use p2p_gossip_lb.Prelude.{
  ℕ, ◌+◌, ◌*◌, Bool, true, false, not, ◌&&◌, Option, none, some, List, [], ◌∷◌, ltb, leb, ◌==◌,
  is_some, if◌then◌else◌,
}
use p2p_gossip_lb.CircuitBreaker.Counters
use p2p_gossip_lb.CircuitBreaker.Counters.{Counts, zero_counts}
use p2p_gossip_lb.Prelude.Int.{u64}
use p2p_gossip_lb.Prelude.Text.{Text}
use p2p_gossip_lb.Prelude.Time.{Time, Duration, zero_time, is_zero, before, add, seconds}

pub data Error : Type 0 where
  circuit_open too_many_requests : Error

-- `StateClosed`, `StateOpen`, `StateHalfOpen`
pub data State : Type 0 where
  closed opened half_open : State

abbrev same_state : State → State → Bool
same_state closed closed = true
same_state opened opened = true
same_state half_open half_open = true
same_state _ _ = false

-- `ReadyToTrip` may be nil; `OnStateChange` is there or not.
pub record Config : Type 0 where
  pub max_requests : ℕ  -- uint32
  pub interval : Duration
  pub timeout : Duration
  pub ready_to_trip : Option (Counts → Bool)
  pub has_on_state_change : Bool

-- The default `ReadyToTrip`. The quotient of two `uint32` values, as `float64`, is above 0.20
-- exactly when five times the failures are above the requests: the rounding cannot close the gap.
pub default_ready_to_trip : Counts → Bool
default_ready_to_trip counts =
    if ltb counts.total_requests 50
    then false
    else ltb counts.total_requests (5 * counts.total_failures)

unfoldable default_config : Config
default_config = record {
  max_requests = 5;
  interval = seconds 10;
  timeout = seconds 30;
  ready_to_trip = some default_ready_to_trip;
  has_on_state_change = false;
}

pub record CircuitBreaker : Type 0 where
  pub name : Text
  pub config : Config
  pub state : State
  pub generation : ℕ  -- uint64
  pub counts : Counts
  pub expiry : Time
  pub notified : List (Text × State × State)

-- `New`, which fills in the default `ReadyToTrip`
unfoldable pub new : Text → Config → Time → CircuitBreaker
new name config now = record {
  name = name;
  config = record config {
    ready_to_trip =
        if is_some config.ready_to_trip then config.ready_to_trip else some default_ready_to_trip;
  };
  state = closed;
  generation = 0;
  counts = zero_counts;
  expiry = add now config.interval;
  notified = [];
}

-- A nil `ReadyToTrip` would panic; `New` has replaced it.
abbrev trips : Option (Counts → Bool) → Counts → Bool
trips none counts = false
trips (some test) counts = test counts

abbrev expiry_of : State → Config → Time → Time
expiry_of closed config now = add now config.interval
expiry_of opened config now = add now config.timeout
expiry_of half_open config now = zero_time

unfoldable set_state : CircuitBreaker → State → Time → CircuitBreaker
set_state cb state now = if same_state cb.state state then cb else (record cb {
  state = state;
  generation = u64 (cb.generation + 1);
  counts = zero_counts;
  expiry = expiry_of state cb.config now;
  notified =
      if cb.config.has_on_state_change
      then (cb.name, cb.state, state) ∷ cb.notified
      else cb.notified;
})

-- `currentState` returns the breaker's state and generation, which are read off the result here.
current_state_in : State → CircuitBreaker → Time → CircuitBreaker
unfolding set_state Counters.clear
current_state_in closed cb now =
    if not (is_zero cb.expiry) && before cb.expiry now
    then record cb { counts = Counters.clear cb.counts; expiry = add now cb.config.interval }
    else cb
current_state_in opened cb now = if before cb.expiry now then set_state cb half_open now else cb
current_state_in half_open cb now = cb

unfoldable pub current_state : CircuitBreaker → Time → CircuitBreaker
unfolding current_state_in
current_state cb now = current_state_in cb.state cb now

admit : State → CircuitBreaker → CircuitBreaker × ℕ × Option Error
unfolding Counters.on_request
admit opened cb = (cb, cb.generation, some circuit_open)
admit half_open cb =
    if leb cb.config.max_requests cb.counts.requests
    then (cb, cb.generation, some too_many_requests)
    else (record cb { counts = Counters.on_request cb.counts }, cb.generation, none)
admit closed cb = (record cb { counts = Counters.on_request cb.counts }, cb.generation, none)

unfoldable pub before_request : CircuitBreaker → Time → CircuitBreaker × ℕ × Option Error
unfolding admit current_state
before_request cb now = let cb' = current_state cb now in admit cb'.state cb'

pub on_success : CircuitBreaker → State → Time → CircuitBreaker
unfolding Counters.on_success set_state
on_success cb state now =
    let cb' = record cb { counts = Counters.on_success cb.counts } in
    if same_state state half_open && leb cb'.config.max_requests cb'.counts.consec_succ
    then set_state cb' closed now
    else cb'

pub on_failure : CircuitBreaker → State → Time → CircuitBreaker
unfolding Counters.on_failure set_state
on_failure cb closed now =
    let cb' = record cb { counts = Counters.on_failure cb.counts } in
    if trips cb'.config.ready_to_trip cb'.counts then set_state cb' opened now else cb'
on_failure cb half_open now =
    set_state (record cb { counts = Counters.on_failure cb.counts }) opened now
on_failure cb opened now = record cb { counts = Counters.on_failure cb.counts }

unfoldable pub after_request : CircuitBreaker → ℕ → Bool → Time → CircuitBreaker
unfolding current_state on_success on_failure
after_request cb generation_before success now =
    let cb' = current_state cb now in
    if cb'.generation == generation_before
    then (if success then on_success cb' cb'.state now else on_failure cb' cb'.state now)
    else cb'

-- What the function given to `Call` does: it returns nil, returns an error, or panics.
pub data Outcome : Type 0 where
  returns_nil returns_error panics : Outcome

pub data CallResult : Type 0 where
  rejected : Error → CallResult
  finished : Outcome → CallResult

abbrev succeeded : Outcome → Bool
succeeded returns_nil = true
succeeded _ = false

-- `Call`, with no other call in between: the function starts at `now` and ends at `later`.
unfoldable call : CircuitBreaker → Time → Outcome → Time → CircuitBreaker × CallResult
unfolding before_request after_request
call cb now outcome later =
    let (cb', generation, err) = before_request cb now in
    elim err [
      | some e ↦ (cb', rejected e)
      | none ↦ (after_request cb' generation (succeeded outcome) later, finished outcome)
    ]

-- `State()` moves an expired breaker on, too.
unfoldable state_at : CircuitBreaker → Time → CircuitBreaker × State
unfolding current_state
state_at cb now = let cb' = current_state cb now in (cb', cb'.state)
