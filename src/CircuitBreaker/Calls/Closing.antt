-- ===== src/CircuitBreaker/Calls/Closing.antt =====
-- Why a half-open breaker closes: successful calls, one after the other, are enough.
use p2p_gossip_lb.Prelude.{
  ℕ, suc, ◌+◌, ◌*◌, ◌^◌, ◌≤◌, ◌<◌, ◌≡◌, ◌⊎◌, inl, inr, true, List, [], ◌∷◌, arith, length,
}
use p2p_gossip_lb.Prelude.Text.{Text}
use p2p_gossip_lb.Prelude.Time.{Time}
use p2p_gossip_lb.CircuitBreaker.{Config, closed, half_open, before_request, after_request}
use p2p_gossip_lb.CircuitBreaker.Calls.{System, Event, begins, ends, step, run}
use p2p_gossip_lb.CircuitBreaker.Calls.Recovery.{Inv, count, step-Inv, start, run-start-Inv}

-- A call that begins, and succeeds before another step is taken.
abbrev pub one_success : Time → Time → System → System
one_success now later s = step (step s (begins now)) (ends 0 true later)

-- The breaker is closed at some point of a sequence of such calls, at given times.
abbrev pub ClosesWithin : List (Time × Time) → System → Type 0
ClosesWithin [] s = s.breaker.state ≡ closed
ClosesWithin ((now, later) ∷ times) s =
    (s.breaker.state ≡ closed) ⊎ ClosesWithin times (one_success now later s)

closed_within :
    (times : List (Time × Time)) (s : System) → s.breaker.state ≡ closed → ClosesWithin times s
closed_within [] s h = h
closed_within (t ∷ times) s h = inl h

-- half open, and no call of the generation is running
record Idle (s : System) : Type 0 where
  half : s.breaker.state ≡ half_open
  idle : count s.breaker.generation s.running ≡ 0

module _ (max n : ℕ) (fits : max < 2 ^ 32) (positive : 0 < max) (few : n + 2 < 2 ^ 64) where
  one_success_closer :
      (s : System) (now later : Time)
      → Inv max n s
      → Idle s
      → ((one_success now later s).breaker.state ≡ closed)
        ⊎ (Idle (one_success now later s)
            × ((one_success now later s).breaker.counts.consec_succ
                ≡ suc s.breaker.counts.consec_succ))
  unfolding step before_request after_request
  one_success_closer s now later h i =
      ground (
        arith,
        h.half_open_accounts i.half,
        h.half_open_waiting i.half,
        h.configured,
        i.half,
        i.idle,
      )

module _ (max : ℕ) (fits : max < 2 ^ 32) (positive : 0 < max) where
  one_success-Inv :
      (n : ℕ) (s : System) (now later : Time)
      → n + 2 < 2 ^ 64
      → Inv max n s
      → Inv max (n + 1 + 1) (one_success now later s)
  one_success-Inv n s now later few h =
      step-Inv max (n + 1) fits positive (omega arith) (step s (begins now)) (ends 0 true later)
        (step-Inv max n fits positive (omega arith) s (begins now) h)

  Idle-closes :
      (times : List (Time × Time)) (n : ℕ) (s : System)
      → n + 2 * length times < 2 ^ 64
      → max ≤ length times + s.breaker.counts.consec_succ
      → Inv max n s
      → Idle s
      → ClosesWithin times s
  Idle-closes [] n s few left h i = absurd (omega (arith, h.half_open_waiting i.half))
  Idle-closes ((now, later) ∷ times) n s few left h i =
      inr (elim (one_success_closer max n fits positive (omega arith) s now later h i) [
        | inl done ↦ closed_within times (one_success now later s) done
        | inr (i', more) ↦
            Idle-closes times (n + 1 + 1) (one_success now later s) (omega arith)
              (omega (arith, more)) (one_success-Inv n s now later (omega arith) h) i'
      ])

-- After any schedule of calls, with `MaxRequests` positive and a `uint32`, take a half-open breaker of
-- which no call of its generation is running. If `MaxRequests` calls or more follow that succeed, one
-- after the other, at any times, then the breaker is closed at some point of them. All steps together
-- are fewer than 2^64.
pub half_open_closes :
    (name : Text) (config : Config) (t : Time) (es : List Event) (times : List (Time × Time))
    → config.max_requests < 2 ^ 32
    → 0 < config.max_requests
    → length es + 2 * length times < 2 ^ 64
    → config.max_requests ≤ length times
    → (run (start name config t) es).breaker.state ≡ half_open
    → count (run (start name config t) es).breaker.generation (run (start name config t) es).running
      ≡ 0
    → ClosesWithin times (run (start name config t) es)
half_open_closes name config t es times fits positive few enough half idle =
    Idle-closes config.max_requests fits positive times (0 + length es)
      (run (start name config t) es) (omega arith) (omega arith)
      (run-start-Inv name config t es fits positive (omega arith))
      (record { half = half; idle = idle })
