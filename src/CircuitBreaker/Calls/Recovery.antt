-- ===== src/CircuitBreaker/Calls/Recovery.antt =====
-- What holds between any two steps of any schedule, and why a half-open breaker gets out.
use p2p_gossip_lb.Prelude.{
  ℕ, suc, zero, ◌+◌, ◌^◌, ◌≤◌, ◌<◌, ◌≡◌, inl, inr, refl, Bool, none, some, List, [], ◌∷◌, arith,
  ◌==◌, if◌then◌else◌, get_elem?, length, All, Option-cases,
}
use native.Mathlib.Nat.{add-zero, add-suc, suc-add}
use native.Mathlib.Numerals.{add-one}
use p2p_gossip_lb.Prelude.Text.{Text}
use p2p_gossip_lb.Prelude.Time.{Time}
use p2p_gossip_lb.CircuitBreaker.{Config, new, opened, half_open, before_request, after_request}
use p2p_gossip_lb.CircuitBreaker.Calls.{System, Event, begins, ends, remove_at, conclude, step, run}

-- how many of the running calls are of a generation
abbrev pub count : ℕ → List ℕ → ℕ
count g [] = 0
count g (x ∷ xs) = let rest = count g xs in if x == g then suc rest else rest

-- No running call is of a later generation.
abbrev NoneAbove : ℕ → List ℕ → Type 0
NoneAbove g xs = All (λ x. x ≤ g) xs

NoneAbove-suc : (g : ℕ) (xs : List ℕ) → NoneAbove g xs → NoneAbove (g + 1) xs
NoneAbove-suc g [] h = tt
NoneAbove-suc g (x ∷ xs) h = (omega arith, NoneAbove-suc g xs h.1)

count-above : (g : ℕ) (xs : List ℕ) → NoneAbove g xs → count (g + 1) xs ≡ 0
count-above g [] h = refl
count-above g (x ∷ xs) h = ground (arith, count-above g xs h.1)

NoneAbove-remove_at : (g : ℕ) (xs : List ℕ) (i : ℕ) → NoneAbove g xs → NoneAbove g (remove_at xs i)
NoneAbove-remove_at g [] i h = tt
NoneAbove-remove_at g (x ∷ xs) zero h = h.1
NoneAbove-remove_at g (x ∷ xs) (suc i) h = (h.0, NoneAbove-remove_at g xs i h.1)

count-remove_at :
    (g : ℕ) (xs : List ℕ) (i x : ℕ)
    → get_elem? xs i ≡ some x
    → count g xs ≡ (if x == g then suc (count g (remove_at xs i)) else count g (remove_at xs i))
count-remove_at g [] i x h = cc
count-remove_at g (y ∷ xs) zero x h = ground arith
count-remove_at g (y ∷ xs) (suc i) x h = ground (arith, count-remove_at g xs i x h)

get_elem?-NoneAbove :
    (g : ℕ) (xs : List ℕ) (i x : ℕ) → get_elem? xs i ≡ some x → NoneAbove g xs → x ≤ g
get_elem?-NoneAbove g [] i x h n = cc
get_elem?-NoneAbove g (y ∷ xs) zero x h n = ground arith
get_elem?-NoneAbove g (y ∷ xs) (suc i) x h n = get_elem?-NoneAbove g xs i x h n.1

-- Between two steps, after at most `n` of them, with `MaxRequests` equal to `max`.
pub record Inv (max n : ℕ) (s : System) : Type 0 where
  pub configured : s.breaker.config.max_requests ≡ max
  pub generation_le : s.breaker.generation ≤ n
  pub none_above : NoneAbove s.breaker.generation s.running
  pub half_open_accounts :
      s.breaker.state ≡ half_open
      → s.breaker.counts.requests
        ≡ s.breaker.counts.consec_succ + count s.breaker.generation s.running
  pub half_open_capped : s.breaker.state ≡ half_open → s.breaker.counts.requests ≤ max
  pub half_open_waiting : s.breaker.state ≡ half_open → s.breaker.counts.consec_succ < max
  pub opened_idle : s.breaker.state ≡ opened → count s.breaker.generation s.running ≡ 0

module _ (max n : ℕ) (fits : max < 2 ^ 32) (positive : 0 < max) (few : n + 1 < 2 ^ 64) where
  begins-Inv : (s : System) (now : Time) → Inv max n s → Inv max (n + 1) (step s (begins now))
  unfolding step before_request
  begins-Inv s now h = ground (
    arith,
    NoneAbove-suc s.breaker.generation s.running,
    count-above s.breaker.generation s.running,
  )

  conclude-Inv :
      (s : System) (i generation : ℕ) (success : Bool) (now : Time)
      → get_elem? s.running i ≡ some generation
      → Inv max n s
      → Inv max (n + 1) (conclude (some generation) s i success now)
  unfolding after_request
  conclude-Inv s i generation success now found h = ground (
    arith,
    NoneAbove-remove_at s.breaker.generation s.running i,
    NoneAbove-suc s.breaker.generation (remove_at s.running i),
    count-above s.breaker.generation (remove_at s.running i),
    count-remove_at s.breaker.generation s.running i generation found,
    get_elem?-NoneAbove s.breaker.generation s.running i generation found,
  )

  pub step-Inv : (s : System) (e : Event) → Inv max n s → Inv max (n + 1) (step s e)
  unfolding step
  step-Inv s (begins now) h = begins-Inv s now h
  step-Inv s (ends i success now) h = elim (Option-cases (get_elem? s.running i)) [
    | inl missing ↦ rw missing (ground (arith, NoneAbove-suc s.breaker.generation s.running))
    | inr (generation, found) ↦ rw found (conclude-Inv s i generation success now found h)
  ]

module _ (max : ℕ) (fits : max < 2 ^ 32) (positive : 0 < max) where
  run-Inv :
      (n : ℕ) (s : System) (es : List Event)
      → n + length es < 2 ^ 64
      → Inv max n s
      → Inv max (n + length es) (run s es)
  unfolding run
  run-Inv n s [] few h = rw add-zero h
  run-Inv n s (e ∷ es) few h =
      rw (add-suc, ← suc-add, ← add-one)
        (run-Inv (n + 1) (step s e) es (omega arith)
          (step-Inv max n fits positive (omega arith) s e h))

-- A new breaker with no call running.
abbrev pub start : Text → Config → Time → System
start name config now = record { breaker = new name config now; running = [] }

pub run-start-Inv :
    (name : Text) (config : Config) (t : Time) (es : List Event)
    → config.max_requests < 2 ^ 32
    → 0 < config.max_requests
    → length es < 2 ^ 64
    → Inv config.max_requests (0 + length es) (run (start name config t) es)
unfolding new
run-start-Inv name config t es fits positive few =
    run-Inv config.max_requests fits positive 0 (start name config t) es (omega arith)
      (ground arith)

-- After any schedule of fewer than 2^64 steps of any number of calls, with `MaxRequests` positive
-- and a `uint32`, a half-open breaker has at most `MaxRequests` calls of its generation running.
pub half_open_limited :
    (name : Text) (config : Config) (t : Time) (es : List Event)
    → config.max_requests < 2 ^ 32
    → 0 < config.max_requests
    → length es < 2 ^ 64
    → (run (start name config t) es).breaker.state ≡ half_open
    → count (run (start name config t) es).breaker.generation (run (start name config t) es).running
      ≤ config.max_requests
half_open_limited name config t es fits positive few half =
    let h = run-start-Inv name config t es fits positive few in
    omega (arith, h.half_open_accounts half, h.half_open_capped half)

-- After any schedule of fewer than 2^64 steps of any number of calls, with `MaxRequests` positive
-- and a `uint32`, a half-open breaker of which no call of its generation is running admits the next
-- request, at any time.
pub half_open_recovers :
    (name : Text) (config : Config) (t : Time) (es : List Event) (now : Time)
    → config.max_requests < 2 ^ 32
    → 0 < config.max_requests
    → length es < 2 ^ 64
    → (run (start name config t) es).breaker.state ≡ half_open
    → count (run (start name config t) es).breaker.generation (run (start name config t) es).running
      ≡ 0
    → (before_request (run (start name config t) es).breaker now).2 ≡ none
unfolding before_request
half_open_recovers name config t es now fits positive few half idle =
    let h = run-start-Inv name config t es fits positive few in
    ground (arith, h.half_open_accounts half, h.half_open_waiting half)
