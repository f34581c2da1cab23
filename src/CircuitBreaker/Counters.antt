-- ===== src/CircuitBreaker/Counters.antt =====
-- pkg/circuitbreaker/circuitbreaker.go: `Counts` and its methods.
use p2p_gossip_lb.Prelude.{ℕ, ◌+◌}
use p2p_gossip_lb.Prelude.Int.{u32}

pub record Counts : Type 0 where
  pub requests : ℕ  -- all fields are uint32
  pub total_requests : ℕ
  pub total_successes : ℕ
  pub total_failures : ℕ
  pub consec_succ : ℕ
  pub consec_fail : ℕ

abbrev pub zero_counts : Counts
zero_counts = record {
  requests = 0;
  total_requests = 0;
  total_successes = 0;
  total_failures = 0;
  consec_succ = 0;
  consec_fail = 0;
}

unfoldable pub on_request : Counts → Counts
on_request c = record c {
  requests = u32 (c.requests + 1);
  total_requests = u32 (c.total_requests + 1);
}

unfoldable pub on_success : Counts → Counts
on_success c = record c {
  total_successes = u32 (c.total_successes + 1);
  consec_succ = u32 (c.consec_succ + 1);
  consec_fail = 0;
}

unfoldable pub on_failure : Counts → Counts
on_failure c = record c {
  total_failures = u32 (c.total_failures + 1);
  consec_fail = u32 (c.consec_fail + 1);
  consec_succ = 0;
}

unfoldable pub clear : Counts → Counts
clear c = record c { requests = 0 }
