-- ===== src/Health.antt =====
-- pkg/health/health.go: what `Prober.check` does to the status. The probe itself, HTTP or TCP, is
-- network I/O: a check is given the error that it ended with, or none.
pub mod Streaks
use p2p_gossip_lb.Prelude.{
  ℕ, ◌+◌, Bool, true, false, Option, none, some, List, [], ◌∷◌, leb, if◌then◌else◌,
}
use p2p_gossip_lb.Prelude.Int.{u64}
use p2p_gossip_lb.Prelude.Text.{Text}
use p2p_gossip_lb.Prelude.Time.{Time, zero_time}

-- `uint` and `uint64` counters, on a 64-bit platform
pub record Status : Type 0 where
  pub healthy : Bool
  pub last_check : Time
  pub consec_failures : ℕ
  pub last_error : Text
  pub total_checks : ℕ
  pub total_failures : ℕ

-- the status that `NewProber` sets
abbrev new_status : Status
new_status = record {
  healthy = true;
  last_check = zero_time;
  consec_failures = 0;
  last_error = [];
  total_checks = 0;
  total_failures = 0;
}

-- `check` at the time `now`, with `Failures` and the probe's error
pub check : ℕ → Status → Time → Option Text → Status
check failures s now (some error) =
    let consec = u64 (s.consec_failures + 1) in
    record {
      healthy = if leb failures consec then false else s.healthy;
      last_check = now;
      consec_failures = consec;
      last_error = error;
      total_checks = u64 (s.total_checks + 1);
      total_failures = u64 (s.total_failures + 1);
    }
check failures s now none = record {
  healthy = true;
  last_check = now;
  consec_failures = 0;
  last_error = [];
  total_checks = u64 (s.total_checks + 1);
  total_failures = s.total_failures;
}

-- the status after a run of checks, the last one first
pub after : ℕ → List (Time × Option Text) → Status
after failures [] = new_status
after failures ((now, error) ∷ earlier) = check failures (after failures earlier) now error
