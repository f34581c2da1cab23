-- ===== src/Prelude/Time.antt =====
-- Go's `time.Time` and `time.Duration`, in nanoseconds. A time counts from the zero `time.Time`,
-- so that the zero time is 0; the range of `time.Time` is not bounded here.
use Prim.Native.Nat.{ℕ, ◌*◌}
use mathlib.Core.Bool.{Bool, ◌&&◌}
use p2p_gossip_lb.Prelude.Tests.{◌==◌}
use p2p_gossip_lb.Prelude.Int.{ℤ, pos, pos_part, neg_part, ltb_ℤ, ◌+ℤ◌, ◌-ℤ◌}

abbrev pub Time : Type 0
Time = ℤ

abbrev pub Duration : Type 0
Duration = ℤ

abbrev pub zero_time : Time
zero_time = pos 0

abbrev pub is_zero : Time → Bool
is_zero t = pos_part t == 0 && neg_part t == 0

-- t.Before(u)
abbrev pub before : Time → Time → Bool
before t u = ltb_ℤ t u

-- t.Add(d)
abbrev pub add : Time → Duration → Time
add t d = t +ℤ d

-- t.Sub(u)
abbrev pub sub : Time → Time → Duration
sub t u = t -ℤ u

abbrev pub seconds : ℕ → Duration
seconds n = pos (n * 1000000000)
