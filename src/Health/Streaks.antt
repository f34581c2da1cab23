-- ===== src/Health/Streaks.antt =====
-- A backend is unhealthy exactly while its last checks have failed often enough in a row.
use p2p_gossip_lb.Prelude.{
  ℕ, suc, ◌^◌, ◌≤◌, ◌<◌, ◌≡◌, ◌↔◌, refl, false, Option, none, some, List, [], ◌∷◌, length, arith,
}
use p2p_gossip_lb.Prelude.Text.{Text}
use p2p_gossip_lb.Prelude.Time.{Time}
use p2p_gossip_lb.Health.{check, after}

-- how many of the last checks failed, in a row
pub streak : List (Time × Option Text) → ℕ
streak [] = 0
streak ((now, none) ∷ earlier) = 0
streak ((now, some error) ∷ earlier) = suc (streak earlier)

streak-le-length : (checks : List (Time × Option Text)) → streak checks ≤ length checks
unfolding streak
streak-le-length [] = omega arith
streak-le-length ((now, none) ∷ earlier) = omega arith
streak-le-length ((now, some error) ∷ earlier) = omega (arith, streak-le-length earlier)

consec_failures-streak :
    (failures : ℕ) (checks : List (Time × Option Text))
    → length checks < 2 ^ 64
    → (after failures checks).consec_failures ≡ streak checks
unfolding after check streak
consec_failures-streak failures [] h = refl
consec_failures-streak failures ((now, none) ∷ earlier) h = refl
consec_failures-streak failures ((now, some error) ∷ earlier) h =
    ground (arith, consec_failures-streak failures earlier, streak-le-length earlier)

-- After any run of fewer than 2^64 checks of a new prober with a positive `Failures`, the backend is
-- unhealthy exactly if the last `Failures` checks at least have all failed.
pub unhealthy_iff :
    (failures : ℕ) (checks : List (Time × Option Text))
    → 0 < failures
    → length checks < 2 ^ 64
    → ((after failures checks).healthy ≡ false) ↔ (failures ≤ streak checks)
unfolding after check streak
unhealthy_iff failures [] p h = ground arith
unhealthy_iff failures ((now, none) ∷ earlier) p h = ground arith
unhealthy_iff failures ((now, some error) ∷ earlier) p h = ground (
  arith,
  unhealthy_iff failures earlier p,
  consec_failures-streak failures earlier,
  streak-le-length earlier,
)
