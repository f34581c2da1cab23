-- ===== src/Tests/Health.antt =====
-- A concrete run of the checks of pkg/health/health.go.
use p2p_gossip_lb.Prelude.{◌≡◌, ◌≤◌, ◌↔◌, false, Option, none, some, List, [], ◌∷◌, arith}
use p2p_gossip_lb.Prelude.Int.{pos}
use p2p_gossip_lb.Prelude.Text.{Text, codes}
use p2p_gossip_lb.Prelude.Time.{Time}
use p2p_gossip_lb.Health.{after}
use p2p_gossip_lb.Health.Streaks.{streak, unhealthy_iff}

abbrev outage : List (Time × Option Text)
outage = (pos 30, some (codes "HTTP 500")) ∷ (pos 20, some (codes "HTTP 500")) ∷ (pos 10, none) ∷ []

unhealthy_iff_example : ((after 2 outage).healthy ≡ false) ↔ (2 ≤ streak outage)
unhealthy_iff_example = unhealthy_iff 2 outage (omega arith) (omega arith)
