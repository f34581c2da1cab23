-- ===== src/Proxy/RateLimiter.antt =====
-- pkg/proxy/rate_limiter.go: one token bucket per client. golang.org/x/time/rate is not part of the
-- repository: its limiter is a parameter.
pub mod Clients
use p2p_gossip_lb.Prelude.{Bool, Option, none, some, [], ◌∷◌, if◌then◌else◌, ltb, length}
use p2p_gossip_lb.Prelude.Int.{ℤ, ◌-ℤ◌}
use p2p_gossip_lb.Prelude.Text.{Text, dec_text}
use p2p_gossip_lb.Prelude.Time.{Time, Duration, before}
use p2p_gossip_lb.GoMap
use p2p_gossip_lb.GoMap.{GoMap}

-- `rate.NewLimiter` of a limit and a burst, and `Limiter.Allow` at a time
pub record Rates : Type 1 where
  pub Limit : Type 0
  pub Limiter : Type 0
  pub limit_of_int : ℤ → Limit
  pub new_limiter : Limit → ℤ → Limiter
  pub allow : Limiter → Time → Limiter × Bool

module _ (rates : Rates) where
  pub record ClientLimiter : Type 0 where
    pub limiter : rates.Limiter
    pub last_seen : Time

  pub record ClientRateLimiter : Type 0 where
    pub limit : rates.Limit
    pub burst : ℤ
    pub window : Duration
    pub clients : GoMap Text ClientLimiter

  unfoldable pub new_client_rate_limiter : ℤ → ℤ → Duration → ClientRateLimiter
  new_client_rate_limiter per_second burst window = record {
    limit = rates.limit_of_int per_second;
    burst = burst;
    window = window;
    clients = [];
  }

  abbrev pub active : Time → GoMap Text ClientLimiter → GoMap Text ClientLimiter
  active threshold [] = []
  active threshold ((ip, entry) ∷ clients) =
      let rest = active threshold clients in
      if before entry.last_seen threshold then rest else (ip, entry) ∷ rest

  unfoldable pub cleanup : ClientRateLimiter → Time → ClientRateLimiter
  unfolding ◌-ℤ◌
  cleanup c now = record c { clients = active (now -ℤ c.window) c.clients }

  abbrev pub limiter_of : ClientRateLimiter → Option ClientLimiter → rates.Limiter
  limiter_of c none = rates.new_limiter c.limit c.burst
  limiter_of c (some entry) = entry.limiter

  -- `Allow`, which reads the clock three times: here it is one time.
  unfoldable pub allow : ClientRateLimiter → Text → Time → ClientRateLimiter × Bool
  allow c ip now =
      let (limiter, allowed) = rates.allow (limiter_of c (GoMap.get dec_text ip c.clients)) now in
      let entry : ClientLimiter = record { limiter = limiter; last_seen = now } in
      let c' = record c { clients = GoMap.put dec_text ip entry c.clients } in
      (if ltb 2048 (length c'.clients) then cleanup c' now else c', allowed)
