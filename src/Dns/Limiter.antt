-- ===== src/Dns/Limiter.antt =====
-- pkg/dnsplugin/plugin.go: `requestLimiter`, one token bucket per client, over the same interface of
-- golang.org/x/time/rate as the proxy's.
use p2p_gossip_lb.Prelude.{
  ◌+◌, ◌/◌, Bool, true, ◌&&◌, ◌||◌, Option, none, some, [], ◌∷◌, if◌then◌else◌,
}
use p2p_gossip_lb.Prelude.Int.{ℤ, pos, negsuc, leb_ℤ, ltb_ℤ, ◌-ℤ◌}
use p2p_gossip_lb.Prelude.Text.{Text, text_eq, dec_text}
use p2p_gossip_lb.Prelude.Time.{Time, Duration, before, sub, is_zero, zero_time, seconds}
use p2p_gossip_lb.GoMap
use p2p_gossip_lb.GoMap.{GoMap}
use p2p_gossip_lb.Proxy.RateLimiter.{Rates}

module _ (rates : Rates) where
  pub record LimiterEntry : Type 0 where
    pub limiter : rates.Limiter
    pub last_seen : Time

  pub record RequestLimiter : Type 0 where
    pub entries : GoMap Text LimiterEntry
    pub limit : rates.Limit
    pub burst : ℤ
    pub ttl : Duration
    pub last_cleanup : Time
    pub cleanup_period : Duration

  -- `ttl / 2`, which Go rounds towards 0
  halved : Duration → Duration
  halved (pos n) = pos (n / 2)
  halved (negsuc n) = pos 0 -ℤ pos ((n + 1) / 2)

  unfoldable pub new_request_limiter : rates.Limit → ℤ → Duration → RequestLimiter
  unfolding halved
  new_request_limiter limit burst ttl =
      let half = halved ttl in
      let cleanup = if leb_ℤ half (pos 0) then ttl else half in
      record {
        entries = [];
        limit = limit;
        burst = burst;
        ttl = ttl;
        last_cleanup = zero_time;
        cleanup_period = if leb_ℤ cleanup (pos 0) then seconds 60 else cleanup;
      }

  abbrev pub recent : Time → GoMap Text LimiterEntry → GoMap Text LimiterEntry
  recent cutoff [] = []
  recent cutoff ((key, entry) ∷ entries) =
      let rest = recent cutoff entries in
      if before entry.last_seen cutoff then rest else (key, entry) ∷ rest

  abbrev pub due : RequestLimiter → Time → Bool
  due r now =
      ltb_ℤ (pos 0) r.cleanup_period
      && (is_zero r.last_cleanup || leb_ℤ r.cleanup_period (sub now r.last_cleanup))

  unfoldable pub cleaned_up : RequestLimiter → Time → RequestLimiter
  cleaned_up r now =
      if due r now
      then record r { entries = recent (now -ℤ r.ttl) r.entries; last_cleanup = now }
      else r

  abbrev pub bucket_of : RequestLimiter → Option LimiterEntry → rates.Limiter
  bucket_of r none = rates.new_limiter r.limit r.burst
  bucket_of r (some entry) = entry.limiter

  unfoldable pub draw : RequestLimiter → Text → Time → RequestLimiter × Bool
  draw r ip now =
      let (limiter, allowed) = rates.allow (bucket_of r (GoMap.get dec_text ip r.entries)) now in
      let entry : LimiterEntry = record { limiter = limiter; last_seen = now } in
      (record r { entries = GoMap.put dec_text ip entry r.entries }, allowed)

  -- `Allow` at the time `now`
  unfoldable pub allow : RequestLimiter → Text → Time → RequestLimiter × Bool
  allow r ip now = if text_eq ip [] then (r, true) else draw (cleaned_up r now) ip now
