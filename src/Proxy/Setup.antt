-- ===== src/Proxy/Setup.antt =====
-- pkg/proxy/proxy.go: `Config` and `New`. The logger and the transport are left out.
pub mod Fresh
use p2p_gossip_lb.Prelude.{ℕ, ◌/◌, ◌&&◌, Bool, Option, none, some, List, [], if◌then◌else◌, ltb}
use p2p_gossip_lb.Prelude.Int.{ℤ, pos, pos_part, ltb_ℤ, leb_ℤ, ◌*ℤ◌, int64}
use p2p_gossip_lb.Prelude.Text.{Text, codes, text_eq}
use p2p_gossip_lb.Prelude.Time.{Duration, seconds}
use p2p_gossip_lb.Cache.{ResponseCache, new_response_cache}
use p2p_gossip_lb.Registry.Store.{Store}
use p2p_gossip_lb.Selector.Filter
use p2p_gossip_lb.Proxy.RateLimiter.{ClientRateLimiter, new_client_rate_limiter}
use p2p_gossip_lb.Proxy.Responses.{Libraries, Proxy}

pub record RateLimitConfig : Type 0 where
  pub per_ip_rps : ℤ
  pub burst : ℤ
  pub window : Duration

unfoldable pub cache_capacity : ℤ → ℤ → ℕ
cache_capacity max_bytes max_item =
    let est = pos_part max_bytes / pos_part max_item in
    if ltb_ℤ (pos 0) max_bytes && ltb_ℤ (pos 0) max_item && ltb 0 est then est else 1024

module _ (lib : Libraries) where
  pub record Config : Type 0 where
    pub store : Option (Store lib.floats.Float32)
    pub chains : List Text
    pub selector : Filter.Config lib.floats
    pub cache_enabled : Bool
    pub cache_max_bytes : ℤ
    pub cache_max_item_bytes : ℤ
    pub cache_ttl_heighted : Duration
    pub cache_ttl_infinite : Bool
    pub negative_cache_ttl : Duration
    pub rate_limit : RateLimitConfig
    pub edge_country : Text
    pub edge_region : Text
    pub backend_scheme : Text

  unfoldable pub limiter_for : RateLimitConfig → Option (ClientRateLimiter lib.rates)
  limiter_for c =
      let window = if leb_ℤ c.window (pos 0) then seconds 600 else c.window in
      let burst = if leb_ℤ c.burst (pos 0) then int64 (c.per_ip_rps *ℤ pos 2) else c.burst in
      if ltb_ℤ (pos 0) c.per_ip_rps
      then some (new_client_rate_limiter lib.rates c.per_ip_rps burst window)
      else none

  unfoldable pub with_cache :
      Config → Store lib.floats.Float32 → Option (ResponseCache lib.lru) → Proxy lib
  with_cache cfg store cache = record {
    store = store;
    selector_cfg = cfg.selector;
    allowed_chains = cfg.chains;
    cache = cache;
    cache_max_item = cfg.cache_max_item_bytes;
    cache_ttl = cfg.cache_ttl_heighted;
    cache_infinite = cfg.cache_ttl_infinite;
    negative_cache_ttl = cfg.negative_cache_ttl;
    rate_limiter = limiter_for cfg.rate_limit;
    backend_scheme = if text_eq cfg.backend_scheme [] then codes "https" else cfg.backend_scheme;
    edge_country = cfg.edge_country;
    edge_region = cfg.edge_region;
  }

  -- `New`, with the store that the configuration names, if it does
  unfoldable pub new_over : Config → Option (Store lib.floats.Float32) → Option (Proxy lib)
  new_over cfg none = none
  new_over cfg (some store) =
      let fresh : Option (Proxy lib) =
        elim (new_response_cache lib.lru
          (pos (cache_capacity cfg.cache_max_bytes cfg.cache_max_item_bytes)) cfg.cache_max_bytes) [
            | none ↦ none
            | some cache ↦ some (with_cache cfg store (some cache))
          ] in
      if cfg.cache_enabled then fresh else some (with_cache cfg store none)

  unfoldable pub new : Config → Option (Proxy lib)
  new cfg = new_over cfg cfg.store
