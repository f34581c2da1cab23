-- ===== src/Proxy/Responses.antt =====
-- pkg/proxy/proxy.go: `Proxy`, what a request is answered from the response cache, and what an
-- upstream response leaves in it. The clock of one request is an argument.
pub mod Kept
pub mod Roundtrip
use p2p_gossip_lb.Prelude.{
  ℕ, Bool, not, ◌&&◌, Option, none, some, List, [], ◌∷◌, if◌then◌else◌, length, is_some,
}
use p2p_gossip_lb.Prelude.Int.{ℤ, pos, ltb_ℤ, eq_ℤ}
use p2p_gossip_lb.Prelude.Text.{Text, codes, text_eq, dec_text}
use p2p_gossip_lb.Prelude.Time.{Time, Duration}
use p2p_gossip_lb.GoMap
use p2p_gossip_lb.Cache.LruStore.{Lru}
use p2p_gossip_lb.Cache.Responses.{Entry, Response, build_entry}
use p2p_gossip_lb.Cache.{ResponseCache, store, lookup}
use p2p_gossip_lb.Registry.Store.{Store}
use p2p_gossip_lb.Selector.Floats.{Floats}
use p2p_gossip_lb.Selector.Filter.{Candidate, Config}
use p2p_gossip_lb.Selector.Pick.{Draws}
use p2p_gossip_lb.Selector.Request.{RequestContext}
use p2p_gossip_lb.Proxy.Http.{writable, Values, Request, Reply, add_value, set_value, itoa}
use p2p_gossip_lb.Proxy.Helpers.{Decoders}
use p2p_gossip_lb.Proxy.Outbound.{Outbound, sanitize_hop_headers}
use p2p_gossip_lb.Proxy.CacheKey.{cache_key, negative_cache_key, should_negative_cache}
use p2p_gossip_lb.Proxy.RateLimiter.{Rates, ClientRateLimiter}

-- The code that is not in the repository: `bucket` is the selector's `ipBucket` up to `net.IP`, and
-- `valid` is whether `http.NewRequestWithContext` takes a method and a host.
pub record Libraries : Type 1 where
  pub floats : Floats
  pub rates : Rates
  pub lru : Lru Entry
  pub std : Decoders
  pub bucket : Text → Text
  pub valid : Text → Text → Bool

module _ (lib : Libraries) where
  -- `cache` is nil where `cacheEnabled` is false: `New` sets both together.
  pub record Proxy : Type 0 where
    pub store : Store lib.floats.Float32
    pub selector_cfg : Config lib.floats
    pub allowed_chains : List Text
    pub cache : Option (ResponseCache lib.lru)
    pub cache_max_item : ℤ
    pub cache_ttl : Duration
    pub cache_infinite : Bool
    pub negative_cache_ttl : Duration
    pub rate_limiter : Option (ClientRateLimiter lib.rates)
    pub backend_scheme : Text
    pub edge_country : Text
    pub edge_region : Text

  -- What a request meets: the time, the random numbers of each attempt, `RoundTrip` with the read of
  -- the body, and `proxyWebsocket`.
  pub record World : Type 0 where
    pub now : Time
    pub draws : ℕ → Draws lib.floats.Float
    pub round_trip : ℕ → Outbound → Option (Response × Text)
    pub tunnel : ℕ → Candidate lib.floats → Bool

  -- What `ServeHTTP` does with a request. Where `proxyWebsocket` has failed, `websocket.Accept` has
  -- written its own response or has taken the connection over, and a reply of the proxy comes too late.
  pub data Answer : Type 0 where
    replied : Reply → Answer
    tunnelled : Candidate lib.floats → Answer
    left_to_websocket : Answer
    crashed : Answer

  abbrev add_all : Text → List Text → Values → Values
  add_all key [] header = header
  add_all key (v ∷ vs) header = add_all key vs (add_value key v header)

  -- the loop that copies a header to the writer's
  unfoldable pub copy_header : Values → Values → Values
  unfolding add_value
  copy_header [] header = header
  copy_header ((key, values) ∷ source) header = copy_header source (add_all key values header)

  abbrev pub cleaned : Values → Values
  unfolding sanitize_hop_headers GoMap.delete dec_text
  cleaned header = GoMap.delete dec_text (codes "Set-Cookie") (sanitize_hop_headers header)

  abbrev pub values_or_none : Option Values → Values
  values_or_none none = []
  values_or_none (some h) = h

  -- the entry with another header, where there is an entry
  abbrev with_header : Values → Option Entry → Option Entry
  with_header header none = none
  with_header header (some e) = some (record e { header = some header })

  -- What `writeUpstreamResponse` stores under the negative key, where the request is not cacheable or
  -- the status is not 200.
  unfoldable pub keep_negative :
      Proxy
      → Request
      → Response
      → Text
      → Values
      → Time
      → ResponseCache lib.lru
      → ResponseCache lib.lru
  keep_negative p r resp body header now c =
      let entry = with_header header (build_entry (some resp) body p.negative_cache_ttl now) in
      if ltb_ℤ (pos 0) p.negative_cache_ttl
        && eq_ℤ resp.status_code (pos 404)
        && should_negative_cache r
      then store lib.lru c (negative_cache_key r) entry
      else c

  -- What it does once the response is written. The key is there where the request is cacheable.
  unfoldable pub keep_response :
      Proxy
      → Request
      → Response
      → Text
      → Values
      → Option Text
      → Time
      → ResponseCache lib.lru
      → ResponseCache lib.lru
  keep_response p r resp body header none now c = keep_negative p r resp body header now c
  keep_response p r resp body header (some key) now c =
      let ttl : Duration = if p.cache_infinite then pos 0 else p.cache_ttl in
      let entry = with_header header (build_entry (some resp) body ttl now) in
      if eq_ℤ resp.status_code (pos 200)
      then if ltb_ℤ (pos 0) p.cache_max_item && ltb_ℤ p.cache_max_item (pos (length body))
        then c
        else store lib.lru c key entry
      else keep_negative p r resp body header now c

  abbrev map_cache :
      (ResponseCache lib.lru → ResponseCache lib.lru)
      → Option (ResponseCache lib.lru)
      → Option (ResponseCache lib.lru)
  map_cache f none = none
  map_cache f (some c) = some (f c)

  -- `writeUpstreamResponse`, with `none` for the panic of `WriteHeader`
  unfoldable pub write_upstream_response :
      Proxy
      → Request
      → Candidate lib.floats
      → Response
      → Text
      → Option Text
      → Time
      → Proxy × Option Reply
  write_upstream_response p r backend resp body key now =
      let header = cleaned (values_or_none resp.header) in
      let sized = set_value (codes "Content-Length") (itoa (length body)) (copy_header header []) in
      let named = set_value (codes "X-Mesh-Backend") backend.meta.id sized in
      let shown =
        if is_some key && is_some p.cache
        then set_value (codes "X-Mesh-Cache") (codes "miss") named
        else named in
      if writable resp.status_code
      then (
        record p { cache = map_cache (keep_response p r resp body header key now) p.cache },
        some (record { status = resp.status_code; header = shown; body = body }),
      )
      else (p, none)

  -- `shouldCacheRequest`: the key, where the request is cacheable
  unfoldable pub should_cache_request : Proxy → Request → RequestContext → Option Text
  should_cache_request p r ctx =
      if not (is_some p.cache)
      then none
      else if not (text_eq r.method (codes "GET"))
      then none
      else if not (is_some ctx.height)
      then none
      else some (cache_key r (codes "height"))

  unfoldable pub write_cached_response : Entry → Option Reply
  write_cached_response entry =
      let header = copy_header (sanitize_hop_headers (values_or_none entry.header)) [] in
      let hit = set_value (codes "X-Mesh-Cache") (codes "hit") header in
      let reply : Reply = record {
        status = entry.status;
        header = set_value (codes "Content-Length") (itoa (length entry.body)) hit;
        body = entry.body;
      } in
      if writable entry.status then some reply else none

  abbrev pub lookup_in : Proxy → Text → Time → Option (ResponseCache lib.lru) → Proxy × Option Entry
  lookup_in p key now none = (p, none)
  lookup_in p key now (some c) =
      let (c', found) = lookup lib.lru c key now in (record p { cache = some c' }, found)

  abbrev pub cached : Proxy → Option Text → Time → Proxy × Option Entry
  cached p none now = (p, none)
  cached p (some key) now = lookup_in p key now p.cache
