-- ===== src/Proxy/Setup/Fresh.antt =====
-- The proxy that `New` returns, and what it answers from its cache after any requests.
use p2p_gossip_lb.Prelude.{
  ◌≢◌, ℕ, ◌≡◌, ◌<◌, arith, Option, none, some, List, Bool-cases, inl, inr, refl, sym,
}
use p2p_gossip_lb.Prelude.Int.{ℤ, pos, ◌≤ℤ◌}
use p2p_gossip_lb.Prelude.Time.{Time}
use p2p_gossip_lb.Cache.Responses.{Entry, Response}
use p2p_gossip_lb.Cache.{new_response_cache}
use p2p_gossip_lb.Registry.Store.{Store}
use p2p_gossip_lb.Selector.Request.{RequestContext}
use p2p_gossip_lb.Proxy.Http.{Request}
use p2p_gossip_lb.Proxy.Responses.{Libraries, Proxy, World, crashed, should_cache_request, cached}
use p2p_gossip_lb.Proxy.Responses.Kept.{CacheSound, should_cache_request-KeyOf, cached-status}
use p2p_gossip_lb.Proxy.Serving.Sound.{served, served-CacheSound}
use p2p_gossip_lb.Prelude.Text.{Text}
use p2p_gossip_lb.Proxy.Outbound.{Outbound}
use p2p_gossip_lb.Proxy.Serving.{serve_http}
use p2p_gossip_lb.Proxy.Serving.Safe.{serve_http-Calm}
use p2p_gossip_lb.Proxy.Setup.{Config, cache_capacity, new_over, new, with_cache}

cache_capacity-pos : (max_bytes max_item : ℤ) → 0 < cache_capacity max_bytes max_item
unfolding cache_capacity
cache_capacity-pos max_bytes max_item = ground arith

module _ (lib : Libraries) where
  new_response_cache_lem :
      (capacity : ℕ) (max_bytes : ℤ)
      → 0 < capacity
      → new_response_cache lib.lru (pos capacity) max_bytes
        ≡ some
            (record { store = lib.lru.new capacity; max_bytes = max_bytes; current_bytes = pos 0 })
  unfolding new_response_cache
  new_response_cache_lem capacity max_bytes h = ground arith

  -- `New` fails for a nil store only.
  new_over-CacheSound :
      (cfg : Config lib) (store : Store lib.floats.Float32)
      → (p : Proxy lib) × (new_over lib cfg (some store) ≡ some p) × CacheSound lib p.cache
  unfolding new_over with_cache
  new_over-CacheSound cfg store = elim (Bool-cases cfg.cache_enabled) [
    | inr off ↦ (with_cache lib cfg store none, rw off refl, tt)
    | inl on ↦
        let capacity = cache_capacity cfg.cache_max_bytes cfg.cache_max_item_bytes in
        let fresh =
          new_response_cache_lem capacity cfg.cache_max_bytes
            (cache_capacity-pos cfg.cache_max_bytes cfg.cache_max_item_bytes) in
        (
          with_cache lib cfg store (
              some (record {
                store = lib.lru.new capacity;
                max_bytes = cfg.cache_max_bytes;
                current_bytes = pos 0;
              })),
          rw (on, fresh) refl,
          rw (lib.lru.entries-new capacity) tt,
        )
  ]

  new_over-some-CacheSound :
      (cfg : Config lib) (store : Option (Store lib.floats.Float32)) (p : Proxy lib)
      → new_over lib cfg store ≡ some p
      → CacheSound lib p.cache
  unfolding new_over
  new_over-some-CacheSound cfg none p h = cc
  new_over-some-CacheSound cfg (some store) p h =
      let (q, made, sound) = new_over-CacheSound cfg store in
      let same : q ≡ p = cc in rw (sym same) sound

  -- Whatever requests the proxy that `New` returns has served, a lookup under the key of a cacheable
  -- request finds no entry whose status is not 200: the responses with the status 404, which are
  -- stored as well, are never found.
  pub negative_never_served :
      (cfg : Config lib) (p : Proxy lib) (rs : List (World lib × Request)) (r : Request)
      (ctx : RequestContext) (now : Time) (entry : Entry)
      → new lib cfg ≡ some p
      → entry.status ≢ pos 200
      → (cached lib (served lib p rs) (should_cache_request lib (served lib p rs) r ctx) now).1
        ≢ some entry
  unfolding new
  negative_never_served cfg p rs r ctx now entry fresh other = λ hit.
      let p' = served lib p rs in
      other (
        cached-status lib p' r _ now entry (should_cache_request-KeyOf lib p' r ctx)
          (served-CacheSound lib p rs (new_over-some-CacheSound cfg cfg.store p fresh)) hit)

  -- The proxy that `New` returns, whatever requests it has served, handles a request without a panic,
  -- whatever is drawn and whatever the request is, if the statuses of the backends' responses to it are
  -- from 100 to 999.
  pub served_calm :
      (cfg : Config lib) (p : Proxy lib) (rs : List (World lib × Request)) (w : World lib)
      (r : Request)
      → new lib cfg ≡ some p
      → ((i : ℕ) (o : Outbound) (resp : Response) (body : Text)
          → w.round_trip i o ≡ some (resp, body)
          → (pos 100 ≤ℤ resp.status_code) × (resp.status_code ≤ℤ pos 999))
      → (serve_http lib (served lib p rs) w r).1 ≢ crashed
  unfolding new
  served_calm cfg p rs w r fresh lawful =
      serve_http-Calm lib (served lib p rs) w r lawful
        (served-CacheSound lib p rs (new_over-some-CacheSound cfg cfg.store p fresh))
