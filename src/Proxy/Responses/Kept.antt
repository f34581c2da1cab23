-- ===== src/Proxy/Responses/Kept.antt =====
-- What the response cache of the proxy holds: responses with the status 200 under the keys of
-- requests, and responses with the status 404 under their negative keys.
use p2p_gossip_lb.Prelude.{
  ◌≡◌, ◌⊎◌, inl, inr, refl, sym, ◌∙◌, Option, none, some, arith, Bool-cases, is_some, ◌&&◌, length,
}
use p2p_gossip_lb.Prelude.Int.{pos, eq_ℤ, ltb_ℤ}
use p2p_gossip_lb.Prelude.Text.{Text, codes, text_eq}
use p2p_gossip_lb.Prelude.Time.{Time}
use p2p_gossip_lb.Cache.Responses.{Entry, Response, clone, build_entry}
use p2p_gossip_lb.Cache.{ResponseCache}
use p2p_gossip_lb.Cache.Contents.{Holds, store-Holds, lookup-Holds, lookup_hit}
use p2p_gossip_lb.Selector.Filter.{Candidate}
use p2p_gossip_lb.Selector.Request.{RequestContext}
use p2p_gossip_lb.Proxy.Http.{writable, Values, Request}
use p2p_gossip_lb.Proxy.CacheKey.{cache_key, negative_cache_key, should_negative_cache}
use p2p_gossip_lb.Proxy.CacheKey.Apart.{cache_key-negative_cache_key}
use p2p_gossip_lb.Proxy.Responses.{
  Libraries, Proxy, keep_response, keep_negative, write_upstream_response, should_cache_request,
  cached, lookup_in, map_cache,
}

abbrev pub Stored : Text × Entry → Type 0
Stored (key, e) =
    ((r : Request) × (key ≡ cache_key r (codes "height")) × (e.status ≡ pos 200))
    ⊎ ((r : Request) × (key ≡ negative_cache_key r) × (e.status ≡ pos 404))

module _ (lib : Libraries) where
  abbrev pub CacheSound : Option (ResponseCache lib.lru) → Type 0
  CacheSound none = Unit
  CacheSound (some c) = Holds lib.lru Stored c

  -- the key of the request, where there is a key
  abbrev pub KeyOf : Request → Option Text → Type 0
  KeyOf r none = Unit
  KeyOf r (some key) = key ≡ cache_key r (codes "height")

  pub should_cache_request-KeyOf :
      (p : Proxy lib) (r : Request) (ctx : RequestContext)
      → KeyOf r (should_cache_request lib p r ctx)
  unfolding should_cache_request
  should_cache_request-KeyOf p r ctx = elim (Bool-cases (is_some p.cache)) [
    | inr off ↦ rw off tt
    | inl on ↦ elim (Bool-cases (text_eq r.method (codes "GET"))) [
      | inr other ↦ rw (on, other) tt
      | inl same ↦ elim (Bool-cases (is_some ctx.height)) [
        | inr latest ↦ rw (on, same, latest) tt
        | inl height ↦ rw (on, same, height) refl
      ]
    ]
  ]

  keep_negative-Holds :
      (p : Proxy lib) (r : Request) (resp : Response) (body : Text) (header : Values) (now : Time)
      (c : ResponseCache lib.lru)
      → Holds lib.lru Stored c
      → Holds lib.lru Stored (keep_negative lib p r resp body header now c)
  unfolding keep_negative build_entry
  keep_negative-Holds p r resp body header now c h =
      elim (Bool-cases (
        ltb_ℤ (pos 0) p.negative_cache_ttl
        && eq_ℤ resp.status_code (pos 404)
        && should_negative_cache r)) [
          | inr skip ↦ rw skip h
          | inl keep ↦ rw keep (
              store-Holds lib.lru Stored c (negative_cache_key r) _ h (inr (r, refl, ground arith)))
        ]

  keep_response-Holds :
      (p : Proxy lib) (r : Request) (resp : Response) (body : Text) (header : Values)
      (key : Option Text) (now : Time) (c : ResponseCache lib.lru)
      → KeyOf r key
      → Holds lib.lru Stored c
      → Holds lib.lru Stored (keep_response lib p r resp body header key now c)
  unfolding keep_response build_entry
  keep_response-Holds p r resp body header none now c k h =
      keep_negative-Holds p r resp body header now c h
  keep_response-Holds p r resp body header (some key) now c k h =
      elim (Bool-cases (eq_ℤ resp.status_code (pos 200))) [
        | inr other ↦ rw other (keep_negative-Holds p r resp body header now c h)
        | inl ok ↦
            elim (Bool-cases
              (ltb_ℤ (pos 0) p.cache_max_item && ltb_ℤ p.cache_max_item (pos (length body)))) [
                | inl big ↦ rw (ok, big) h
                | inr fits ↦
                    rw (ok, fits) (store-Holds lib.lru Stored c key _ h (inl (r, k, ground arith)))
              ]
      ]

  map_cache-CacheSound :
      (f : ResponseCache lib.lru → ResponseCache lib.lru)
      → ((c : ResponseCache lib.lru) → Holds lib.lru Stored c → Holds lib.lru Stored (f c))
      → (o : Option (ResponseCache lib.lru)) → CacheSound o
      → CacheSound (map_cache lib f o)
  map_cache-CacheSound f keeps none h = tt
  map_cache-CacheSound f keeps (some c) h = keeps c h

  pub write_upstream_response-CacheSound :
      (p : Proxy lib) (r : Request) (backend : Candidate lib.floats) (resp : Response) (body : Text)
      (key : Option Text) (now : Time)
      → KeyOf r key
      → CacheSound p.cache
      → CacheSound (write_upstream_response lib p r backend resp body key now).0.cache
  unfolding write_upstream_response
  write_upstream_response-CacheSound p r backend resp body key now k h =
      elim (Bool-cases (writable resp.status_code)) [
        | inr odd ↦ rw odd h
        | inl good ↦ rw good (
            map_cache-CacheSound _ (λ c. keep_response-Holds p r resp body _ key now c k) p.cache h)
      ]

  lookup_in-CacheSound :
      (p : Proxy lib) (key : Text) (now : Time) (o : Option (ResponseCache lib.lru))
      → CacheSound p.cache
      → CacheSound o
      → CacheSound (lookup_in lib p key now o).0.cache
  lookup_in-CacheSound p key now none h k = h
  lookup_in-CacheSound p key now (some c) h k = lookup-Holds lib.lru Stored c key now k

  pub cached-CacheSound :
      (p : Proxy lib) (key : Option Text) (now : Time)
      → CacheSound p.cache
      → CacheSound (cached lib p key now).0.cache
  cached-CacheSound p none now h = h
  cached-CacheSound p (some key) now h = lookup_in-CacheSound p key now p.cache h h

  lookup_in-status :
      (p : Proxy lib) (r : Request) (key : Text) (now : Time) (o : Option (ResponseCache lib.lru))
      (found : Entry)
      → key ≡ cache_key r (codes "height")
      → CacheSound o
      → (lookup_in lib p key now o).1 ≡ some found
      → found.status ≡ pos 200
  unfolding clone
  lookup_in-status p r key now none found k h e = cc
  lookup_in-status p r key now (some c) found k h e =
      let (x, same, kept) = lookup_hit lib.lru Stored c key now found h e in
      elim kept [
        | inl (r', _, ok) ↦ cc
        | inr (r', negative, _) ↦ absurd (cache_key-negative_cache_key r r' (sym k ∙ negative))
      ]

  -- What is found under the key of a request has the status 200.
  pub cached-status :
      (p : Proxy lib) (r : Request) (key : Option Text) (now : Time) (found : Entry)
      → KeyOf r key
      → CacheSound p.cache
      → (cached lib p key now).1 ≡ some found
      → found.status ≡ pos 200
  cached-status p r none now found k h e = cc
  cached-status p r (some key) now found k h e = lookup_in-status p r key now p.cache found k h e
