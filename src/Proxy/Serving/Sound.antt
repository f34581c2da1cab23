-- ===== src/Proxy/Serving/Sound.antt =====
-- Requests keep the response cache sound: each entry has the status that its key stands for.
use p2p_gossip_lb.Prelude.{
  false, true, Bool, ◌≡◌, refl, Option, none, some, List, [], ◌∷◌, Bool-cases, inl, inr,
}
use p2p_gossip_lb.Prelude.Text.{Text, text_eq}
use p2p_gossip_lb.Prelude.Time.{Time}
use p2p_gossip_lb.Cache.Responses.{Entry, Response}
use p2p_gossip_lb.Selector.Filter.{Candidate, Environment}
use p2p_gossip_lb.Selector.Request.{RequestContext}
use p2p_gossip_lb.Proxy.Http.{Request}
use p2p_gossip_lb.Proxy.Helpers.{extract_chain, client_ip_from_request}
use p2p_gossip_lb.Proxy.Outbound.{read_request_body}
use p2p_gossip_lb.Proxy.RateLimiter.{ClientRateLimiter}
use p2p_gossip_lb.Proxy.Routing.{Outcome, responded, unavailable, panicked}
use p2p_gossip_lb.Proxy.Responses.{Libraries, Proxy, World, should_cache_request, cached}
use p2p_gossip_lb.Proxy.Responses.Kept.{
  CacheSound, KeyOf, should_cache_request-KeyOf, write_upstream_response-CacheSound,
  cached-CacheSound,
}
use p2p_gossip_lb.Proxy.Serving.{
  serve_client, answer_with, answer_found, answer_body, serve_found, from_pool, handle_http,
  limit_in, limited, permitted, serve_chain, serve_http,
}

module _ (lib : Libraries) where
  answer_with-CacheSound :
      (p : Proxy lib) (w : World lib) (r : Request) (key : Option Text)
      (outcome : Outcome lib.floats (Response × Text))
      → KeyOf lib r key
      → CacheSound lib p.cache
      → CacheSound lib (answer_with lib p w r key outcome).0.cache
  unfolding answer_with
  answer_with-CacheSound p w r key (responded backend (resp, body)) k h =
      write_upstream_response-CacheSound lib p r backend resp body key w.now k h
  answer_with-CacheSound p w r key unavailable k h = h
  answer_with-CacheSound p w r key panicked k h = h

  answer_body-CacheSound :
      (p : Proxy lib) (w : World lib) (r : Request) (ctx : RequestContext)
      (pool : List (Candidate lib.floats)) (env : Environment) (key body : Option Text)
      → KeyOf lib r key
      → CacheSound lib p.cache
      → CacheSound lib (answer_body lib p w r ctx pool env key body).0.cache
  unfolding answer_body
  answer_body-CacheSound p w r ctx pool env key none k h = h
  answer_body-CacheSound p w r ctx pool env key (some body) k h =
      answer_with-CacheSound p w r key _ k h

  answer_found-CacheSound :
      (p : Proxy lib) (w : World lib) (r : Request) (ctx : RequestContext)
      (pool : List (Candidate lib.floats)) (env : Environment) (key : Option Text)
      (found : Option Entry)
      → KeyOf lib r key
      → CacheSound lib p.cache
      → CacheSound lib (answer_found lib p w r ctx pool env key found).0.cache
  unfolding answer_found
  answer_found-CacheSound p w r ctx pool env key (some entry) k h = h
  answer_found-CacheSound p w r ctx pool env key none k h =
      answer_body-CacheSound p w r ctx pool env key (read_request_body r.body) k h

  from_pool-CacheSound :
      (p : Proxy lib) (w : World lib) (r : Request) (ctx : RequestContext)
      (pool : List (Candidate lib.floats) × Environment)
      → CacheSound lib p.cache
      → CacheSound lib (from_pool lib p w r ctx pool).0.cache
  unfolding from_pool
  from_pool-CacheSound p w r ctx ([], env) h = h
  from_pool-CacheSound p w r ctx (c ∷ cs, env) h =
      let key = should_cache_request lib p r ctx in
      let (p', found) = cached lib p key w.now in
      answer_found-CacheSound p' w r ctx (c ∷ cs) env key found
        (should_cache_request-KeyOf lib p r ctx) (cached-CacheSound lib p key w.now h)

  limit_in-cache :
      (p : Proxy lib) (ip : Text) (now : Time) (o : Option (ClientRateLimiter lib.rates))
      → (limit_in lib p ip now o).0.cache ≡ p.cache
  unfolding limit_in
  limit_in-cache p ip now none = refl
  limit_in-cache p ip now (some limiter) = refl

  pub limited-cache :
      (p : Proxy lib) (ip : Text) (now : Time) → (limited lib p ip now).0.cache ≡ p.cache
  unfolding limited
  limited-cache p ip now = elim (Bool-cases (text_eq ip [])) [
    | inl unknown ↦ rw unknown refl
    | inr known ↦ rw known (limit_in-cache p ip now p.rate_limiter)
  ]

  serve_client-CacheSound :
      (p : Proxy lib) (w : World lib) (r : Request) (chain : Text) (allowed need_ws : Bool)
      → CacheSound lib p.cache
      → CacheSound lib (serve_client lib p w r chain allowed need_ws).0.cache
  unfolding serve_client handle_http
  serve_client-CacheSound p w r chain false need_ws h = h
  serve_client-CacheSound p w r chain true true h = h
  serve_client-CacheSound p w r chain true false h = from_pool-CacheSound p w r _ _ h

  serve_chain-CacheSound :
      (p : Proxy lib) (w : World lib) (r : Request) (chain service : Text) (ok : Bool)
      → CacheSound lib p.cache
      → CacheSound lib (serve_chain lib p w r chain service ok).0.cache
  unfolding serve_chain
  serve_chain-CacheSound p w r chain service false h = h
  serve_chain-CacheSound p w r chain service true h =
      let ip = client_ip_from_request r in
      serve_client-CacheSound (limited lib p ip w.now).0 w r chain _ _
        (rw (limited-cache p ip w.now) h)

  serve_found-CacheSound :
      (p : Proxy lib) (w : World lib) (r : Request) (found : Option (Text × Text))
      → CacheSound lib p.cache
      → CacheSound lib (serve_found lib p w r found).0.cache
  unfolding serve_found
  serve_found-CacheSound p w r none h = h
  serve_found-CacheSound p w r (some (chain, service)) h =
      serve_chain-CacheSound p w r chain service (permitted lib p chain) h

  pub serve_http-CacheSound :
      (p : Proxy lib) (w : World lib) (r : Request)
      → CacheSound lib p.cache
      → CacheSound lib (serve_http lib p w r).0.cache
  unfolding serve_http
  serve_http-CacheSound p w r h = serve_found-CacheSound p w r (extract_chain r) h

  -- the proxy after a sequence of requests
  abbrev pub served : Proxy lib → List (World lib × Request) → Proxy lib
  served p [] = p
  served p ((w, r) ∷ rs) = served (serve_http lib p w r).0 rs

  pub served-CacheSound :
      (p : Proxy lib) (rs : List (World lib × Request))
      → CacheSound lib p.cache
      → CacheSound lib (served p rs).cache
  served-CacheSound p [] h = h
  served-CacheSound p ((w, r) ∷ rs) h =
      served-CacheSound (serve_http lib p w r).0 rs (serve_http-CacheSound p w r h)
