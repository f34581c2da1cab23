-- ===== src/Proxy/Serving.antt =====
-- pkg/proxy/proxy.go: `ServeHTTP`, `handleHTTP` and `handleWebsocket`. The network, the clock and the
-- random source of one request are arguments.
pub mod Sound
pub mod Ends
pub mod Safe
pub mod Tunnels
use p2p_gossip_lb.Prelude.{
  false, ℕ, Bool, true, not, ◌||◌, Option, none, some, List, [], ◌∷◌, if◌then◌else◌,
}
use p2p_gossip_lb.Prelude.Int.{pos}
use p2p_gossip_lb.Prelude.Text.{Text, codes, text_eq}
use p2p_gossip_lb.Prelude.Strings.{to_lower}
use p2p_gossip_lb.Prelude.Time.{Time}
use p2p_gossip_lb.Cache.Responses.{Entry, Response}
use p2p_gossip_lb.Selector.Filter.{Candidate, Environment}
use p2p_gossip_lb.Selector.Request.{RequestContext}
use p2p_gossip_lb.Proxy.Http.{Request, Reply, http_error}
use p2p_gossip_lb.Proxy.Helpers.{
  extract_chain, client_ip_from_request, is_websocket_request, build_request_context,
}
use p2p_gossip_lb.Proxy.Outbound.{build_outbound_request, read_request_body}
use p2p_gossip_lb.Proxy.RateLimiter.{ClientRateLimiter, allow}
use p2p_gossip_lb.Proxy.Routing.{
  Outcome, responded, unavailable, panicked, build_candidates, geo_penalty, handle, seen,
}
use p2p_gossip_lb.Proxy.Responses.{
  Libraries, Proxy, World, Answer, replied, tunnelled, left_to_websocket, crashed,
  write_upstream_response, should_cache_request, write_cached_response, cached,
}

module _ (lib : Libraries) where
  -- What `forwardRequest` does for one attempt.
  unfoldable pub forward_request :
      Proxy lib → World lib → Request → Text → ℕ → Candidate lib.floats → Option (Response × Text)
  forward_request p w original body attempt candidate =
      elim (build_outbound_request lib.valid original body candidate.meta.host p.backend_scheme) [
        | none ↦ none
        | some outbound ↦ w.round_trip attempt outbound
      ]

  -- what has become of a reply, by whether writing it has panicked
  abbrev pub written : Option Reply → Answer lib
  written none = crashed
  written (some reply) = replied reply

  unfoldable pub answer_with :
      Proxy lib
      → World lib
      → Request
      → Option Text
      → Outcome lib.floats (Response × Text)
      → Proxy lib × Answer lib
  answer_with p w r key (responded backend (resp, body)) =
      let (p', reply) = write_upstream_response lib p r backend resp body key w.now in
      (p', written reply)
  answer_with p w r key unavailable =
      (p, replied (http_error (pos 502) (codes "meshproxy: upstream unavailable")))
  answer_with p w r key panicked = (p, crashed)

  -- `handleHTTP` past the cache, once the body is read
  unfoldable pub answer_body :
      Proxy lib
      → World lib
      → Request
      → RequestContext
      → List (Candidate lib.floats)
      → Environment
      → Option Text
      → Option Text
      → Proxy lib × Answer lib
  answer_body p w r ctx pool env key none =
      (p, replied (http_error (pos 400) (codes "meshproxy: invalid request body")))
  answer_body p w r ctx pool env key (some body) =
      answer_with p w r key
        (handle lib.floats lib.bucket ctx env pool p.selector_cfg w.draws
          (forward_request p w r body)).0

  unfoldable pub no_backends : Reply
  no_backends = http_error (pos 503) (codes "meshproxy: no healthy backends")

  unfoldable pub pool_of : Proxy lib → Text → List (Candidate lib.floats) × Environment
  pool_of p chain =
      build_candidates lib.floats (geo_penalty lib.floats p.edge_country p.edge_region) p.store
        chain

  -- `handleHTTP` once the cache has been asked
  unfoldable pub answer_found :
      Proxy lib
      → World lib
      → Request
      → RequestContext
      → List (Candidate lib.floats)
      → Environment
      → Option Text
      → Option Entry
      → Proxy lib × Answer lib
  answer_found p w r ctx pool env key (some entry) = (p, written (write_cached_response lib entry))
  answer_found p w r ctx pool env key none =
      answer_body p w r ctx pool env key (read_request_body r.body)

  unfoldable pub from_pool :
      Proxy lib
      → World lib
      → Request
      → RequestContext
      → List (Candidate lib.floats) × Environment
      → Proxy lib × Answer lib
  from_pool p w r ctx ([], env) = (p, replied no_backends)
  from_pool p w r ctx (c ∷ cs, env) =
      let key = should_cache_request lib p r ctx in
      let (p', found) = cached lib p key w.now in answer_found p' w r ctx (c ∷ cs) env key found

  unfoldable pub handle_http :
      Proxy lib → World lib → Request → Text → RequestContext → Proxy lib × Answer lib
  handle_http p w r chain ctx = from_pool p w r ctx (pool_of p chain)

  unfoldable pub open_tunnel : World lib → ℕ → Candidate lib.floats → Option (Unit {0})
  open_tunnel w attempt candidate = if w.tunnel attempt candidate then some tt else none

  -- The outcome of the attempts, and the candidates that they went to.
  unfoldable pub tunnel_answer :
      Outcome lib.floats (Unit {0}) → List (Candidate lib.floats) → Answer lib
  tunnel_answer (responded backend _) tried = tunnelled backend
  tunnel_answer unavailable [] =
      replied (http_error (pos 502) (codes "meshproxy: websocket upstream unavailable"))
  tunnel_answer unavailable (c ∷ cs) = left_to_websocket
  tunnel_answer panicked tried = crashed

  unfoldable pub tunnel_pool :
      Proxy lib
      → World lib
      → RequestContext
      → List (Candidate lib.floats) × Environment
      → Answer lib
  tunnel_pool p w ctx ([], env) = replied no_backends
  tunnel_pool p w ctx (c ∷ cs, env) =
      let (outcome, tried) =
        handle lib.floats lib.bucket ctx env (c ∷ cs) p.selector_cfg w.draws (open_tunnel w) in
      tunnel_answer outcome tried

  unfoldable pub handle_websocket : Proxy lib → World lib → Text → RequestContext → Answer lib
  handle_websocket p w chain ctx = tunnel_pool p w ctx (pool_of p chain)

  unfoldable pub limit_in :
      Proxy lib → Text → Time → Option (ClientRateLimiter lib.rates) → Proxy lib × Bool
  limit_in p ip now none = (p, true)
  limit_in p ip now (some limiter) =
      let (limiter', allowed) = allow lib.rates limiter ip now in
      (record p { rate_limiter = some limiter' }, allowed)

  -- the rate limiter's part in `ServeHTTP`
  unfoldable pub limited : Proxy lib → Text → Time → Proxy lib × Bool
  limited p ip now = if text_eq ip [] then (p, true) else limit_in p ip now p.rate_limiter

  unfoldable pub permitted : Proxy lib → Text → Bool
  permitted p chain = elim p.allowed_chains [ [] ↦ true | c ∷ cs ↦ seen chain (c ∷ cs) ]

  -- `ServeHTTP` past the chain and the rate limiter, by whether the client may go on and whether it
  -- wants a websocket
  unfoldable pub serve_client :
      Proxy lib → World lib → Request → Text → Bool → Bool → Proxy lib × Answer lib
  serve_client p w r chain false need_ws =
      (p, replied (http_error (pos 429) (codes "meshproxy: rate limit exceeded")))
  serve_client p w r chain true true =
      (p, handle_websocket p w chain (build_request_context lib.std r chain true))
  serve_client p w r chain true false =
      handle_http p w r chain (build_request_context lib.std r chain false)

  -- `ServeHTTP` once the chain is known, by whether it is permitted
  unfoldable pub serve_chain :
      Proxy lib → World lib → Request → Text → Text → Bool → Proxy lib × Answer lib
  serve_chain p w r chain service false =
      (p, replied (http_error (pos 403) (codes "meshproxy: chain not permitted")))
  serve_chain p w r chain service true =
      let (p', allowed) = limited p (client_ip_from_request r) w.now in
      serve_client p' w r chain allowed
        (is_websocket_request r || text_eq (to_lower service) (codes "ws"))

  unfoldable pub serve_found :
      Proxy lib → World lib → Request → Option (Text × Text) → Proxy lib × Answer lib
  serve_found p w r none =
      (p, replied (http_error (pos 400) (codes "meshproxy: unable to determine chain")))
  serve_found p w r (some (chain, service)) = serve_chain p w r chain service (permitted p chain)

  unfoldable pub serve_http : Proxy lib → World lib → Request → Proxy lib × Answer lib
  serve_http p w r = serve_found p w r (extract_chain r)
