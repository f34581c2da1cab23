-- ===== src/Proxy/Serving/Safe.antt =====
-- No request brings the proxy down.
use p2p_gossip_lb.Prelude.{
  ℕ, arith, false, true, Bool, ◌≡◌, ◌≢◌, refl, Option, none, some, List, [], ◌∷◌,
}
use p2p_gossip_lb.Prelude.Int.{ℤ, pos, ◌≤ℤ◌}
use p2p_gossip_lb.Prelude.Text.{Text}
use p2p_gossip_lb.Prelude.Time.{Time}
use p2p_gossip_lb.Cache.Responses.{Entry, Response}
use p2p_gossip_lb.Selector.Filter.{Candidate, Environment}
use p2p_gossip_lb.Selector.Request.{RequestContext}
use p2p_gossip_lb.Proxy.Http.{Request, writable}
use p2p_gossip_lb.Proxy.Helpers.{client_ip_from_request, extract_chain}
use p2p_gossip_lb.Proxy.Outbound.{Outbound, read_request_body}
use p2p_gossip_lb.Proxy.Routing.{Outcome, responded, unavailable, panicked}
use p2p_gossip_lb.Proxy.Routing.Attempts.{handle_lem, handle_forwarded}
use p2p_gossip_lb.Proxy.Responses.{
  write_upstream_response, write_cached_response, Libraries, Proxy, World, Answer, crashed,
  should_cache_request, cached,
}
use p2p_gossip_lb.Proxy.Responses.Kept.{CacheSound, should_cache_request-KeyOf, cached-status}
use p2p_gossip_lb.Proxy.Serving.Sound.{limited-cache}
use p2p_gossip_lb.Proxy.Serving.{
  written, forward_request, limited, permitted, answer_with, answer_found, answer_body, from_pool,
  handle_http, handle_websocket, tunnel_pool, tunnel_answer, open_tunnel, serve_client, serve_chain,
  serve_found, serve_http,
}

module _ (lib : Libraries) where
  -- The round trips of a world give statuses of three digits.
  abbrev pub Lawful : World lib → Type 0
  Lawful w =
      (i : ℕ) (o : Outbound) (resp : Response) (body : Text)
      → w.round_trip i o ≡ some (resp, body)
      → (pos 100 ≤ℤ resp.status_code) × (resp.status_code ≤ℤ pos 999)

  abbrev Calm : Proxy lib × Answer lib → Type 0
  Calm (p, answer) = answer ≢ crashed

  three_digits-writable :
      (status : ℤ) → pos 100 ≤ℤ status → status ≤ℤ pos 999 → writable status ≡ true
  unfolding writable
  three_digits-writable status h k = ground (arith, h, k)

  written-sent :
      (p : Proxy lib) (r : Request) (backend : Candidate lib.floats) (resp : Response) (body : Text)
      (key : Option Text) (now : Time)
      → writable resp.status_code ≡ true
      → written lib (write_upstream_response lib p r backend resp body key now).1 ≢ crashed
  unfolding write_upstream_response
  written-sent p r backend resp body key now good = rw good (λ e. cc)

  written-cached :
      (entry : Entry)
      → writable entry.status ≡ true
      → written lib (write_cached_response lib entry) ≢ crashed
  unfolding write_cached_response
  written-cached entry good = rw good (λ e. cc)

  sent-writable :
      (w : World lib) (i : ℕ) (o : Option Outbound) (resp : Response) (body : Text)
      → Lawful w
      → elim o [ none ↦ none | some outbound ↦ w.round_trip i outbound ] ≡ some (resp, body)
      → writable resp.status_code ≡ true
  sent-writable w i none resp body lawful h = cc
  sent-writable w i (some o) resp body lawful h =
      let (low, high) = lawful i o resp body h in three_digits-writable resp.status_code low high

  forward_request-writable :
      (p : Proxy lib) (w : World lib) (r : Request) (data' : Text) (i : ℕ)
      (c : Candidate lib.floats) (resp : Response) (body : Text)
      → Lawful w
      → forward_request lib p w r data' i c ≡ some (resp, body)
      → writable resp.status_code ≡ true
  unfolding forward_request
  forward_request-writable p w r data' i c resp body lawful h =
      sent-writable w i _ resp body lawful h

  answer_with-Calm :
      (p : Proxy lib) (w : World lib) (r : Request) (key : Option Text)
      (outcome : Outcome lib.floats (Response × Text))
      → outcome ≢ panicked
      → ((c : Candidate lib.floats) (resp : Response) (body : Text)
          → outcome ≡ responded c (resp, body)
          → writable resp.status_code ≡ true)
      → Calm (answer_with lib p w r key outcome)
  unfolding answer_with
  answer_with-Calm p w r key (responded backend (resp, body)) h good =
      written-sent p r backend resp body key w.now (good backend resp body refl)
  answer_with-Calm p w r key unavailable h good = λ e. cc
  answer_with-Calm p w r key panicked h good = absurd (h refl)

  answer_body-Calm :
      (p : Proxy lib) (w : World lib) (r : Request) (ctx : RequestContext)
      (pool : List (Candidate lib.floats)) (env : Environment) (key body : Option Text)
      → Lawful w
      → Calm (answer_body lib p w r ctx pool env key body)
  unfolding answer_body
  answer_body-Calm p w r ctx pool env key none lawful = λ e. cc
  answer_body-Calm p w r ctx pool env key (some body) lawful =
      answer_with-Calm p w r key _
        (handle_lem lib.floats lib.bucket ctx env pool p.selector_cfg w.draws _).0
        (λ c resp reply e.
          let (i, sent) =
            handle_forwarded lib.floats lib.bucket ctx env pool p.selector_cfg w.draws
              (forward_request lib p w r body) c (resp, reply) e in
          forward_request-writable p w r body i c resp reply lawful sent)

  answer_found-Calm :
      (p : Proxy lib) (w : World lib) (r : Request) (ctx : RequestContext)
      (pool : List (Candidate lib.floats)) (env : Environment) (key : Option Text)
      (found : Option Entry)
      → Lawful w
      → ((entry : Entry) → found ≡ some entry → entry.status ≡ pos 200)
      → Calm (answer_found lib p w r ctx pool env key found)
  unfolding answer_found
  answer_found-Calm p w r ctx pool env key (some entry) lawful ok = written-cached entry (
      three_digits-writable entry.status (rw (ok entry refl) (omega arith))
        (rw (ok entry refl) (omega arith)))
  answer_found-Calm p w r ctx pool env key none lawful ok =
      answer_body-Calm p w r ctx pool env key (read_request_body r.body) lawful

  from_pool-Calm :
      (p : Proxy lib) (w : World lib) (r : Request) (ctx : RequestContext)
      (pool : List (Candidate lib.floats) × Environment)
      → Lawful w
      → CacheSound lib p.cache
      → Calm (from_pool lib p w r ctx pool)
  unfolding from_pool
  from_pool-Calm p w r ctx ([], env) lawful sound = λ e. cc
  from_pool-Calm p w r ctx (c ∷ cs, env) lawful sound =
      let key = should_cache_request lib p r ctx in
      let (p', found) = cached lib p key w.now in
      answer_found-Calm p' w r ctx (c ∷ cs) env key found lawful (λ entry hit.
        cached-status lib p r key w.now entry (should_cache_request-KeyOf lib p r ctx) sound hit)

  tunnel_answer-calm :
      (outcome : Outcome lib.floats (Unit {0})) (tried : List (Candidate lib.floats))
      → outcome ≢ panicked
      → tunnel_answer lib outcome tried ≢ crashed
  unfolding tunnel_answer
  tunnel_answer-calm (responded backend x) tried h = λ e. cc
  tunnel_answer-calm unavailable [] h = λ e. cc
  tunnel_answer-calm unavailable (c ∷ cs) h = λ e. cc
  tunnel_answer-calm panicked tried h = absurd (h refl)

  tunnel_pool-calm :
      (p : Proxy lib) (w : World lib) (ctx : RequestContext)
      (pool : List (Candidate lib.floats) × Environment)
      → tunnel_pool lib p w ctx pool ≢ crashed
  unfolding tunnel_pool
  tunnel_pool-calm p w ctx ([], env) = λ e. cc
  tunnel_pool-calm p w ctx (c ∷ cs, env) =
      tunnel_answer-calm _ _
        (handle_lem lib.floats lib.bucket ctx env (c ∷ cs) p.selector_cfg w.draws
          (open_tunnel lib w)).0

  serve_client-Calm :
      (p : Proxy lib) (w : World lib) (r : Request) (chain : Text) (allowed need_ws : Bool)
      → Lawful w
      → CacheSound lib p.cache
      → Calm (serve_client lib p w r chain allowed need_ws)
  unfolding serve_client handle_http handle_websocket
  serve_client-Calm p w r chain false need_ws lawful sound = λ e. cc
  serve_client-Calm p w r chain true true lawful sound = tunnel_pool-calm p w _ _
  serve_client-Calm p w r chain true false lawful sound = from_pool-Calm p w r _ _ lawful sound

  serve_chain-Calm :
      (p : Proxy lib) (w : World lib) (r : Request) (chain service : Text) (ok : Bool)
      → Lawful w
      → CacheSound lib p.cache
      → Calm (serve_chain lib p w r chain service ok)
  unfolding serve_chain
  serve_chain-Calm p w r chain service false lawful sound = λ e. cc
  serve_chain-Calm p w r chain service true lawful sound =
      let ip = client_ip_from_request r in
      serve_client-Calm (limited lib p ip w.now).0 w r chain _ _ lawful
        (rw (limited-cache lib p ip w.now) sound)

  serve_found-Calm :
      (p : Proxy lib) (w : World lib) (r : Request) (found : Option (Text × Text))
      → Lawful w
      → CacheSound lib p.cache
      → Calm (serve_found lib p w r found)
  unfolding serve_found
  serve_found-Calm p w r none lawful sound = λ e. cc
  serve_found-Calm p w r (some (chain, service)) lawful sound =
      serve_chain-Calm p w r chain service (permitted lib p chain) lawful sound

  -- A proxy whose cache is sound answers without a panic, in a world with lawful statuses.
  pub serve_http-Calm :
      (p : Proxy lib) (w : World lib) (r : Request)
      → Lawful w
      → CacheSound lib p.cache
      → Calm (serve_http lib p w r)
  unfolding serve_http
  serve_http-Calm p w r lawful sound = serve_found-Calm p w r (extract_chain r) lawful sound
