-- ===== src/Proxy/Serving/Tunnels.antt =====
-- A tunnel ends at a backend that the registry shows for the chain of the request.
use p2p_gossip_lb.Prelude.{
  ◌∙◌, Bool-cases, In, ◌⊎◌, arith, sym, false, true, Bool, ◌≡◌, refl, Option, none, some, List, [],
  ◌∷◌,
}
use p2p_gossip_lb.Prelude.Text.{text_eq, codes, dec_text, Text}
use p2p_gossip_lb.Selector.Filter.{flag, Candidate, Environment}
use p2p_gossip_lb.Selector.Request.{capability_for_request, RequestContext}
use p2p_gossip_lb.GoMap
use p2p_gossip_lb.Crdt.LwwMap
use p2p_gossip_lb.Proxy.Routing.Pool.{build_candidates-Offered}
use p2p_gossip_lb.Proxy.Http.{Request}
use p2p_gossip_lb.Proxy.Helpers.{build_request_context, client_ip_from_request, extract_chain}
use p2p_gossip_lb.Proxy.Routing.{seen, geo_penalty, Outcome, responded, unavailable, panicked}
use p2p_gossip_lb.Proxy.Routing.Attempts.{handle_responded-Admissible, Admissible}
use p2p_gossip_lb.Proxy.Responses.{tunnelled, Libraries, Proxy, World}
use p2p_gossip_lb.Proxy.Serving.{
  ClientRateLimiter, Time, limit_in, to_lower, limited, permitted, pool_of, handle_http,
  handle_websocket, tunnel_pool, tunnel_answer, open_tunnel, serve_client, serve_chain, serve_found,
  serve_http,
}
use mathlib.Core.Path.{subst}
use p2p_gossip_lb.Prelude.{inl, inr}
use p2p_gossip_lb.Registry.Store.{Store}
use p2p_gossip_lb.Proxy.Serving.Ends.{from_pool-Ended, written-tunnelled}

-- `permitted` by the list of chains
abbrev permits : Text → List Text → Bool
permits chain cs = elim cs [ [] ↦ true | c ∷ cs ↦ seen chain (c ∷ cs) ]

In-seen : (id : Text) (ids : List Text) → seen id ids ≡ true → In id ids
unfolding seen
In-seen id [] h = cc
In-seen id (t ∷ ids) h = ground (arith, In-seen id ids)

permits-In : (chain : Text) (cs : List Text) → permits chain cs ≡ true → (cs ≡ []) ⊎ In chain cs
permits-In chain [] h = inl refl
permits-In chain (c ∷ cs) h = inr (In-seen chain (c ∷ cs) h)

module _ (lib : Libraries) where
  -- A backend that the registry shows for a chain, that offers websockets and whose health is ok.
  pub record ServesWs (s : Store lib.floats.Float32) (chain : Text) (c : Candidate lib.floats)
      : Type 0 where
    pub id : Text
    pub shown : LwwMap.get dec_text s.meta id ≡ some c.meta
    pub right_chain : c.meta.chain_id ≡ chain
    pub offers_ws : flag (GoMap.get dec_text (codes "ws") c.meta.caps) ≡ true
    pub healthy : to_lower c.metrics.health ≡ codes "ok"

  tunnel_answer_lem :
      (outcome : Outcome lib.floats (Unit {0})) (tried : List (Candidate lib.floats))
      (c : Candidate lib.floats)
      → tunnel_answer lib outcome tried ≡ tunnelled c
      → outcome ≡ responded c tt
  unfolding tunnel_answer
  tunnel_answer_lem (responded backend x) tried c h = cc
  tunnel_answer_lem unavailable [] c h = cc
  tunnel_answer_lem unavailable (x ∷ xs) c h = cc
  tunnel_answer_lem panicked tried c h = cc

  tunnel_pool-Admissible :
      (p : Proxy lib) (w : World lib) (ctx : RequestContext)
      (pool : List (Candidate lib.floats) × Environment) (c : Candidate lib.floats)
      → tunnel_pool lib p w ctx pool ≡ tunnelled c
      → Admissible lib.floats lib.bucket ctx pool.1 pool.0 p.selector_cfg c
  unfolding tunnel_pool
  tunnel_pool-Admissible p w ctx ([], env) c h = cc
  tunnel_pool-Admissible p w ctx (x ∷ xs, env) c h =
      handle_responded-Admissible lib.floats lib.bucket ctx env (x ∷ xs) p.selector_cfg w.draws
        (open_tunnel lib w) c tt (tunnel_answer_lem _ _ c h)

  handle_websocket-ServesWs :
      (p : Proxy lib) (w : World lib) (chain : Text) (ctx : RequestContext)
      (c : Candidate lib.floats)
      → GoMap.IsMap dec_text p.store.meta.items
      → ctx.need_ws ≡ true
      → handle_websocket lib p w chain ctx ≡ tunnelled c
      → ServesWs p.store chain c
  unfolding handle_websocket pool_of capability_for_request
  handle_websocket-ServesWs p w chain ctx c distinct ws h =
      let penalty = geo_penalty lib.floats p.edge_country p.edge_region in
      let good = tunnel_pool-Admissible p w ctx _ c h in
      let offered =
        build_candidates-Offered lib.floats penalty p.store chain good.origin distinct
          good.pooled in
      record {
        id = offered.id;
        shown = rw good.same_meta offered.shown;
        right_chain = rw good.same_meta offered.right_chain;
        offers_ws = rw good.same_meta (rw ws at good.eligible.has_capability);
        healthy = rw good.same_metrics good.eligible.healthy;
      }

  serve_client-ServesWs :
      (p : Proxy lib) (w : World lib) (r : Request) (chain : Text) (allowed need_ws : Bool)
      (c : Candidate lib.floats)
      → GoMap.IsMap dec_text p.store.meta.items
      → (serve_client lib p w r chain allowed need_ws).1 ≡ tunnelled c
      → ServesWs p.store chain c
  unfolding serve_client handle_http build_request_context
  serve_client-ServesWs p w r chain false need_ws c distinct h = cc
  serve_client-ServesWs p w r chain true true c distinct h =
      handle_websocket-ServesWs p w chain (build_request_context lib.std r chain true) c distinct
        refl h
  serve_client-ServesWs p w r chain true false c distinct h =
      let (reply, e) = from_pool-Ended lib p w r _ _ in
      absurd (written-tunnelled lib reply c (sym e ∙ h))

  limit_in-store :
      (p : Proxy lib) (ip : Text) (now : Time) (o : Option (ClientRateLimiter lib.rates))
      → (limit_in lib p ip now o).0.store ≡ p.store
  unfolding limit_in
  limit_in-store p ip now none = refl
  limit_in-store p ip now (some limiter) = refl

  limited-store :
      (p : Proxy lib) (ip : Text) (now : Time) → (limited lib p ip now).0.store ≡ p.store
  unfolding limited
  limited-store p ip now = elim (Bool-cases (text_eq ip [])) [
    | inl unknown ↦ rw unknown refl
    | inr known ↦ rw known (limit_in-store p ip now p.rate_limiter)
  ]

  serve_chain-ServesWs :
      (p : Proxy lib) (w : World lib) (r : Request) (chain service : Text) (ok : Bool)
      (c : Candidate lib.floats)
      → GoMap.IsMap dec_text p.store.meta.items
      → (serve_chain lib p w r chain service ok).1 ≡ tunnelled c
      → (ok ≡ true) × ServesWs p.store chain c
  unfolding serve_chain
  serve_chain-ServesWs p w r chain service false c distinct h = cc
  serve_chain-ServesWs p w r chain service true c distinct h =
      let p' = (limited lib p (client_ip_from_request r) w.now).0 in
      let same : p'.store ≡ p.store = limited-store p (client_ip_from_request r) w.now in
      (
        refl,
        subst (λ s. ServesWs s chain c) same
            (serve_client-ServesWs p' w r chain _ _ c (rw same distinct) h),
      )

  serve_found-ServesWs :
      (p : Proxy lib) (w : World lib) (r : Request) (found : Option (Text × Text))
      (c : Candidate lib.floats)
      → GoMap.IsMap dec_text p.store.meta.items
      → (serve_found lib p w r found).1 ≡ tunnelled c
      → (chain : Text) × (service : Text) × (found ≡ some (chain, service))
        × (permitted lib p chain ≡ true)
        × ServesWs p.store chain c
  unfolding serve_found
  serve_found-ServesWs p w r none c distinct h = cc
  serve_found-ServesWs p w r (some (chain, service)) c distinct h =
      let (ok, good) =
        serve_chain-ServesWs p w r chain service (permitted lib p chain) c distinct h in
      (chain, service, refl, ok, good)

  -- a chain that is permitted is listed, if any is
  permitted-In :
      (p : Proxy lib) (chain : Text)
      → permitted lib p chain ≡ true
      → (p.allowed_chains ≡ []) ⊎ In chain p.allowed_chains
  unfolding permitted
  permitted-In p chain h = permits-In chain p.allowed_chains h

  -- If `ServeHTTP` opens a tunnel, from a registry in which no backend ID stands twice, then the
  -- request names a chain, that chain is among those of the configuration, if it lists any, and the tunnel ends at a backend that the
  -- registry shows for that chain, that offers websockets and whose health is ok.
  pub tunnelled_lem :
      (p : Proxy lib) (w : World lib) (r : Request) (c : Candidate lib.floats)
      → GoMap.IsMap dec_text p.store.meta.items
      → (serve_http lib p w r).1 ≡ tunnelled c
      → (chain : Text) × (service : Text) × (extract_chain r ≡ some (chain, service))
        × ((p.allowed_chains ≡ []) ⊎ In chain p.allowed_chains)
        × ServesWs p.store chain c
  unfolding serve_http
  tunnelled_lem p w r c distinct h =
      let (chain, service, named, ok, good) =
        serve_found-ServesWs p w r (extract_chain r) c distinct h in
      (chain, service, named, permitted-In p chain ok, good)
