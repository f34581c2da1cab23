-- ===== src/Proxy/Serving/Ends.antt =====
-- How `handleHTTP` ends: with a reply or a panic, and never with a tunnel.
use p2p_gossip_lb.Prelude.{◌≡◌, ◌≢◌, refl, Option, none, some, List, [], ◌∷◌}
use p2p_gossip_lb.Prelude.Text.{Text}
use p2p_gossip_lb.Cache.Responses.{Entry, Response}
use p2p_gossip_lb.Selector.Filter.{Candidate, Environment}
use p2p_gossip_lb.Selector.Request.{RequestContext}
use p2p_gossip_lb.Proxy.Http.{Request, Reply}
use p2p_gossip_lb.Proxy.Outbound.{read_request_body}
use p2p_gossip_lb.Proxy.Routing.{Outcome, responded, unavailable, panicked}
use p2p_gossip_lb.Proxy.Responses.{
  tunnelled, Libraries, Proxy, World, Answer, should_cache_request, cached,
}
use p2p_gossip_lb.Proxy.Serving.{written, answer_with, answer_found, answer_body, from_pool}

module _ (lib : Libraries) where
  -- a request that `handleHTTP` is given ends with a reply, or a panic
  abbrev Ended : Proxy lib × Answer lib → Type 0
  Ended (p, answer) = (reply : Option Reply) × (answer ≡ written lib reply)

  pub written-tunnelled :
      (reply : Option Reply) (c : Candidate lib.floats) → written lib reply ≢ tunnelled c
  written-tunnelled none c = λ e. cc
  written-tunnelled (some reply) c = λ e. cc

  answer_with-Ended :
      (p : Proxy lib) (w : World lib) (r : Request) (key : Option Text)
      (outcome : Outcome lib.floats (Response × Text))
      → Ended (answer_with lib p w r key outcome)
  unfolding answer_with
  answer_with-Ended p w r key (responded backend (resp, body)) = (_, refl)
  answer_with-Ended p w r key unavailable = (some _, refl)
  answer_with-Ended p w r key panicked = (none, refl)

  answer_found-Ended :
      (p : Proxy lib) (w : World lib) (r : Request) (ctx : RequestContext)
      (pool : List (Candidate lib.floats)) (env : Environment) (key body : Option Text)
      (found : Option Entry)
      → Ended (answer_found lib p w r ctx pool env key found)
  unfolding answer_found answer_body
  answer_found-Ended p w r ctx pool env key body (some entry) = (_, refl)
  answer_found-Ended p w r ctx pool env key body none = read (read_request_body r.body)
    where
      read : (data' : Option Text) → Ended (answer_body lib p w r ctx pool env key data')
      read none = (some _, refl)
      read (some data') = answer_with-Ended p w r key _

  pub from_pool-Ended :
      (p : Proxy lib) (w : World lib) (r : Request) (ctx : RequestContext)
      (pool : List (Candidate lib.floats) × Environment)
      → Ended (from_pool lib p w r ctx pool)
  unfolding from_pool
  from_pool-Ended p w r ctx ([], env) = (some _, refl)
  from_pool-Ended p w r ctx (c ∷ cs, env) =
      let key = should_cache_request lib p r ctx in
      let (p', found) = cached lib p key w.now in
      answer_found-Ended p' w r ctx (c ∷ cs) env key none found
