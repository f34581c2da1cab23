-- ===== src/Tests/Serving.antt =====
-- A concrete proxy of pkg/proxy, with stand-ins for the libraries, and what it does with requests.
use p2p_gossip_lb.Prelude.{
  ◌++◌, ap, In, sym, ◌∙◌, ap, ◌-◌, ℕ, suc, ◌≡◌, ◌≢◌, ◌⊎◌, refl, inl, Bool, true, false, Option,
  none, some, List, [], ◌∷◌, All, arith,
}
use mathlib.Core.List.{Perm}
use mathlib.Core.List.Perm
use p2p_gossip_lb.Prelude.Int.{◌≤ℤ◌, pos_part, ℤ, pos, leb_ℤ}
use p2p_gossip_lb.Prelude.Text.{Text, codes, dec_text}
use p2p_gossip_lb.GoMap
use p2p_gossip_lb.Cache.Responses.{Response}
use p2p_gossip_lb.Cache.{ResponseCache}
use p2p_gossip_lb.Registry.Store.{Store}
use p2p_gossip_lb.Selector.Filter.{Candidate}
use p2p_gossip_lb.Selector.Pick.{Draws}
use p2p_gossip_lb.Tests.Cache.{list_lru, page}
use p2p_gossip_lb.Tests.Registry.{good, empty, measured}
use p2p_gossip_lb.Tests.Selector.{counts, cfg, ctx, broken}
use p2p_gossip_lb.Proxy.Http.{values_of, Values, Request, no_body, get_first}
use p2p_gossip_lb.Proxy.Helpers.{
  Decoders, claimed_ip, client_ip_from_request, strip_port, extract_chain,
}
use p2p_gossip_lb.Proxy.Outbound.{Outbound, outbound_header}
use p2p_gossip_lb.Proxy.Outbound.Fields.{Absent}
use p2p_gossip_lb.Proxy.Outbound.Headers.{hop_by_hop, appended, scheme_of, outbound_header_lem}
use p2p_gossip_lb.Proxy.Outbound.Claims.{outbound_header_claimed}
use p2p_gossip_lb.Proxy.Helpers.Hosts.{with_port, Plain}
use p2p_gossip_lb.Proxy.CacheKey.{cache_key}
use p2p_gossip_lb.Proxy.CacheKey.Order.{SameQuery, cache_key-same}
use p2p_gossip_lb.Proxy.RateLimiter.{Rates, ClientRateLimiter, ClientLimiter, allow}
use p2p_gossip_lb.Proxy.RateLimiter.Clients.{allow_keeps_active}
use p2p_gossip_lb.Proxy.Responses.{
  Libraries, Proxy, World, tunnelled, crashed, should_cache_request, cached,
}
use p2p_gossip_lb.Proxy.Serving.{serve_http, permitted}
use p2p_gossip_lb.Proxy.Serving.Sound.{served}
use p2p_gossip_lb.Prelude.Strings.{has_byte, trim_space}
use p2p_gossip_lb.Proxy.Serving.Tunnels.{ServesWs, tunnelled_lem}
use p2p_gossip_lb.Proxy.Setup
use p2p_gossip_lb.Proxy.Setup.{new}
use p2p_gossip_lb.Proxy.Setup.Fresh.{negative_never_served, served_calm}

abbrev is_positive : ℕ → Bool
is_positive Prim.Native.Nat.zero = false
is_positive (suc n) = true

-- a bucket that is never filled again
abbrev pub tokens : Rates
tokens = record {
  Limit = ℤ;
  Limiter = ℕ;
  limit_of_int = λ n. n;
  new_limiter = λ limit burst. 2;
  allow = λ n now. (n - 1, is_positive n);
}

abbrev lib : Libraries
lib = record {
  floats = counts;
  rates = tokens;
  lru = list_lru;
  std = record { parse_ip = λ s. none; decode_base64 = λ s. none; claims_sub = λ s. none };
  bucket = λ ip. ip;
  valid = λ m h. true;
}

abbrev ws_store : Store ℕ
ws_store = record empty {
  meta = record {
    items =
        (
          codes "x",
          record {
            value = record good { caps = (codes "ws", true) ∷ [] };
            clock = record { lamport = 3; unix_nano = pos 5 };
            tombstone = false;
          },
        )
        ∷ [];
  };
  metrics = (codes "x", record { value = measured; received_at = pos 100 }) ∷ [];
}

abbrev config : Setup.Config lib
config = record {
  store = some ws_store;
  chains = codes "c" ∷ [];
  selector = cfg;
  cache_enabled = true;
  cache_max_bytes = pos 100;
  cache_max_item_bytes = pos 50;
  cache_ttl_heighted = pos 20;
  cache_ttl_infinite = false;
  negative_cache_ttl = pos 10;
  rate_limit = record { per_ip_rps = pos 1; burst = pos 0; window = pos 0 };
  edge_country = codes "DE";
  edge_region = [];
  backend_scheme = [];
}

abbrev cache : ResponseCache list_lru
cache = record { store = ([], 2); max_bytes = pos 100; current_bytes = pos 0 }

abbrev proxy : Proxy lib
proxy = record {
  store = ws_store;
  selector_cfg = cfg;
  allowed_chains = codes "c" ∷ [];
  cache = some cache;
  cache_max_item = pos 50;
  cache_ttl = pos 20;
  cache_infinite = false;
  negative_cache_ttl = pos 10;
  rate_limiter =
      some (record { limit = pos 1; burst = pos 2; window = pos 600000000000; clients = [] });
  backend_scheme = codes "https";
  edge_country = codes "DE";
  edge_region = [];
}

proxy-new : new lib config ≡ some proxy
unfolding new Setup.new_over Setup.with_cache Setup.limiter_for
    p2p_gossip_lb.Cache.new_response_cache Setup.cache_capacity
    p2p_gossip_lb.Proxy.RateLimiter.new_client_rate_limiter dec_text p2p_gossip_lb.Prelude.Int.int64
    p2p_gossip_lb.Prelude.Int.◌*ℤ◌
proxy-new = refl

-- a websocket request to `rpc.c.mesh`, from behind another proxy
abbrev request : Request
request = record {
  method = codes "GET";
  host = codes "ws.c.mesh:443";
  url_host = [];
  url_path = codes "/tx/1";
  query = (codes "height", codes "7" ∷ []) ∷ (codes "a", codes "1" ∷ []) ∷ [];
  header =
      (codes "X-Forwarded-For", codes "9.9.9.9" ∷ []) ∷ (codes "Upgrade", codes "h2c" ∷ []) ∷ [];
  body = no_body;
  remote_addr = codes "1.1.1.1:80";
  tls = true;
}

abbrev response : Response
response = record { status_code = pos 200; header = none }

abbrev world : World lib
world = record {
  now = pos 100;
  draws = λ i. broken;
  round_trip = λ i outbound. some (response, codes "ok");
  tunnel = λ i c. true;
}

world-Lawful :
    (i : ℕ) (o : Outbound) (resp : Response) (body : Text)
    → world.round_trip i o ≡ some (resp, body)
    → (pos 100 ≤ℤ resp.status_code) × (resp.status_code ≤ℤ pos 999)
world-Lawful i o resp body h =
    let same : response ≡ resp = ap response_of h in
    let status : pos 200 ≡ resp.status_code = ap (λ (x : Response). x.status_code) same in
    (rw (← status) (omega arith), rw (← status) (omega arith))
  where
    response_of : Option (Response × Text) → Response
    response_of none = response
    response_of (some (x, y)) = x

served_calm_example :
    (serve_http lib (served lib proxy ((world, request) ∷ [])) world request).1 ≢ crashed
served_calm_example =
    served_calm lib config proxy ((world, request) ∷ []) world request proxy-new world-Lawful

not_ok : pos 404 ≢ pos 200
not_ok = λ e. omega (arith, ap pos_part e)

negative_never_served_example :
    (cached lib
      (served lib proxy ((world, request) ∷ []))
      (should_cache_request lib (served lib proxy ((world, request) ∷ [])) request ctx)
      (pos 110)).1
    ≢ some (record (page 3) { status = pos 404 })
negative_never_served_example =
    negative_never_served lib config proxy ((world, request) ∷ []) request ctx (pos 110)
      (record (page 3) { status = pos 404 }) proxy-new not_ok

name-Plain : Plain (codes "ws.c.mesh")
unfolding has_byte
name-Plain = record { no_colon = refl; no_open = refl; no_close = refl }

port-Plain : Plain (codes "443")
unfolding has_byte
port-Plain = record { no_colon = refl; no_open = refl; no_close = refl }

outbound_header_lem_example :
    All (Absent (outbound_header request)) hop_by_hop
    × (GoMap.get dec_text (codes "X-Forwarded-Host") (
          outbound_header
            (record request { host = with_port (codes "ws.c.mesh") (some (codes "443")) }))
        ≡ some (codes "ws.c.mesh" ∷ []))
    × (GoMap.get dec_text (codes "X-Forwarded-Proto") (outbound_header request)
        ≡ some (scheme_of true (get_first (codes "X-Forwarded-Proto") request.header) ∷ []))
    × ((client_ip_from_request request ≡ [])
        ⊎ ((GoMap.get dec_text (codes "X-Real-Ip") (outbound_header request)
              ≡ some (client_ip_from_request request ∷ []))
            × (GoMap.get dec_text (codes "X-Forwarded-For") (outbound_header request)
                ≡ some (
                    appended
                      (get_first (codes "X-Forwarded-For") request.header)
                      (client_ip_from_request request)
                    ∷ []))))
outbound_header_lem_example =
    outbound_header_lem request (codes "ws.c.mesh") (some (codes "443")) (λ e. cc) name-Plain
      port-Plain

-- a request that claims to come from 9.9.9.9 by way of 8.8.8.8
abbrev claiming : Request
claiming = record request { header = (codes "X-Forwarded-For", codes "9.9.9.9,8.8.8.8" ∷ []) ∷ [] }

claim-listed :
    get_first (codes "X-Forwarded-For") claiming.header ≡ codes "9.9.9.9" ++ b',' ∷ codes "8.8.8.8"
unfolding get_first GoMap.get dec_text
claim-listed = refl

claim_bare : trim_space (codes "9.9.9.9") ≡ codes "9.9.9.9"
unfolding trim_space
claim_bare = refl

claim_single : has_byte b',' (codes "9.9.9.9") ≡ false
unfolding has_byte
claim_single = refl

outbound_header_claimed_example :
    (client_ip_from_request (record claiming { remote_addr = codes "2.2.2.2:80" })
      ≡ codes "9.9.9.9")
    × (GoMap.get dec_text
          (codes "X-Real-Ip")
          (outbound_header (record claiming { remote_addr = codes "2.2.2.2:80" }))
        ≡ some (codes "9.9.9.9" ∷ []))
    × (GoMap.get dec_text
          (codes "X-Forwarded-For")
          (outbound_header (record claiming { remote_addr = codes "2.2.2.2:80" }))
        ≡ some
            (((codes "9.9.9.9" ++ b',' ∷ codes "8.8.8.8") ++ codes ", " ++ codes "9.9.9.9") ∷ []))
    × (outbound_header (record claiming { remote_addr = codes "2.2.2.2:80" })
        ≡ outbound_header claiming)
outbound_header_claimed_example =
    outbound_header_claimed claiming (codes "2.2.2.2:80") (codes "9.9.9.9") (codes "8.8.8.8")
      claim-listed claim_single claim_bare (λ e. cc)

-- the same query, visited in the other order
abbrev reversed : Values
reversed = (codes "a", codes "1" ∷ []) ∷ (codes "height", codes "7" ∷ []) ∷ []

abbrev first_byte : Text → ℕ
first_byte [] = 0
first_byte (byte ∷ bytes) = byte

get-swap :
    (key i j : Text) (v w : List Text)
    → i ≢ j
    → GoMap.get dec_text key ((i, v) ∷ (j, w) ∷ []) ≡ GoMap.get dec_text key ((j, w) ∷ (i, v) ∷ [])
unfolding GoMap.get
get-swap key i j v w differ = ground arith

same_values :
    (key : Text)
    → Perm
        (values_of (GoMap.get dec_text key request.query))
        (values_of (GoMap.get dec_text key reversed))
same_values key =
    rw
      (get-swap key (codes "height") (codes "a") (codes "7" ∷ []) (codes "1" ∷ [])
        (λ e. omega (arith, ap first_byte e)))
      (Perm.refl _)

request-SameQuery : SameQuery request.query reversed
request-SameQuery = record {
  same_keys = Perm.swap (codes "a") (codes "height") [];
  same_values = same_values;
}

cache_key-same_example :
    cache_key (record request { query = reversed }) (codes "height")
    ≡ cache_key request (codes "height")
cache_key-same_example = cache_key-same request reversed (codes "height") request-SameQuery

abbrev limiter : ClientRateLimiter tokens
limiter = record {
  limit = pos 1;
  burst = pos 2;
  window = pos 60;
  clients = (codes "b", record { limiter = 1; last_seen = pos 50 }) ∷ [];
}

others_differ : codes "a" ≢ codes "b"
others_differ = λ e. omega (arith, ap first_byte e)

found-limiter :
    GoMap.get dec_text (codes "b") limiter.clients
    ≡ some (record { limiter = 1; last_seen = pos 50 })
unfolding GoMap.get dec_text
found-limiter = refl

allow_keeps_active_example :
    GoMap.get dec_text (codes "b") (allow tokens limiter (codes "a") (pos 100)).0.clients
    ≡ some (record { limiter = 1; last_seen = pos 50 })
unfolding p2p_gossip_lb.Prelude.Int.◌-ℤ◌
allow_keeps_active_example =
    allow_keeps_active tokens limiter (codes "a") (codes "b") (pos 100)
      (record { limiter = 1; last_seen = pos 50 }) others_differ found-limiter refl

-- the backend of `ws_store`, as the pool offers it
abbrev opened_at : Candidate counts
opened_at = record {
  meta = record good { caps = (codes "ws", true) ∷ [] };
  metrics = measured;
  geo_penalty = 15;
  score = 22;
  weight = 1;
}

opened : (serve_http lib proxy world request).1 ≡ tunnelled opened_at
unfolding serve_http p2p_gossip_lb.Proxy.Serving.serve_found extract_chain dec_text
    p2p_gossip_lb.Proxy.Serving.serve_chain permitted p2p_gossip_lb.Proxy.Routing.seen
    p2p_gossip_lb.Proxy.Serving.serve_client p2p_gossip_lb.Proxy.Serving.limited
    client_ip_from_request claimed_ip GoMap.get p2p_gossip_lb.Proxy.Serving.limit_in allow
    p2p_gossip_lb.Proxy.Helpers.is_websocket_request p2p_gossip_lb.Proxy.Serving.handle_websocket
    p2p_gossip_lb.Proxy.Serving.tunnel_pool p2p_gossip_lb.Proxy.Serving.pool_of
    p2p_gossip_lb.Selector.Pick.scored p2p_gossip_lb.Selector.Pick.method_bias
    p2p_gossip_lb.Proxy.Routing.build_candidates p2p_gossip_lb.Proxy.Serving.tunnel_answer
    p2p_gossip_lb.Proxy.Routing.handle p2p_gossip_lb.Proxy.Helpers.build_request_context
    p2p_gossip_lb.Proxy.Serving.open_tunnel p2p_gossip_lb.Proxy.Routing.geo_penalty
    p2p_gossip_lb.Prelude.Int.int64 p2p_gossip_lb.Prelude.Int.◌-ℤ◌
opened = refl

ws_store-IsMap : GoMap.IsMap dec_text ws_store.meta.items
unfolding GoMap.get
ws_store-IsMap = (refl, tt)

tunnelled_lem_example :
    (chain : Text) × (service : Text) × (extract_chain request ≡ some (chain, service))
    × ((proxy.allowed_chains ≡ []) ⊎ In chain proxy.allowed_chains)
    × ServesWs lib proxy.store chain opened_at
tunnelled_lem_example = tunnelled_lem lib proxy world request opened_at ws_store-IsMap opened
