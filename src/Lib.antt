-- ===== src/Lib.antt =====
-- A model of the core of p2p-gossip-lb, a load balancer for blockchain RPC nodes whose edge nodes
-- learn of the backends by gossip.
--
-- The parts and how they interact. `pkg/gossip` receives signed messages of three topics and hands
-- them to the registry; it also exchanges whole states with a random peer now and then
-- (anti-entropy). `pkg/registry` checks the owner's signature and keeps the announcements in
-- last-writer-wins maps with version vectors (`pkg/crdt`). A client finds an edge node by a DNS query
-- that `pkg/dnsplugin` answers from the registry's nodes, those near to it first (`pkg/geo`). The
-- proxy of `pkg/proxy` at the edge limits the rate of its clients, reads the registry, picks a
-- backend with `pkg/selector`, and caches responses with `pkg/cache`; `pkg/circuitbreaker` guards a
-- backend.
--
-- The files:
--   Prelude, GoMap       shared: tests, 64-bit integers, texts as bytes, times in nanoseconds, and
--                        Go's maps as association lists (IsMap: no key stands twice); Prelude/Strings and
--                        Sort model what the code uses of strings and sort, Net of net.IP
--   Crdt/Clock, LwwMap   pkg/crdt/lwwmap.go: Clock, Entry, dominates, and every method of LWWMap
--     LwwMap/Join        the specification of Merge: the join of two entries of a key
--     LwwMap/Merge, Methods, Delivery   theorems on Merge, on the other methods, and on replicas
--   Crdt/VersionVector   pkg/crdt/lwwmap.go: VersionVector; Order has its theorems
--   CircuitBreaker       pkg/circuitbreaker/circuitbreaker.go: beforeRequest, afterRequest and what
--                        they call; Counters has Counts; Transitions has theorems
--     Calls              Call as two steps, with the steps of other calls between; theorems in Recovery
--                        and Closing
--   Cache                pkg/cache/cache.go: ResponseCache; LruStore is the interface of golang-lru,
--                        Responses has Entry and BuildEntry; Budget, Storing, Reads, Drift, Contents,
--                        Kept and Termination: theorems
--   Registry             pkg/registry: Models, Encoding, Store; theorems under Store
--   Gossip               pkg/gossip/service.go: Envelope (encodeEnvelope, verifyEnvelope), Topics
--                        (consume, validators, publish), Sync (anti-entropy), with their theorems
--   Selector             pkg/selector/selector.go: Request, Filter, Choice, Sticky, Hash, Pick
--   Proxy/Routing        pkg/proxy/proxy.go: buildCandidates (Pool), pickCandidate and the attempts of
--                        handleHTTP and handleWebsocket (Attempts)
--   Proxy/Http           what the code uses of net/http: requests, replies, header values
--   Proxy/Helpers        pkg/proxy/helpers.go: what is read from a request (Hosts); Outbound: the
--                        request to a backend (Fields, Headers, Claims); CacheKey: the keys of
--                        responses (Order, Apart)
--   Proxy/RateLimiter    pkg/proxy/rate_limiter.go; Clients has theorems
--   Proxy/Responses      pkg/proxy/proxy.go: writeUpstreamResponse, shouldCacheRequest and
--                        writeCachedResponse; Kept and Roundtrip: what the cache holds
--   Proxy/Serving        pkg/proxy/proxy.go: ServeHTTP, handleHTTP and handleWebsocket, from a request
--                        to an answer; Sound, Ends, Safe and Tunnels: theorems
--   Proxy/Setup          pkg/proxy/proxy.go: New; Fresh has what holds of a proxy it returns
--   Geo                  pkg/geo/geo.go
--   Dns                  pkg/dnsplugin. provider.go: Zone (the serial, theorems in Serial), Countries,
--                        Edges (EdgeRecords; Keys, Usable, Sound, Published). plugin.go: Limiter,
--                        Names (matchServiceName, Roundtrip), Answers, Plugin (ServeDNS, Outcome).
--                        Records has what they use of miekg/dns
--   Health               pkg/health/health.go: what Prober.check does to the status; Streaks
--   Tests                concrete data, with stand-ins for the libraries
--
-- How the code is rendered. A method that holds a mutex from its first line to its last is one step
-- from a state to a state; Call of the breaker takes its mutex twice and is two steps of a
-- schedule. The clock and the random source are arguments. uint32, uint64 and int64 wrap around.
-- Strings are their bytes, and what changes case or trims spaces is modelled on ASCII. Errors are
-- values, log lines are left out. WriteHeader panics on a status that is not from 100 to 999: that is
-- an answer of its own. So is a request that is left to the websocket library: where proxyWebsocket
-- fails, Accept has replied itself or has taken the connection over. The clock that stands in for a
-- failing random source reads a time after 1970, and so is a natural number. The queries of a zone
-- follow one another: the Load and the Store of ZoneSerial are one step.
--
-- Bounds and fuel. The eviction loop of the cache runs on fuel, one more than the entries stored:
-- each round removes an entry, so that is enough, and the loop says whether it has ended by itself
-- or has run out. The decimal text of a number has fuel, one more
-- than the number. All other loops recurse on their list.
--
-- Parameters, since their code is not in the repository: golang-lru (an interface with laws), CBOR,
-- Ed25519 and libp2p keys (functions; where a theorem needs laws, IsSound names them), the buckets of
-- x/time/rate, net.ParseIP and the String of an address, base64 and JSON, Fqdn and the String of a
-- record of miekg/dns, sort.Slice where the order of equal elements matters (a permutation), and
-- float64 with the functions of math (operations without laws). The network is an argument: what a
-- backend replies, whether a tunnel opens, and when a context ends.
--
-- Not modelled: the copying of bytes in pkg/proxy/websocket.go; the probes of pkg/health; the
-- MaxMind reader of pkg/geo; pkg/auth, pkg/ecs, pkg/config, pkg/agent; the set-up of libraries in
-- pkg/logging, pkg/metrics, pkg/tracing, pkg/tls, pkg/pki and cmd; the wiring and the timers of
-- pkg/gossip; VersionVector.Digest; ReadAndBuffer of pkg/cache.
pub mod Prelude
pub mod GoMap
pub mod Crdt
pub mod CircuitBreaker
pub mod Cache
pub mod Registry
pub mod Gossip
pub mod Selector
pub mod Health
pub mod Proxy
pub mod Geo
pub mod Dns
pub mod Tests
