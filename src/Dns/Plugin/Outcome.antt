-- ===== src/Dns/Plugin/Outcome.antt =====
-- What `ServeDNS` answers about a service.
use p2p_gossip_lb.Prelude.{ℕ, ◌≡◌, ◌≢◌, ◌⊎◌, List, [], All}
use p2p_gossip_lb.Prelude.Text.{Text}
use p2p_gossip_lb.Proxy.RateLimiter.{Rates}
use p2p_gossip_lb.Dns.Records.{Rr, DnsLibrary}
use p2p_gossip_lb.Dns.Answers.{filter_by_type, decorate_records}
use p2p_gossip_lb.Dns.Plugin.{ZoneView}

-- Records of a name with a time to live.
abbrev pub Labelled : Text → ℕ → Rr → Type 0
Labelled name ttl rr = (rr.header.name ≡ name) × (rr.header.ttl ≡ ttl)

module _ (dns : DnsLibrary) (rates : Rates) (view : ZoneView) where
  -- An answer about a type, from the records of the edges.
  pub record Answers (name : Text) (ttl qtype : ℕ) (edges answer : List Rr) : Type 0 where
    pub nonempty : answer ≢ []
    pub labelled : All (Labelled name ttl) answer
    -- all of the type, or all records where no edge has one of the type
    pub of_type :
        All (λ rr. rr.header.rrtype ≡ qtype) answer
        ⊎ ((answer ≡ decorate_records edges ttl name) × (filter_by_type answer qtype ≡ []))
