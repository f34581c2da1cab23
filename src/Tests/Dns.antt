-- ===== src/Tests/Dns.antt =====
-- A concrete zone for pkg/dnsplugin, with one node that serves DNS.
use p2p_gossip_lb.Prelude.{
  ℕ, suc, ◌<◌, ◌≤◌, ◌≡◌, ◌≢◌, ◌⊎◌, refl, inl, inr, Bool, true, false, none, some, List, [], ◌∷◌,
  arith,
}
use mathlib.Core.List.Permᴰ
use p2p_gossip_lb.Prelude.Int.{pos}
use p2p_gossip_lb.Prelude.Text.{Text, codes, dec_text}
use p2p_gossip_lb.Registry.Store.{Store, node_snapshot}
use p2p_gossip_lb.Geo.{Math}
use p2p_gossip_lb.Tests.Registry.{empty}
use p2p_gossip_lb.Tests.Selector.{counts}
use p2p_gossip_lb.Tests.Serving.{tokens}
use p2p_gossip_lb.Dns.Records.{Rr, DnsLibrary, a_data, type_a, to_rr}
use p2p_gossip_lb.Dns.Zone.{RegistryZoneView, zone_serial, max_uint32, sum_of}
use p2p_gossip_lb.Dns.Zone.Serial.{zone_serial_rises}
use p2p_gossip_lb.Dns.Names.{match_service_name}
use p2p_gossip_lb.Dns.Names.Roundtrip.{service_name, match-service_name}
use p2p_gossip_lb.Dns.Edges
use p2p_gossip_lb.Dns.Edges.{edge_records}
use p2p_gossip_lb.Dns.Edges.Published.{Published, edge_records-Published}
use p2p_gossip_lb.Dns.Plugin
use p2p_gossip_lb.Dns.Plugin.{ZoneView, Config, Handler}

abbrev math : Math counts
math = record {
  literal = λ m d. 1;
  abs = λ x. x;
  sin = λ x. x;
  cos = λ x. x;
  sqrt = λ x. x;
  atan2 = λ x y. x;
  pi = 3;
}

-- names here end in a dot; a record is told apart by its name only
abbrev dns : DnsLibrary
dns = record { fqdn = λ s. s; rr_string = λ rr. rr.header.name }

abbrev store : Store ℕ
store = record empty {
  nodes = record {
    items =
        (
          codes "n",
          record {
            value = record {
              id = codes "n";
              ns_serving = true;
              ips = (1 ∷ 2 ∷ 3 ∷ 4 ∷ []) ∷ [];
              country = [];
              region = [];
              at_unix = pos 1;
              pub_key = [];
              sig = [];
              clock = 2;
            };
            clock = record { lamport = 2; unix_nano = pos 1 };
            tombstone = false;
          },
        )
        ∷ [];
  };
  node_vv = record { vv = (codes "n", 2) ∷ [] };
}

abbrev view : RegistryZoneView counts math dns
view = record {
  store = store;
  zone = codes "m.";
  ns_labels = [];
  ttl_nsa = 30;
  ttl_service = 20;
  serial_cache = 5;
  geo_provider = none;
  geo_weight = 1;
}

abbrev edge : Rr
edge = record {
  header = record { name = codes "m."; rrtype = type_a; ttl = 20 };
  rdata = a_data (1 ∷ 2 ∷ 3 ∷ 4 ∷ []);
}

edges-here :
    edge_records counts math dns (λ less es. es) (λ i. false) view (codes "c") (pos 4) []
    ≡ some (edge ∷ [])
unfolding edge_records Edges.edge_loop Edges.ip_loop Edges.ip_step Edges.chosen to_rr
    Edges.unless_seen Edges.has_key
edges-here = refl

edge_records-Published_example : Published counts math dns view (codes "c") [] (pos 4) (edge ∷ [])
edge_records-Published_example =
    edge_records-Published counts math dns (λ less es. es) (λ i. false) view (codes "c") [] (pos 4)
      (edge ∷ []) (λ less es. Permᴰ.refl es) edges-here

counted : sum_of 0 (node_snapshot store).1 ≢ 0
counted = λ e. cc

zone_serial_rises_example :
    ((zone_serial counts math dns view (pos 1)).1.serial_cache
      ≡ (zone_serial counts math dns view (pos 1)).0)
    × ((zone_serial counts math dns view (pos 1)).0 ≤ max_uint32)
    × ((5 < (zone_serial counts math dns view (pos 1)).0)
        ⊎ ((zone_serial counts math dns view (pos 1)).0 ≡ max_uint32))
zone_serial_rises_example = zone_serial_rises counts math dns view (pos 1) counted (omega arith)

match-service_name_example :
    match_service_name
      (codes "m.")
      (codes "c" ∷ [])
      (service_name (codes "rpc") (codes "c") (codes "m."))
    ≡ some (codes "c", codes "rpc")
unfolding p2p_gossip_lb.Prelude.Strings.has_byte p2p_gossip_lb.Dns.Names.has_chain dec_text
match-service_name_example =
    match-service_name (codes "m.") (codes "rpc") (codes "c") (codes "c" ∷ []) refl refl refl

-- a view that always shows the edge
abbrev shown : ZoneView
shown = record {
  State = Unit;
  edge_records = λ done s chain max ecs. some (edge ∷ []);
  ns_records = λ done s. some [];
  zone_serial = λ s now. (1, s);
}

abbrev handler : Handler dns tokens shown
handler = record {
  cfg = record {
    zone = codes "m.";
    chains = codes "c" ∷ [];
    ns_labels = [];
    ttl_service = 9;
    ttl_nsa = 30;
    max_answers = pos 4;
    enable_ecs = false;
  };
  rate_limit = none;
  zone_provider = tt;
}

abbrev answer : Rr
answer = record {
  header = record { name = codes "rpc.c.m."; rrtype = type_a; ttl = 9 };
  rdata = a_data (1 ∷ 2 ∷ 3 ∷ 4 ∷ []);
}
