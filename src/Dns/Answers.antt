-- ===== src/Dns/Answers.antt =====
-- pkg/dnsplugin/plugin.go: `filterByType`, `decorateRecords`, `buildHTTPSRecord`, `extractECS` and
-- `remoteIP`.
use p2p_gossip_lb.Prelude.{ℕ, ◌==◌, Option, none, some, List, [], ◌∷◌, map, if◌then◌else◌, keep}
use p2p_gossip_lb.Prelude.Text.{Text, codes, text_eq}
use p2p_gossip_lb.Proxy.Http.{split_host_port}
use p2p_gossip_lb.Dns.Records.{Rr, Rdata, a_data, aaaa_data, https_data, type_https}

unfoldable pub filter_by_type : List Rr → ℕ → List Rr
filter_by_type records t = keep (λ (rr : Rr). rr.header.rrtype == t) records

abbrev pub decorated : ℕ → Text → Rr → Rr
decorated ttl name rr = record rr { header = record rr.header { ttl = ttl; name = name } }

-- `decorateRecords` writes to the records; here they are given back.
unfoldable pub decorate_records : List Rr → ℕ → Text → List Rr
decorate_records records ttl name = map (decorated ttl name) records

abbrev v4_of : Rdata → List Text → List Text
v4_of (a_data ip) rest = ip ∷ rest
v4_of _ rest = rest

abbrev v6_of : Rdata → List Text → List Text
v6_of (aaaa_data ip) rest = ip ∷ rest
v6_of _ rest = rest

unfoldable pub v4_hints : List Rr → List Text
v4_hints [] = []
v4_hints (rr ∷ records) = v4_of rr.rdata (v4_hints records)

unfoldable pub v6_hints : List Rr → List Text
v6_hints [] = []
v6_hints (rr ∷ records) = v6_of rr.rdata (v6_hints records)

abbrev unless_empty : List Text → Option (List Text)
unless_empty [] = none
unless_empty (ip ∷ ips) = some (ip ∷ ips)

unfoldable pub build_https_record : Text → ℕ → List Rr → Rr
unfolding v4_hints v6_hints
build_https_record name ttl hints = record {
  header = record { name = name; rrtype = type_https; ttl = ttl };
  rdata =
      https_data 1 (codes ".") (codes "h2" ∷ codes "http/1.1" ∷ []) (unless_empty (v4_hints hints))
        (unless_empty (v6_hints hints));
}

-- What `extractECS` reads of a message: the options of its OPT records, of which the client subnets
-- carry an address.
pub data EdnsOption : Type 0 where
  subnet : Text → EdnsOption
  other_option : EdnsOption

pub data Extra : Type 0 where
  opt : List EdnsOption → Extra
  other_extra : Extra

abbrev or_else : Option Text → Option Text → Option Text
or_else none later = later
or_else (some address) later = some address

subnet_address : List EdnsOption → Option Text
subnet_address [] = none
subnet_address (other_option ∷ options) = subnet_address options
subnet_address (subnet address ∷ options) =
    let rest = subnet_address options in if text_eq address [] then rest else some address

first_subnet : List Extra → Option Text
unfolding subnet_address
first_subnet [] = none
first_subnet (other_extra ∷ extra) = first_subnet extra
first_subnet (opt options ∷ extra) = or_else (subnet_address options) (first_subnet extra)

-- A nil address is empty.
unfoldable pub extract_ecs : List Extra → Text
unfolding first_subnet
extract_ecs extra = elim (first_subnet extra) [ none ↦ [] | some address ↦ address ]

-- `net.Addr`: nil, an address of UDP or of TCP with the text of its IP, or another by its text
pub data Addr : Type 0 where
  no_addr : Addr
  udp_addr : Text → Addr
  tcp_addr : Text → Addr
  other_addr : Text → Addr

unfoldable pub remote_ip : Addr → Text
unfolding split_host_port
remote_ip no_addr = []
remote_ip (udp_addr ip) = ip
remote_ip (tcp_addr ip) = ip
remote_ip (other_addr addr) = elim (split_host_port addr) [ none ↦ addr | some host ↦ host ]
