-- ===== src/Dns/Records.antt =====
-- The records that pkg/dnsplugin builds, by the fields that it sets, and `toRR`. Of
-- github.com/miekg/dns, which is not part of the repository, `Fqdn` and `String` are parameters.
use p2p_gossip_lb.Prelude.{ℕ, Option, none, some, List}
use p2p_gossip_lb.Prelude.Text.{Text}
use p2p_gossip_lb.Prelude.Net.{to4, to16}

-- The class of every record is INET.
pub record Header : Type 0 where
  pub name : Text
  pub rrtype : ℕ
  pub ttl : ℕ

pub data Rdata : Type 0 where
  a_data : Text → Rdata
  aaaa_data : Text → Rdata
  ns_data : Text → Rdata
  soa_data : (ns mbox : Text) → (serial refresh retry expire minttl : ℕ) → Rdata
  -- the ALPN identifiers, and the address hints where there are any
  https_data :
      (priority : ℕ)
      → (target : Text) → (alpn : List Text) → (v4_hint v6_hint : Option (List Text)) → Rdata

pub record Rr : Type 0 where
  pub header : Header
  pub rdata : Rdata

-- `dns.Fqdn`, and the `String` of a record
pub record DnsLibrary : Type 0 where
  pub fqdn : Text → Text
  pub rr_string : Rr → Text

abbrev pub type_a : ℕ
type_a = 1

abbrev pub type_ns : ℕ
type_ns = 2

abbrev pub type_soa : ℕ
type_soa = 6

abbrev pub type_aaaa : ℕ
type_aaaa = 28

abbrev pub type_https : ℕ
type_https = 65

-- `Rcode...`
pub data Rcode : Type 0 where
  success : Rcode
  format_error : Rcode
  server_failure : Rcode
  name_error : Rcode
  not_implemented : Rcode
  refused : Rcode

-- `toRR`
unfoldable pub to_rr : Text → Text → ℕ → Option Rr
unfolding to4 to16
to_rr ip zone ttl = elim (to4 ip) [
  | some v4 ↦
      some
        (record { header = record { name = zone; rrtype = type_a; ttl = ttl }; rdata = a_data v4 })
  | none ↦ elim (to16 ip) [
    | some v6 ↦ some (record {
      header = record { name = zone; rrtype = type_aaaa; ttl = ttl };
      rdata = aaaa_data v6;
    })
    | none ↦ none
  ]
]
