-- ===== src/Dns/Zone.antt =====
-- pkg/dnsplugin/provider.go: `RegistryZoneView`, its NS records and its serial.
pub mod Serial
use p2p_gossip_lb.Prelude.{
  leb, ◌-◌, ℕ, zero, suc, ◌+◌, ◌*◌, ◌%◌, ◌^◌, ◌==◌, Bool, true, false, not, ◌&&◌, ◌||◌, Option,
  none, some, List, [], ◌∷◌, ◌++◌, map, if◌then◌else◌, ltb, length, is_some,
}
use p2p_gossip_lb.Prelude.Int.{low32, u64, ℤ, pos, pos_part, ltb_ℤ, u32}
use p2p_gossip_lb.Prelude.Text.{Text, codes, text_eq}
use p2p_gossip_lb.GoMap.{GoMap}
use p2p_gossip_lb.Crdt.Clock.{Entry}
use p2p_gossip_lb.Registry.Models.{NodeAdvert}
use p2p_gossip_lb.Registry.Store.{Store, node_snapshot}
use p2p_gossip_lb.Selector.Floats.{Floats}
use p2p_gossip_lb.Geo.{Math, Location, total_geo_score}
use p2p_gossip_lb.Dns.Records.{Rr, DnsLibrary, to_rr, ns_data, type_ns}

-- the sum in 64 bits of the counters that are left
abbrev pub sum_of : ℕ → GoMap Text ℕ → ℕ
sum_of sum [] = sum
sum_of sum ((id, value) ∷ vv) = sum_of (u64 (sum + value)) vv

abbrev pub max_uint32 : ℕ
max_uint32 = 2 ^ 32 - 1

unfoldable pub next_serial : ℕ → ℕ → ℕ
next_serial serial prev =
    if leb serial prev then if prev == max_uint32 then prev else prev + 1 else serial

module _ (floats : Floats) (math : Math floats) (dns : DnsLibrary) where
  -- `serial_cache` is the atomic counter; a geo provider gives the location of an address, where it
  -- knows one.
  pub record RegistryZoneView : Type 0 where
    pub store : Store floats.Float32
    pub zone : Text
    pub ns_labels : List Text
    pub ttl_nsa : ℕ
    pub ttl_service : ℕ
    pub serial_cache : ℕ
    pub geo_provider : Option (Text → Option (Location floats))
    pub geo_weight : floats.Float

  pub record RegistryZoneViewConfig : Type 0 where
    pub store : Option (Store floats.Float32)
    pub zone : Text
    pub ns_labels : List Text
    pub ttl_nsa : ℕ
    pub ttl_service : ℕ
    pub geo_provider : Option (Text → Option (Location floats))
    pub geo_weight : floats.Float

  abbrev or_default : ℕ → ℕ → ℕ
  or_default n default = if n == 0 then default else n

  default_labels : List Text → Text → List Text
  default_labels [] zone = (codes "ns1." ++ zone) ∷ (codes "ns2." ++ zone) ∷ []
  default_labels (label ∷ labels) zone = label ∷ labels

  new_over : RegistryZoneViewConfig → Store floats.Float32 → RegistryZoneView
  unfolding default_labels
  new_over cfg store =
      let weight =
        if floats.le cfg.geo_weight floats.zero then math.literal (pos 5) 1 else cfg.geo_weight in
      record {
        store = store;
        zone = dns.fqdn cfg.zone;
        ns_labels = default_labels cfg.ns_labels cfg.zone;
        ttl_nsa = or_default cfg.ttl_nsa 30;
        ttl_service = or_default cfg.ttl_service 20;
        serial_cache = 0;
        geo_provider = cfg.geo_provider;
        geo_weight = if floats.lt floats.one weight then floats.one else weight;
      }

  -- `NewRegistryZoneView`
  unfoldable pub new_registry_zone_view : RegistryZoneViewConfig → Option RegistryZoneView
  unfolding new_over
  new_registry_zone_view cfg = elim cfg.store [
    | none ↦ none
    | some store ↦ if text_eq cfg.zone [] then none else some (new_over cfg store)
  ]

  ns_records_of : RegistryZoneView → List Text → List Rr
  ns_records_of v [] = []
  ns_records_of v (label ∷ labels) =
      record {
        header = record { name = v.zone; rrtype = type_ns; ttl = v.ttl_nsa };
        rdata = ns_data (dns.fqdn label);
      }
      ∷ ns_records_of v labels

  -- `NSRecords`
  unfoldable pub ns_records : Bool → RegistryZoneView → Option (List Rr)
  unfolding ns_records_of
  ns_records done v = if done then none else some (ns_records_of v v.ns_labels)

  -- `ZoneSerial` at the time `now`, where no other query comes between its Load and its Store: the
  -- serial, and the view with it in its cache
  unfoldable pub zone_serial : RegistryZoneView → ℤ → ℕ × RegistryZoneView
  unfolding next_serial
  zone_serial v now =
      let sum = sum_of 0 (node_snapshot v.store).1 in
      let serial = if sum == 0 then low32 now else next_serial (sum % max_uint32) v.serial_cache in
      (serial, record v { serial_cache = serial })
