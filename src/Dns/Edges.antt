-- ===== src/Dns/Edges.antt =====
-- pkg/dnsplugin/provider.go: `EdgeRecords`, the addresses of the nodes that serve DNS.
pub mod Keys
pub mod Usable
pub mod Sound
pub mod Published
use p2p_gossip_lb.Prelude.{
  leb, ◌-◌, ℕ, zero, suc, ◌+◌, ◌*◌, ◌%◌, ◌^◌, ◌==◌, Bool, true, false, not, ◌&&◌, ◌||◌, Option,
  none, some, List, [], ◌∷◌, ◌++◌, map, if◌then◌else◌, ltb, length, is_some,
}
use p2p_gossip_lb.Prelude.Int.{low32, u64, ℤ, pos, pos_part, ltb_ℤ, u32}
use p2p_gossip_lb.Prelude.Text.{Text, codes, text_eq}
use p2p_gossip_lb.GoMap.{GoMap}
use p2p_gossip_lb.Crdt.Clock.{Entry}
use p2p_gossip_lb.Registry.Models.{NodeAdvert}
use p2p_gossip_lb.Registry.Store.{Store, node_snapshot}
use p2p_gossip_lb.Selector.Floats.{Floats}
use p2p_gossip_lb.Geo.{Math, Location, total_geo_score}
use p2p_gossip_lb.Dns.Records.{Rr, DnsLibrary, to_rr, ns_data, type_ns}
use p2p_gossip_lb.Dns.Countries.{country_to_approx_location}
use p2p_gossip_lb.Selector.Hash.{xor_bits}
use p2p_gossip_lb.Dns.Zone.{RegistryZoneView}

-- whether a key stands in the map `seen`
unfoldable pub has_key : Text → List Text → Bool
has_key key [] = false
has_key key (k ∷ seen) = text_eq k key || has_key key seen

module _ (floats : Floats) (math : Math floats) (dns : DnsLibrary) where
  pub record Edge : Type 0 where
    pub rr : Rr
    pub ip : Text
    pub node_id : Text
    pub geo_score : floats.Float
    pub hash : ℕ

  -- `fnv.New32a` on the bytes that are written
  unfoldable pub fnv32a : ℕ → Text → ℕ
  unfolding xor_bits
  fnv32a h [] = h
  fnv32a h (c ∷ s) = fnv32a (u32 (xor_bits 32 h c * 16777619)) s

  -- `hashEdge`; a nil address is empty, and writes nothing
  unfoldable pub hash_edge : Text → Text → Text → Text → ℕ
  unfolding fnv32a
  hash_edge chain id ip ecs = fnv32a 2166136261 (chain ++ id ++ ip ++ ecs)

  -- the first address with a location that is not `ZZ`
  node_location : (Text → Option (Location floats)) → List Text → Option (Location floats)
  node_location lookup [] = none
  node_location lookup (ip ∷ ips) =
      let rest = node_location lookup ips in
      elim (lookup ip) [
        | none ↦ rest
        | some loc ↦ if text_eq loc.country (codes "ZZ") then rest else some loc
      ]

  -- `calculateNodeGeoScore` with the provider and the client's location
  unfoldable pub calculate_node_geo_score :
      RegistryZoneView floats math dns
      → NodeAdvert
      → Option (Text → Option (Location floats))
      → Option (Location floats)
      → floats.Float
  unfolding node_location country_to_approx_location total_geo_score
  calculate_node_geo_score v advert (some lookup) (some client) =
      let declared =
        if text_eq advert.country []
        then none
        else country_to_approx_location floats math advert.country advert.region in
      let known : Option (Location floats) = elim (node_location lookup advert.ips) [
        | some loc ↦ some loc
        | none ↦ declared
      ] in
      elim known [
        | none ↦ math.literal (pos 5) 1
        | some loc ↦ floats.mul (total_geo_score floats math (some client) (some loc)) v.geo_weight
      ]
  calculate_node_geo_score v advert _ _ = floats.zero

  unfoldable pub edge_of : NodeAdvert → Text → floats.Float → Text → Text → Text → Rr → Edge
  unfolding hash_edge
  edge_of advert id score chain ecs ip rr = record {
    rr = rr;
    ip = ip;
    node_id = id;
    geo_score = score;
    hash = hash_edge chain advert.id ip ecs;
  }

  -- The body of the loop over the addresses, by whether the key of the record was seen: the edges that
  -- it appends, and the keys that are seen after it.
  unfoldable pub unless_seen : Bool → Edge → List Text → List Edge × List Text
  unless_seen true edge seen = ([], seen)
  unless_seen false edge seen = (edge ∷ [], dns.rr_string edge.rr ∷ seen)

  unfoldable pub ip_step :
      NodeAdvert
      → Text
      → floats.Float
      → Text
      → Text
      → Text
      → Option Rr
      → List Text
      → List Edge × List Text
  unfolding edge_of
  ip_step advert id score chain ecs ip none seen = ([], seen)
  ip_step advert id score chain ecs ip (some rr) seen =
      unless_seen (has_key (dns.rr_string rr) seen) (edge_of advert id score chain ecs ip rr) seen

  unfoldable pub ip_loop :
      RegistryZoneView floats math dns
      → Text
      → NodeAdvert
      → Text
      → floats.Float
      → Text
      → List Text
      → List Text
      → List Edge × List Text
  ip_loop v chain advert id score ecs [] seen = ([], seen)
  ip_loop v chain advert id score ecs (ip ∷ ips) seen =
      let (one, mid) = ip_step advert id score chain ecs ip (to_rr ip v.zone v.ttl_service) seen in
      let (edges, seen') = ip_loop v chain advert id score ecs ips mid in (one ++ edges, seen')

  -- The addresses that are looked at: none of a node that is gone or does not serve DNS.
  abbrev pub usable_ips : Entry NodeAdvert → List Text
  usable_ips entry = if entry.tombstone || not entry.value.ns_serving then [] else entry.value.ips

  abbrev pub prepend : List Edge → Option (List Edge) → Option (List Edge)
  prepend edges none = none
  prepend edges (some rest) = some (edges ++ rest)

  -- The loop over the nodes. `done i` is whether the context has ended before round `i`.
  unfoldable pub edge_loop :
      RegistryZoneView floats math dns
      → Text
      → Text
      → Option (Location floats)
      → (ℕ → Bool)
      → ℕ
      → GoMap Text (Entry NodeAdvert)
      → List Text
      → Option (List Edge)
  edge_loop v chain ecs client done i [] seen = some []
  edge_loop v chain ecs client done i ((id, entry) ∷ entries) seen =
      let score = calculate_node_geo_score v entry.value v.geo_provider client in
      let (edges, seen') = ip_loop v chain entry.value id score ecs (usable_ips entry) seen in
      let rest = edge_loop v chain ecs client done (suc i) entries seen' in
      if done i then none else prepend edges rest

  -- the order of `sort.Slice`
  unfoldable pub edge_less : Edge → Edge → Bool
  edge_less a b =
      if floats.lt (math.literal (pos 1) 2) (math.abs (floats.sub a.geo_score b.geo_score))
      then floats.lt a.geo_score b.geo_score
      else ltb a.hash b.hash

  abbrev pub first_edges : ℕ → List Edge → List Edge
  first_edges zero edges = []
  first_edges (suc n) [] = []
  first_edges (suc n) (e ∷ edges) = e ∷ first_edges n edges

  abbrev pub at_most : ℤ → List Edge → List Edge
  at_most max edges = if ltb_ℤ (pos 0) max then first_edges (pos_part max) edges else edges

  abbrev pub client_location :
      Option (Text → Option (Location floats)) → Text → Option (Location floats)
  client_location none ecs = none
  client_location (some lookup) ecs = if text_eq ecs [] then none else lookup ecs

  abbrev pub rr_of : Edge → Rr
  rr_of e = e.rr

  unfoldable pub chosen :
      ((Edge → Edge → Bool) → List Edge → List Edge) → ℤ → Option (List Edge) → Option (List Rr)
  chosen sort_slice max none = none
  chosen sort_slice max (some edges) = some (map rr_of (at_most max (sort_slice edge_less edges)))

  -- `EdgeRecords`, with `none` for an error; `sort_slice` is `sort.Slice` with a given order.
  unfoldable pub edge_records :
      ((Edge → Edge → Bool) → List Edge → List Edge)
      → (ℕ → Bool)
      → RegistryZoneView floats math dns
      → Text
      → ℤ
      → Text
      → Option (List Rr)
  edge_records sort_slice done v chain max ecs =
      let client = client_location v.geo_provider ecs in
      let edges = edge_loop v chain ecs client done 1 (node_snapshot v.store).0 [] in
      if done 0 then none else chosen sort_slice max edges
