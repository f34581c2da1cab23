-- ===== src/Dns/Zone/Serial.antt =====
-- How the zone's serial moves from one query to the next.
use p2p_gossip_lb.Prelude.{refl, ℕ, ◌≤◌, ◌<◌, ◌≡◌, ◌≢◌, ◌⊎◌, arith, ◌==◌, ◌%◌, mod-lt}
use p2p_gossip_lb.Prelude.Int.{ℤ}
use p2p_gossip_lb.Registry.Store.{node_snapshot}
use p2p_gossip_lb.Selector.Floats.{Floats}
use p2p_gossip_lb.Geo.{Math}
use p2p_gossip_lb.Dns.Records.{DnsLibrary}
use p2p_gossip_lb.Dns.Zone.{false, RegistryZoneView, sum_of, max_uint32, next_serial, zone_serial}

next_serial_rises :
    (serial prev : ℕ)
    → serial ≤ max_uint32
    → prev ≤ max_uint32
    → (next_serial serial prev ≤ max_uint32)
      × ((prev < next_serial serial prev) ⊎ (next_serial serial prev ≡ max_uint32))
unfolding next_serial
next_serial_rises serial prev h k = ground arith

module _ (floats : Floats) (math : Math floats) (dns : DnsLibrary) where
  -- Once the counters of the nodes do not sum up to 0 in 64 bits, and from a cached serial in 32 bits,
  -- each query raises the serial, until it stands at the greatest 32-bit number; it never goes down and
  -- never leaves 32 bits. So it rises even where the registry has not changed.
  pub zone_serial_rises :
      (v : RegistryZoneView floats math dns) (now : ℤ)
      → sum_of 0 (node_snapshot v.store).1 ≢ 0
      → v.serial_cache ≤ max_uint32
      → ((zone_serial floats math dns v now).1.serial_cache ≡ (zone_serial floats math dns v now).0)
        × ((zone_serial floats math dns v now).0 ≤ max_uint32)
        × ((v.serial_cache < (zone_serial floats math dns v now).0)
            ⊎ ((zone_serial floats math dns v now).0 ≡ max_uint32))
  unfolding zone_serial
  zone_serial_rises v now counted small =
      let sum = sum_of 0 (node_snapshot v.store).1 in
      let off : sum == 0 ≡ false = ground (arith, counted) in
      let small' = mod-lt sum {m = max_uint32} (omega arith) in
      let rises =
        next_serial_rises (sum % max_uint32) v.serial_cache (omega (arith, small')) small in
      rw off (refl, rises.0, rises.1)
