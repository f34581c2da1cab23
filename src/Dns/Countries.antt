-- ===== src/Dns/Countries.antt =====
-- pkg/dnsplugin/provider.go: the centres of countries, in ten-thousandths of a degree.
use p2p_gossip_lb.Prelude.{Option, none, some, [], ◌∷◌}
use p2p_gossip_lb.Prelude.Int.{ℤ, pos, negsuc}
use p2p_gossip_lb.Prelude.Text.{Text, codes, dec_text}
use p2p_gossip_lb.GoMap
use p2p_gossip_lb.GoMap.{GoMap}
use p2p_gossip_lb.Selector.Floats.{Floats}
use p2p_gossip_lb.Geo.{Math, Location}

-- latitude and longitude; `negsuc n` is -(n + 1)
abbrev centroids : GoMap Text (ℤ × ℤ)
centroids =
    (codes "US", (pos 398283, negsuc 985794))
    ∷ (codes "CA", (pos 561304, negsuc 1063467))
    ∷ (codes "GB", (pos 553781, negsuc 34359))
    ∷ (codes "DE", (pos 511657, pos 104515))
    ∷ (codes "FR", (pos 462276, pos 22137))
    ∷ (codes "NL", (pos 521326, pos 52913))
    ∷ (codes "JP", (pos 362048, pos 1382529))
    ∷ (codes "SG", (pos 13521, pos 1038198))
    ∷ (codes "AU", (negsuc 252743, pos 1337751))
    ∷ (codes "BR", (negsuc 142349, negsuc 519252))
    ∷ (codes "IN", (pos 205937, pos 789629))
    ∷ (codes "KR", (pos 359078, pos 1277669))
    ∷ (codes "HK", (pos 223193, pos 1141694))
    ∷ (codes "CH", (pos 468182, pos 82275))
    ∷ (codes "SE", (pos 601282, pos 186435))
    ∷ (codes "FI", (pos 619241, pos 257482))
    ∷ (codes "NO", (pos 604720, pos 84689))
    ∷ (codes "DK", (pos 562639, pos 95018))
    ∷ (codes "IE", (pos 531424, negsuc 76920))
    ∷ (codes "PL", (pos 519194, pos 191451))
    ∷ (codes "ES", (pos 404637, negsuc 37491))
    ∷ (codes "IT", (pos 418719, pos 125674))
    ∷ (codes "AT", (pos 475162, pos 145501))
    ∷ (codes "BE", (pos 505039, pos 44699))
    ∷ (codes "CZ", (pos 498175, pos 154730))
    ∷ (codes "PT", (pos 393999, negsuc 82244))
    ∷ (codes "RU", (pos 615240, pos 1053188))
    ∷ (codes "CN", (pos 358617, pos 1041954))
    ∷ (codes "TW", (pos 236978, pos 1209605))
    ∷ (codes "MY", (pos 42105, pos 1019758))
    ∷ (codes "ID", (negsuc 7892, pos 1139213))
    ∷ (codes "TH", (pos 158700, pos 1009925))
    ∷ (codes "VN", (pos 140583, pos 1082772))
    ∷ (codes "PH", (pos 128797, pos 1217740))
    ∷ (codes "NZ", (negsuc 409005, pos 1748860))
    ∷ (codes "ZA", (negsuc 305594, pos 229375))
    ∷ (codes "AE", (pos 234241, pos 538478))
    ∷ (codes "IL", (pos 310461, pos 348516))
    ∷ (codes "AR", (negsuc 384160, negsuc 636166))
    ∷ (codes "CL", (negsuc 356750, negsuc 715429))
    ∷ (codes "CO", (pos 45709, negsuc 742972))
    ∷ (codes "MX", (pos 236345, negsuc 1025527))
    ∷ []

module _ (floats : Floats) (math : Math floats) where
  unfoldable pub country_to_approx_location : Text → Text → Option (Location floats)
  unfolding GoMap.get dec_text
  country_to_approx_location country region = elim (GoMap.get dec_text country centroids) [
    | none ↦ none
    | some (lat, lon) ↦ some (record {
      latitude = math.literal lat 4;
      longitude = math.literal lon 4;
      country = country;
      region = region;
      city = [];
      asn = 0;
    })
  ]
