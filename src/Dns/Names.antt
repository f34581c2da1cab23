-- ===== src/Dns/Names.antt =====
-- pkg/dnsplugin/plugin.go: `matchServiceName` and `allowedService`.
pub mod Roundtrip
use p2p_gossip_lb.Prelude.{
  Bool, true, false, ◌||◌, Option, none, some, List, [], ◌∷◌, if◌then◌else◌,
}
use p2p_gossip_lb.Prelude.Text.{Text, codes, text_eq}
use p2p_gossip_lb.Prelude.Strings.{to_lower, cut_suffix, trim_suffix, split}

abbrev pub last_of : Text → List Text → Text
last_of x [] = x
last_of x (y ∷ ys) = last_of y ys

unfoldable pub has_chain : Text → List Text → Bool
has_chain chain [] = false
has_chain chain (c ∷ chains) = text_eq c chain || has_chain chain chains

-- The chain is the last of the labels in front of the zone, and the service the first.
unfoldable pub from_parts : List Text → List Text → Option (Text × Text)
from_parts chains [] = none
from_parts chains (service ∷ []) = none
from_parts chains (service ∷ p ∷ parts) =
    let chain = last_of p parts in if has_chain chain chains then some (chain, service) else none

unfoldable pub from_label : List Text → Option Text → Option (Text × Text)
from_label chains none = none
from_label chains (some label) = from_parts chains (split b'.' (trim_suffix label (codes ".")))

-- `matchServiceName` of a zone that ends in a dot: the chain and the service
unfoldable pub match_service_name : Text → List Text → Text → Option (Text × Text)
match_service_name zone chains name = from_label chains (cut_suffix name zone)

unfoldable pub allowed_service : Text → Bool
unfolding to_lower
allowed_service prefix =
    let p = to_lower prefix in
    text_eq p (codes "rpc") || text_eq p (codes "lcd") || text_eq p (codes "ws")
