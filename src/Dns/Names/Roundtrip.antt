-- ===== src/Dns/Names/Roundtrip.antt =====
-- Names that are put together from a service, a chain and the zone, and names that match.
use p2p_gossip_lb.Prelude.{
  ◌≡◌, refl, ap, sym, ◌∙◌, true, false, Option, none, some, List, [], ◌∷◌, ◌++◌, In, inl, inr,
  arith, Bool-cases,
}
use p2p_gossip_lb.Prelude.Text.{Text, codes, eq_of_text_eq}
use p2p_gossip_lb.Prelude.Strings.{cut_suffix, trim_suffix, split, has_byte}
use p2p_gossip_lb.Prelude.Strings.Laws.{
  append-cut_suffix, append-trim_suffix, cut_suffix-append, split-append, split_whole, join,
  join-split,
}
use p2p_gossip_lb.Dns.Names.{last_of, has_chain, from_parts, from_label, match_service_name}

In-has_chain : (chain : Text) (chains : List Text) → has_chain chain chains ≡ true → In chain chains
unfolding has_chain
In-has_chain chain [] h = cc
In-has_chain chain (c ∷ chains) h = ground (arith, In-has_chain chain chains, eq_of_text_eq c chain)

-- `<service>.<chain>.` in front of the zone
abbrev pub service_name : Text → Text → Text → Text
service_name service chain zone = ((service ++ b'.' ∷ chain) ++ codes ".") ++ zone

-- A name that is put together from a service and a permitted chain, both without dots, and the zone
-- matches, and gives back that chain and that service.
pub match-service_name :
    (zone service chain : Text) (chains : List Text)
    → has_byte b'.' service ≡ false
    → has_byte b'.' chain ≡ false
    → has_chain chain chains ≡ true
    → match_service_name zone chains (service_name service chain zone) ≡ some (chain, service)
unfolding match_service_name from_label from_parts
match-service_name zone service chain chains s c permitted =
    rw
      (
        append-cut_suffix ((service ++ b'.' ∷ chain) ++ codes ".") zone,
        append-trim_suffix (service ++ b'.' ∷ chain) (codes "."),
        split-append b'.' service chain s,
        split_whole b'.' chain c,
        permitted,
      )
      refl

-- the part in front of the zone, as far as `trim_suffix` cuts it
matched_parts :
    (chains : List Text) (parts : List Text) (chain service : Text)
    → from_parts chains parts ≡ some (chain, service)
    → (p : Text) × (rest : List Text) × (parts ≡ service ∷ p ∷ rest)
      × (chain ≡ last_of p rest)
      × In chain chains
unfolding from_parts
matched_parts chains [] chain service h = cc
matched_parts chains (s ∷ []) chain service h = cc
matched_parts chains (s ∷ p ∷ rest) chain service h =
    elim (Bool-cases (has_chain (last_of p rest) chains)) [
      | inl there ↦
          let e : ◌≡◌ {A = Option (Text × Text)} (some (last_of p rest, s))
              (some (chain, service)) =
            rw there at h in
          let c : chain ≡ last_of p rest = cc in
          let s' : s ≡ service = cc in
          (p, rest, ap (λ x. x ∷ p ∷ rest) s', c, rw c (In-has_chain (last_of p rest) chains there))
      | inr absent ↦ absurd (cc (rw absent at h))
    ]

from_label-some :
    (chains : List Text) (o : Option Text) (chain service : Text)
    → from_label chains o ≡ some (chain, service)
    → (label : Text) × (o ≡ some label)
      × (from_parts chains (split b'.' (trim_suffix label (codes "."))) ≡ some (chain, service))
unfolding from_label
from_label-some chains none chain service h = cc
from_label-some chains (some label) chain service h = (label, refl, h)

-- A name that matches is some labels in front of the zone, at least two but for a dot that may stand
-- between: the service is the first of them, and the chain, which is permitted, the last.
pub matched_name :
    (zone : Text) (chains : List Text) (name chain service : Text)
    → match_service_name zone chains name ≡ some (chain, service)
    → (label : Text) × (p : Text) × (rest : List Text) × (name ≡ label ++ zone)
      × (trim_suffix label (codes ".") ≡ join b'.' (service ∷ p ∷ rest))
      × (chain ≡ last_of p rest)
      × In chain chains
unfolding match_service_name
matched_name zone chains name chain service h =
    let (label, cut, found) = from_label-some chains (cut_suffix name zone) chain service h in
    let parts = split b'.' (trim_suffix label (codes ".")) in
    let (p, rest, e, c, i) = matched_parts chains parts chain service found in
    (
      label,
      p,
      rest,
      cut_suffix-append name zone label cut,
      sym (join-split b'.' (trim_suffix label (codes "."))) ∙ ap (join b'.') e,
      c,
      i,
    )
