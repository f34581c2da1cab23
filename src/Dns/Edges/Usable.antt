-- ===== src/Dns/Edges/Usable.antt =====
-- The addresses of a node that is live and serves DNS, which are those that `EdgeRecords` looks at.
use mathlib.Core.Path.{subst}
use p2p_gossip_lb.Prelude.{
  ◌≡◌, inl, inr, ap, true, false, Bool-cases, In, not, ◌||◌, if◌then◌else◌, [], arith,
}
use p2p_gossip_lb.Prelude.Text.{Text}
use p2p_gossip_lb.Crdt.Clock.{Entry}
use p2p_gossip_lb.Registry.Models.{NodeAdvert}
use p2p_gossip_lb.Selector.Floats.{Floats}
use p2p_gossip_lb.Geo.{Math}
use p2p_gossip_lb.Dns.Records.{DnsLibrary}
use p2p_gossip_lb.Dns.Edges.{usable_ips}

usable_when :
    (entry : Entry NodeAdvert)
    → entry.tombstone ≡ false
    → entry.value.ns_serving ≡ true
    → entry.tombstone || not entry.value.ns_serving ≡ false
usable_when entry live serving = ground arith

unusable_when :
    (entry : Entry NodeAdvert)
    → entry.value.ns_serving ≡ false
    → entry.tombstone || not entry.value.ns_serving ≡ true
unusable_when entry other = ground arith

module _ (floats : Floats) (math : Math floats) (dns : DnsLibrary) where
  pub In-usable_ips :
      (ip : Text) (entry : Entry NodeAdvert)
      → In ip (usable_ips floats math dns entry)
      → (entry.tombstone ≡ false) × (entry.value.ns_serving ≡ true) × In ip entry.value.ips
  In-usable_ips ip entry h = elim (Bool-cases entry.tombstone) [
    | inl gone ↦ absurd (
        subst (λ b. In ip (if b || not entry.value.ns_serving then [] else entry.value.ips)) gone h
          tt)
    | inr live ↦ elim (Bool-cases entry.value.ns_serving) [
      | inl serving ↦ (
        live,
        serving,
        subst (λ b. In ip (if b then [] else entry.value.ips)) (usable_when entry live serving) h,
      )
      | inr other ↦
          absurd (
            subst (λ b. In ip (if b then [] else entry.value.ips)) (unusable_when entry other) h tt)
    ]
  ]

  pub usable_ips-live :
      (entry : Entry NodeAdvert)
      → entry.tombstone ≡ false
      → entry.value.ns_serving ≡ true
      → usable_ips floats math dns entry ≡ entry.value.ips
  usable_ips-live entry live serving =
      ap (λ b. if b then [] else entry.value.ips) (usable_when entry live serving)
