-- ===== src/Dns/Edges/Sound.antt =====
-- What `EdgeRecords` publishes: one record for each address of the nodes that serve DNS.
use p2p_gossip_lb.Prelude.{
  true, if-none, ℕ, suc, ◌≡◌, ◌⊎◌, inl, inr, refl, ap, Bool, true, false, Option, none, some, List,
  [], ◌∷◌, ◌++◌, map, arith, All, In,
}
use mathlib.Core.Path.{sym, subst}
use p2p_gossip_lb.Prelude.Text.{Text}
use p2p_gossip_lb.GoMap.{GoMap}
use p2p_gossip_lb.Crdt.Clock.{Entry}
use p2p_gossip_lb.Registry.Models.{NodeAdvert}
use p2p_gossip_lb.Selector.Floats.{Floats}
use p2p_gossip_lb.Geo.{Math, Location}
use p2p_gossip_lb.Dns.Records.{Rr, DnsLibrary, to_rr}
use p2p_gossip_lb.Dns.Zone.{RegistryZoneView}
use p2p_gossip_lb.Dns.Edges.Usable.{In-usable_ips, usable_ips-live}
use p2p_gossip_lb.Dns.Edges.{
  prepend, Edge, has_key, ip_loop, ip_step, edge_of, unless_seen, usable_ips,
  calculate_node_geo_score, prepend, edge_loop,
}
use p2p_gossip_lb.Dns.Edges.Keys.{
  Collects, Collects-none, Collects-cons, Collects-append, All-append,
}

map-append {ℓ ℓ'} :
    {A : Type ℓ} {B : Type ℓ'} (f : A → B) (xs ys : List A)
    → map f (xs ++ ys) ≡ map f xs ++ map f ys
map-append f [] ys = refl
map-append f (x ∷ xs) ys = ap (◌∷◌ (f x)) (map-append f xs ys)

All-weaken {ℓ} :
    {A : Type ℓ} (P Q : A → Type 0) → ((x : A) → P x → Q x) → (xs : List A) → All P xs → All Q xs
All-weaken P Q sub [] h = tt
All-weaken P Q sub (x ∷ xs) h = (sub x h.0, All-weaken P Q sub xs h.1)

module _ (floats : Floats) (math : Math floats) (dns : DnsLibrary) where
  abbrev pub key_of : Edge floats math dns → Text
  key_of e = dns.rr_string e.rr

  -- A step from the keys `seen` gives edges with a property, each key once, and leaves the keys with
  -- another property seen.
  pub record Gathers (P : Edge floats math dns → Type 0) (Q : Text → Type 0) (seen : List Text)
      (out : List (Edge floats math dns) × List Text) : Type 0 where
    pub edges : All P out.0
    pub collects : Collects seen (map key_of out.0) out.1
    pub covers : (k : Text) → Q k → has_key k out.1 ≡ true

  pub Gathers-append :
      (P P' R : Edge floats math dns → Type 0) (Q Q' S : Text → Type 0) (seen mid seen' : List Text)
      (xs ys : List (Edge floats math dns))
      → ((e : Edge floats math dns) → P e → R e)
      → ((e : Edge floats math dns) → P' e → R e)
      → ((k : Text) → S k → Q k ⊎ Q' k)
      → Gathers P Q seen (xs, mid)
      → Gathers P' Q' mid (ys, seen')
      → Gathers R S seen (xs ++ ys, seen')
  Gathers-append P P' R Q Q' S seen mid seen' xs ys p p' q h k = record {
    edges = All-append R xs ys (All-weaken P R p xs h.edges) (All-weaken P' R p' ys k.edges);
    collects =
        rw (map-append key_of xs ys)
          (Collects-append seen (map key_of xs) mid (map key_of ys) seen' h.collects k.collects);
    covers = λ j s. elim (q j s) [
      | inl first ↦ ground (arith, h.covers j first, k.collects.after j)
      | inr later ↦ k.covers j later
    ];
  }

  module _ (v : RegistryZoneView floats math dns) (chain ecs : Text) where
    -- an edge for an address of a node
    abbrev pub IsEdge : Text → List Text → Edge floats math dns → Type 0
    IsEdge id ips e = (e.node_id ≡ id) × In e.ip ips × (to_rr e.ip v.zone v.ttl_service ≡ some e.rr)

    -- the keys of the records of some addresses
    abbrev pub KeyAmong : List Text → Text → Type 0
    KeyAmong ips k =
        (ip : Text) × (rr : Rr) × In ip ips
        × (to_rr ip v.zone v.ttl_service ≡ some rr)
        × (dns.rr_string rr ≡ k)

    KeyAmong-cons :
        (ip : Text) (ips : List Text) (k : Text)
        → KeyAmong (ip ∷ ips) k
        → KeyAmong (ip ∷ []) k ⊎ KeyAmong ips k
    KeyAmong-cons ip ips k (ip', rr, inl here, shown, same) = inl (ip', rr, inl here, shown, same)
    KeyAmong-cons ip ips k (ip', rr, inr there, shown, same) = inr (ip', rr, there, shown, same)

    only_key :
        (ip : Text) (o : Option Rr) (k : Text)
        → to_rr ip v.zone v.ttl_service ≡ o
        → KeyAmong (ip ∷ []) k
        → (rr : Rr) × (o ≡ some rr) × (dns.rr_string rr ≡ k)
    only_key ip o k e (ip', rr, inl here, shown, same) = (rr, cc, same)
    only_key ip o k e (ip', rr, inr there, shown, same) = absurd (there tt)

    unless_seen-Gathers :
        (id : Text) (old : Bool) (e : Edge floats math dns) (seen : List Text)
        → IsEdge id (e.ip ∷ []) e
        → has_key (key_of e) seen ≡ old
        → Gathers
            (IsEdge id (e.ip ∷ []))
            (KeyAmong (e.ip ∷ []))
            seen
            (unless_seen floats math dns old e seen)
    unfolding unless_seen has_key
    unless_seen-Gathers id true e seen is known = record {
      edges = tt;
      collects = Collects-none seen;
      covers = λ k h. let (rr, shown, same) = only_key e.ip (some e.rr) k is.2 h in cc;
    }
    unless_seen-Gathers id false e seen is known = record {
      edges = (is, tt);
      collects =
          Collects-cons (key_of e) seen [] (key_of e ∷ seen) known
            (Collects-none (key_of e ∷ seen));
      covers = λ k h.
          let (rr, shown, same) = only_key e.ip (some e.rr) k is.2 h in
          let own : key_of e ≡ k = cc in ground (arith, own);
    }

    ip_step-Gathers :
        (advert : NodeAdvert) (id : Text) (score : floats.Float) (ip : Text) (o : Option Rr)
        (seen : List Text)
        → to_rr ip v.zone v.ttl_service ≡ o
        → Gathers
            (IsEdge id (ip ∷ []))
            (KeyAmong (ip ∷ []))
            seen
            (ip_step floats math dns advert id score chain ecs ip o seen)
    unfolding ip_step edge_of
    ip_step-Gathers advert id score ip none seen e = record {
      edges = tt;
      collects = Collects-none seen;
      covers = λ k h. let (rr, shown, same) = only_key ip none k e h in absurd (cc);
    }
    ip_step-Gathers advert id score ip (some rr) seen e =
        unless_seen-Gathers id _ (edge_of floats math dns advert id score chain ecs ip rr) seen
          (refl, inl refl, e) refl

    ip_loop-Gathers :
        (advert : NodeAdvert) (id : Text) (score : floats.Float) (ips seen : List Text)
        → Gathers
            (IsEdge id ips)
            (KeyAmong ips)
            seen
            (ip_loop floats math dns v chain advert id score ecs ips seen)
    unfolding ip_loop
    ip_loop-Gathers advert id score [] seen = record {
      edges = tt;
      collects = Collects-none seen;
      covers = λ k (ip, rr, i, shown, same). absurd (i tt);
    }
    ip_loop-Gathers advert id score (ip ∷ ips) seen =
        let one =
          ip_step floats math dns advert id score chain ecs ip (to_rr ip v.zone v.ttl_service)
            seen in
        Gathers-append (IsEdge id (ip ∷ [])) (IsEdge id ips) (IsEdge id (ip ∷ ips))
          (KeyAmong (ip ∷ [])) (KeyAmong ips) (KeyAmong (ip ∷ ips)) seen one.1 _ one.0 _
          (λ e (a, b, c). (a, elim b [ inl here ↦ inl here | inr there ↦ absurd (there tt) ], c))
          (λ e (a, b, c). (a, inr b, c)) (KeyAmong-cons ip ips)
          (ip_step-Gathers advert id score ip _ seen refl)
          (ip_loop-Gathers advert id score ips one.1)

    -- an edge for an address of one of the entries that are live and serve DNS
    pub record Serves (entries : GoMap Text (Entry NodeAdvert)) (e : Edge floats math dns)
        : Type 0 where
      pub entry : Entry NodeAdvert
      pub listed : In (e.node_id, entry) entries
      pub live : entry.tombstone ≡ false
      pub serving : entry.value.ns_serving ≡ true
      pub usable : In e.ip entry.value.ips
      pub shown : to_rr e.ip v.zone v.ttl_service ≡ some e.rr

    -- the key of an address of one of the entries that are live and serve DNS
    pub record Offers (entries : GoMap Text (Entry NodeAdvert)) (k : Text) : Type 0 where
      pub id : Text
      pub entry : Entry NodeAdvert
      pub listed : In (id, entry) entries
      pub live : entry.tombstone ≡ false
      pub serving : entry.value.ns_serving ≡ true
      pub key : KeyAmong entry.value.ips k

    Offers-cons :
        (id : Text) (entry : Entry NodeAdvert) (entries : GoMap Text (Entry NodeAdvert)) (k : Text)
        → Offers ((id, entry) ∷ entries) k
        → KeyAmong (usable_ips floats math dns entry) k ⊎ Offers entries k
    Offers-cons id entry entries k h = elim h.listed [
      | inl here ↦ inl (
          subst (λ x. KeyAmong (usable_ips floats math dns x) k) (ap (λ x. x.1) here)
            (subst (λ ips. KeyAmong ips k)
              (sym (usable_ips-live floats math dns h.entry h.live h.serving)) h.key))
      | inr there ↦ inr (record {
        id = h.id;
        entry = h.entry;
        listed = there;
        live = h.live;
        serving = h.serving;
        key = h.key;
      })
    ]

    prepend-some :
        (edges out : List (Edge floats math dns)) (rest : Option (List (Edge floats math dns)))
        → prepend floats math dns edges rest ≡ some out
        → (es : List (Edge floats math dns)) × (rest ≡ some es) × (out ≡ edges ++ es)
    prepend-some edges out none h = cc
    prepend-some edges out (some es) h = (es, refl, cc)

    pub edge_loop-Gathers :
        (client : Option (Location floats)) (done : ℕ → Bool) (i : ℕ)
        (entries : GoMap Text (Entry NodeAdvert)) (seen : List Text)
        (out : List (Edge floats math dns))
        → edge_loop floats math dns v chain ecs client done i entries seen ≡ some out
        → (seen' : List Text) × Gathers (Serves entries) (Offers entries) seen (out, seen')
    unfolding edge_loop
    edge_loop-Gathers client done i [] seen out h =
        let same : out ≡ [] = cc in
        (
          seen,
          rw same (record {
            edges = tt;
            collects = Collects-none seen;
            covers = λ k o. absurd (o.listed tt);
          }),
        )
    edge_loop-Gathers client done i ((id, entry) ∷ entries) seen out h =
        let score = calculate_node_geo_score floats math dns v entry.value v.geo_provider client in
        let one =
          ip_loop floats math dns v chain entry.value id score ecs
            (usable_ips floats math dns entry) seen in
        let ended = if-none (done i) _ out h in
        let (es, rest, joined) = prepend-some one.0 out _ ended.1 in
        let (seen', ih) = edge_loop-Gathers client done (suc i) entries one.1 es rest in
        (
          seen',
          rw joined (
              Gathers-append (IsEdge id (usable_ips floats math dns entry)) (Serves entries)
                (Serves ((id, entry) ∷ entries)) (KeyAmong (usable_ips floats math dns entry))
                (Offers entries) (Offers ((id, entry) ∷ entries)) seen one.1 seen' one.0 es
                (λ e (a, b, c).
                  let (live, serving, usable) = In-usable_ips floats math dns e.ip entry b in
                  record {
                    entry = entry;
                    listed = inl (ap (λ x. (x, entry)) a);
                    live = live;
                    serving = serving;
                    usable = usable;
                    shown = c;
                  })
                (λ e x. record {
                  entry = x.entry;
                  listed = inr x.listed;
                  live = x.live;
                  serving = x.serving;
                  usable = x.usable;
                  shown = x.shown;
                })
                (Offers-cons id entry entries)
                (ip_loop-Gathers entry.value id score (usable_ips floats math dns entry) seen) ih),
        )
