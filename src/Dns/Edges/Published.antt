-- ===== src/Dns/Edges/Published.antt =====
-- `EdgeRecords` as a whole, after the sort and the limit.
use mathlib.Core.Path.{subst}
use p2p_gossip_lb.Prelude.{
  if-none, length-map, ℕ, zero, suc, ◌≤◌, ◌≡◌, ◌⊎◌, inl, inr, refl, ap, Bool, true, false, Option,
  none, some, List, [], ◌∷◌, map, length, arith, All, if◌then◌else◌,
}
use mathlib.Core.List.{Permᴰ}
use mathlib.Core.List.Permᴰ
use p2p_gossip_lb.Prelude.Int.{ℤ, pos, pos_part, ltb_ℤ}
use p2p_gossip_lb.Prelude.Text.{Text}
use p2p_gossip_lb.Registry.Store.{node_snapshot}
use p2p_gossip_lb.Selector.Floats.{Floats}
use p2p_gossip_lb.Geo.{Math}
use p2p_gossip_lb.Dns.Records.{Rr, DnsLibrary}
use p2p_gossip_lb.Dns.Zone.{RegistryZoneView}
use p2p_gossip_lb.Dns.Edges.{
  Edge, has_key, edge_less, first_edges, at_most, client_location, rr_of, chosen, edge_records,
}
use p2p_gossip_lb.Dns.Edges.Keys.{Distinct, All-perm, Distinct-perm, has_key-perm}
use p2p_gossip_lb.Dns.Edges.Sound.{key_of, Serves, Offers, Gathers, edge_loop-Gathers}

module _ (floats : Floats) (math : Math floats) (dns : DnsLibrary) where
  abbrev Edges : Type 0
  Edges = List (Edge floats math dns)

  abbrev keys_of : Edges → List Text
  keys_of es = map (key_of floats math dns) es

  All-first_edges :
      (P : Edge floats math dns → Type 0) (n : ℕ) (es : Edges)
      → All P es
      → All P (first_edges floats math dns n es)
  All-first_edges P zero es h = tt
  All-first_edges P (suc n) [] h = tt
  All-first_edges P (suc n) (e ∷ es) h = (h.0, All-first_edges P n es h.1)

  has_key-first_edges :
      (k : Text) (n : ℕ) (es : Edges)
      → has_key k (keys_of es) ≡ false
      → has_key k (keys_of (first_edges floats math dns n es)) ≡ false
  unfolding has_key
  has_key-first_edges k zero es h = refl
  has_key-first_edges k (suc n) [] h = refl
  has_key-first_edges k (suc n) (e ∷ es) h = ground (arith, has_key-first_edges k n es)

  Distinct-first_edges :
      (n : ℕ) (es : Edges)
      → Distinct (keys_of es)
      → Distinct (keys_of (first_edges floats math dns n es))
  Distinct-first_edges zero es h = tt
  Distinct-first_edges (suc n) [] h = tt
  Distinct-first_edges (suc n) (e ∷ es) h =
      (has_key-first_edges _ n es h.0, Distinct-first_edges n es h.1)

  length-first_edges : (n : ℕ) (es : Edges) → length (first_edges floats math dns n es) ≤ n
  length-first_edges zero es = omega arith
  length-first_edges (suc n) [] = omega arith
  length-first_edges (suc n) (e ∷ es) = omega (arith, length-first_edges n es)

  -- a key that the limit cuts off: the answer is full then
  first_edges-full :
      (k : Text) (n : ℕ) (es : Edges)
      → has_key k (keys_of es) ≡ true
      → (has_key k (keys_of (first_edges floats math dns n es)) ≡ true)
        ⊎ (length (first_edges floats math dns n es) ≡ n)
  unfolding has_key
  first_edges-full k zero es h = inr refl
  first_edges-full k (suc n) [] h = cc
  first_edges-full k (suc n) (e ∷ es) h = ground (arith, first_edges-full k n es)

  -- The records of an answer for a store's nodes.
  pub record Published (v : RegistryZoneView floats math dns) (chain ecs : Text) (max : ℤ)
      (records : List Rr) : Type 0 where
    -- each is the record of an address of a node that is there and serves DNS
    pub sound :
        All
          (λ rr.
            (e : Edge floats math dns) × (e.rr ≡ rr)
            × Serves floats math dns v chain ecs (node_snapshot v.store).0 e)
          records
    pub distinct : Distinct (map dns.rr_string records)
    pub few : (ltb_ℤ (pos 0) max ≡ false) ⊎ (length records ≤ pos_part max)
    -- the record of each such address is there, unless the answer is full
    pub complete :
        (k : Text)
        → Offers floats math dns v chain ecs (node_snapshot v.store).0 k
        → (has_key k (map dns.rr_string records) ≡ true) ⊎ (length records ≡ pos_part max)

  strings-rr_of : (es : Edges) → map dns.rr_string (map (rr_of floats math dns) es) ≡ keys_of es
  strings-rr_of [] = refl
  strings-rr_of (e ∷ es) = ap (◌∷◌ (dns.rr_string e.rr)) (strings-rr_of es)

  All-rr_of :
      (P : Edge floats math dns → Type 0) (es : Edges)
      → All P es
      → All (λ rr. (e : Edge floats math dns) × (e.rr ≡ rr) × P e) (map (rr_of floats math dns) es)
  All-rr_of P [] h = tt
  All-rr_of P (e ∷ es) h = ((e, refl, h.0), All-rr_of P es h.1)

  at_most-Published :
      (v : RegistryZoneView floats math dns) (chain ecs : Text) (max : ℤ) (es : Edges)
      (limit : Bool)
      → ltb_ℤ (pos 0) max ≡ limit
      → All (Serves floats math dns v chain ecs (node_snapshot v.store).0) es
      → Distinct (keys_of es)
      → ((k : Text)
          → Offers floats math dns v chain ecs (node_snapshot v.store).0 k
          → has_key k (keys_of es) ≡ true)
      → Published v chain ecs max (
          map
            (rr_of floats math dns)
            (if limit then first_edges floats math dns (pos_part max) es else es))
  at_most-Published v chain ecs max es false e sound apart covers = record {
    sound = All-rr_of _ es sound;
    distinct = rw (strings-rr_of es) apart;
    few = inl e;
    complete = λ k o. inl (rw (strings-rr_of es) (covers k o));
  }
  at_most-Published v chain ecs max es true e sound apart covers =
      let n = pos_part max in
      let front = first_edges floats math dns n es in
      record {
        sound = All-rr_of _ front (All-first_edges _ n es sound);
        distinct = rw (strings-rr_of front) (Distinct-first_edges n es apart);
        few = inr (rw (length-map (rr_of floats math dns) front) (length-first_edges n es));
        complete = λ k o.
            rw (strings-rr_of front, length-map (rr_of floats math dns) front)
              (first_edges-full k n es (covers k o));
      }

  chosen-Published :
      (sort_slice : (Edge floats math dns → Edge floats math dns → Bool) → Edges → Edges)
      (v : RegistryZoneView floats math dns) (chain ecs : Text) (max : ℤ) (edges : Option Edges)
      (records : List Rr)
      → ((less : Edge floats math dns → Edge floats math dns → Bool) (es : Edges)
          → Permᴰ es (sort_slice less es))
      → ((es : Edges)
          → edges ≡ some es
          → (seen : List Text) × Gathers floats math dns
              (Serves floats math dns v chain ecs (node_snapshot v.store).0)
              (Offers floats math dns v chain ecs (node_snapshot v.store).0)
              []
              (es, seen))
      → chosen floats math dns sort_slice max edges ≡ some records
      → Published v chain ecs max records
  unfolding chosen has_key
  chosen-Published sort_slice v chain ecs max none records permutes gathers h = cc
  chosen-Published sort_slice v chain ecs max (some es) records permutes gathers h =
      let (seen, g) = gathers es refl in
      let p = permutes (edge_less floats math dns) es in
      let keys = Permᴰ.map (key_of floats math dns) p in
      let done =
        at_most-Published v chain ecs max (sort_slice (edge_less floats math dns) es) _ refl
          (All-perm _ p g.edges) (Distinct-perm keys g.collects.distinct)
          (λ k o. ground (arith, has_key-perm k keys, g.covers k o, g.collects.after k)) in
      let same : map (rr_of floats math dns)
            (at_most floats math dns max (sort_slice (edge_less floats math dns) es))
          ≡ records =
        cc in
      subst (λ rs. Published v chain ecs max rs) same done

  -- If `EdgeRecords` returns records, whatever the locations are and however `sort.Slice` permutes:
  -- each is the record of an address of a node that the store shows as live and serving DNS, no record
  -- stands twice, there are at most `max` of them where `max` is positive, and the record of each such
  -- address is among them unless there are `max`.
  pub edge_records-Published :
      (sort_slice : (Edge floats math dns → Edge floats math dns → Bool) → Edges → Edges)
      (done : ℕ → Bool) (v : RegistryZoneView floats math dns) (chain ecs : Text) (max : ℤ)
      (records : List Rr)
      → ((less : Edge floats math dns → Edge floats math dns → Bool) (es : Edges)
          → Permᴰ es (sort_slice less es))
      → edge_records floats math dns sort_slice done v chain max ecs ≡ some records
      → Published v chain ecs max records
  unfolding edge_records
  edge_records-Published sort_slice done v chain ecs max records permutes h =
      let client = client_location floats math dns v.geo_provider ecs in
      chosen-Published sort_slice v chain ecs max _ records permutes
        (λ es e.
          edge_loop-Gathers floats math dns v chain ecs client done 1 (node_snapshot v.store).0 []
            es e)
        (if-none (done 0) _ records h).1
