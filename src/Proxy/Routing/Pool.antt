-- ===== src/Proxy/Routing/Pool.antt =====
-- Which candidates `buildCandidates` offers to the selector.
use p2p_gossip_lb.Prelude.{
  ◌≡◌, inl, inr, refl, Bool, true, false, not, Option, none, some, List, [], ◌∷◌, In, arith,
  if◌then◌else◌,
}
use p2p_gossip_lb.Prelude.Int.{ℤ, ◌≤ℤ◌}
use p2p_gossip_lb.Prelude.Text.{Text, dec_text, text_eq, eq_of_text_eq}
use p2p_gossip_lb.GoMap
use p2p_gossip_lb.GoMap.{GoMap}
use p2p_gossip_lb.Crdt.Clock.{Entry}
use p2p_gossip_lb.Crdt.LwwMap
use p2p_gossip_lb.Registry.Models.{BackendMeta, BackendMetrics}
use p2p_gossip_lb.Registry.Store.{Store, latest_metrics}
use p2p_gossip_lb.Selector.Floats.{Floats}
use p2p_gossip_lb.Selector.Filter.{Candidate}
use p2p_gossip_lb.Proxy.Routing.{with_metrics, candidate_loop, build_candidates}

module _ (floats : Floats) (penalty : BackendMeta → floats.Float) (chain : Text)
    (metrics : GoMap Text (BackendMetrics floats.Float32)) where
  -- The candidate stands for a live entry of the snapshot, on the chain, with its latest metrics,
  -- which are at most at the best height.
  pub record Offered (snapshot : GoMap Text (Entry BackendMeta)) (best : ℤ) (c : Candidate floats)
      : Type 0 where
    pub id : Text
    pub shown : LwwMap.get dec_text (record { items = snapshot }) id ≡ some c.meta
    pub right_chain : c.meta.chain_id ≡ chain
    pub measured : GoMap.get dec_text c.meta.id metrics ≡ some c.metrics
    pub best_height : c.metrics.height ≤ℤ best
    pub scored_by : c.geo_penalty ≡ penalty c.meta

  Offered-later :
      (j : Text) (e : Entry BackendMeta) (snapshot : GoMap Text (Entry BackendMeta))
      (best best' : ℤ) (c : Candidate floats)
      → GoMap.get dec_text j snapshot ≡ none
      → best ≤ℤ best'
      → Offered snapshot best c
      → Offered ((j, e) ∷ snapshot) best' c
  unfolding LwwMap.get GoMap.get
  Offered-later j e snapshot best best' c absent le h = record {
    id = h.id;
    shown = ground (arith, h.shown);
    right_chain = h.right_chain;
    measured = h.measured;
    best_height = omega (arith, h.best_height);
    scored_by = h.scored_by;
  }

  with_metrics-Offered :
      (j : Text) (e : Entry BackendMeta) (snapshot : GoMap Text (Entry BackendMeta))
      (rest : List (Candidate floats) × ℤ) (o : Option (BackendMetrics floats.Float32))
      (c : Candidate floats)
      → GoMap.get dec_text j snapshot ≡ none
      → e.tombstone ≡ false
      → e.value.chain_id ≡ chain
      → GoMap.get dec_text e.value.id metrics ≡ o
      → (In c rest.0 → Offered snapshot rest.1 c)
      → In c (with_metrics floats penalty e.value o rest).0
      → Offered ((j, e) ∷ snapshot) (with_metrics floats penalty e.value o rest).1 c
  unfolding LwwMap.get GoMap.get
  with_metrics-Offered j e snapshot rest none c absent live same found ih i =
      Offered-later j e snapshot rest.1 rest.1 c absent (omega arith) (ih i)
  with_metrics-Offered j e snapshot rest (some m) c absent live same found ih (inr i) =
      Offered-later j e snapshot rest.1 _ c absent (ground arith) (ih i)
  with_metrics-Offered j e snapshot rest (some m) c absent live same found ih (inl here) =
      rw here (record {
        id = j;
        shown = ground (arith, live);
        right_chain = same;
        measured = found;
        best_height = ground arith;
        scored_by = refl;
      })

  -- The tests of the loop's body, by their results.
  guards-Offered :
      (j : Text) (e : Entry BackendMeta) (snapshot : GoMap Text (Entry BackendMeta))
      (rest : List (Candidate floats) × ℤ) (c : Candidate floats) (dead same : Bool)
      → GoMap.get dec_text j snapshot ≡ none
      → e.tombstone ≡ dead
      → text_eq e.value.chain_id chain ≡ same
      → (In c rest.0 → Offered snapshot rest.1 c)
      → let next =
          with_metrics floats penalty e.value (GoMap.get dec_text e.value.id metrics) rest in
        let out = if dead then rest else if not same then rest else next in
        In c out.0 → Offered ((j, e) ∷ snapshot) out.1 c
  guards-Offered j e snapshot rest c true same absent t s ih i =
      Offered-later j e snapshot rest.1 rest.1 c absent (omega arith) (ih i)
  guards-Offered j e snapshot rest c false false absent t s ih i =
      Offered-later j e snapshot rest.1 rest.1 c absent (omega arith) (ih i)
  guards-Offered j e snapshot rest c false true absent t s ih i =
      with_metrics-Offered j e snapshot rest _ c absent t (eq_of_text_eq _ _ s) refl ih i

  candidate_loop-Offered :
      (snapshot : GoMap Text (Entry BackendMeta)) (c : Candidate floats)
      → GoMap.IsMap dec_text snapshot
      → In c (candidate_loop floats penalty chain metrics snapshot).0
      → Offered snapshot (candidate_loop floats penalty chain metrics snapshot).1 c
  unfolding candidate_loop
  candidate_loop-Offered [] c h i = absurd (i tt)
  candidate_loop-Offered ((j, e) ∷ snapshot) c h i =
      guards-Offered j e snapshot (candidate_loop floats penalty chain metrics snapshot) c
        e.tombstone (text_eq e.value.chain_id chain) h.0 refl refl
        (candidate_loop-Offered snapshot c h.1) i

module _ (floats : Floats) where
  -- Every candidate that `buildCandidates` offers, from a store in which no backend ID stands twice,
  -- is a backend that the store shows, on the chain asked for, with the latest metrics of its ID and
  -- its geo penalty; and no candidate is above the best height.
  pub build_candidates-Offered :
      (penalty : BackendMeta → floats.Float) (s : Store floats.Float32) (chain : Text)
      (c : Candidate floats)
      → GoMap.IsMap dec_text s.meta.items
      → In c (build_candidates floats penalty s chain).0
      → Offered floats penalty chain
          (latest_metrics s)
          s.meta.items
          (build_candidates floats penalty s chain).1.best_height
          c
  unfolding build_candidates
  build_candidates-Offered penalty s chain c h i =
      candidate_loop-Offered floats penalty chain (latest_metrics s) s.meta.items c h i
