-- ===== src/Proxy/Routing.antt =====
-- pkg/proxy/proxy.go: `buildCandidates`, `pickCandidate`, and the loop of attempts in `handleHTTP`
-- and `handleWebsocket`. What an attempt does over the network is a parameter.
pub mod Attempts
pub mod Pool
use p2p_gossip_lb.Prelude.{
  ℕ, zero, suc, Bool, true, false, not, ◌&&◌, ◌||◌, Option, none, some, List, [], ◌∷◌,
  if◌then◌else◌, keep,
}
use p2p_gossip_lb.Prelude.Int.{ℤ, pos, ltb_ℤ}
use p2p_gossip_lb.Prelude.Text.{Text, text_eq, dec_text}
use p2p_gossip_lb.GoMap
use p2p_gossip_lb.GoMap.{GoMap}
use p2p_gossip_lb.Crdt.Clock.{Entry}
use p2p_gossip_lb.Registry.Models.{BackendMeta, BackendMetrics}
use p2p_gossip_lb.Registry.Store.{Store, backend_snapshot, latest_metrics}
use p2p_gossip_lb.Selector.Floats.{Floats}
use p2p_gossip_lb.Prelude.Strings.{to_lower}
use p2p_gossip_lb.Selector.Request.{RequestContext}
use p2p_gossip_lb.Selector.Filter.{Candidate, Config, Environment}
use p2p_gossip_lb.Selector.Pick.{Draws, Picked, no_backend, out_of_range, picked, pick}

-- Whether an ID stands in the map `tried`.
unfoldable pub seen : Text → List Text → Bool
seen id [] = false
seen id (t ∷ tried) = text_eq t id || seen id tried

module _ (floats : Floats) where
  open floats use {Float, Float32, of_int, zero as zero_float}

  -- `geoPenalty`, with the country and the region of the edge
  unfoldable pub geo_penalty : Text → Text → BackendMeta → Float
  unfolding to_lower
  geo_penalty edge_country edge_region meta =
      if text_eq edge_country [] || text_eq meta.country []
      then zero_float
      else if text_eq (to_lower meta.country) (to_lower edge_country)
      then if not (text_eq (to_lower edge_region) [])
          && text_eq (to_lower meta.region) (to_lower edge_region)
        then zero_float
        else of_int (pos 15)
      else of_int (pos 30)

  abbrev with_metrics :
      (BackendMeta → Float)
      → BackendMeta
      → Option (BackendMetrics Float32)
      → List (Candidate floats) × ℤ
      → List (Candidate floats) × ℤ
  with_metrics penalty meta none rest = rest
  with_metrics penalty meta (some metric) (candidates, best) = (
    record {
      meta = meta;
      metrics = metric;
      geo_penalty = penalty meta;
      score = zero_float;
      weight = zero_float;
    }
        ∷ candidates,
    if ltb_ℤ best metric.height then metric.height else best,
  )

  -- The loop of `buildCandidates`. The candidates and the best height of the entries that follow are
  -- put together first: the greatest height does not depend on the order.
  pub candidate_loop :
      (BackendMeta → Float)
      → Text
      → GoMap Text (BackendMetrics Float32)
      → GoMap Text (Entry BackendMeta)
      → List (Candidate floats) × ℤ
  candidate_loop penalty chain metrics [] = ([], pos 0)
  candidate_loop penalty chain metrics ((id, entry) ∷ snapshot) =
      let rest = candidate_loop penalty chain metrics snapshot in
      if entry.tombstone
      then rest
      else if not (text_eq entry.value.chain_id chain)
      then rest
      else with_metrics penalty entry.value (GoMap.get dec_text entry.value.id metrics) rest

  unfoldable pub build_candidates :
      (BackendMeta → Float) → Store Float32 → Text → List (Candidate floats) × Environment
  unfolding candidate_loop latest_metrics
  build_candidates penalty store chain =
      let (candidates, best) =
        candidate_loop penalty chain (latest_metrics store) (backend_snapshot store).0 in
      (candidates, record { best_height = best })

  pick_left :
      (Text → Text)
      → RequestContext
      → Environment
      → Config floats
      → Draws Float
      → List (Candidate floats)
      → Picked floats
  unfolding pick
  pick_left bucket ctx env cfg draws [] = no_backend
  pick_left bucket ctx env cfg draws (c ∷ cs) = pick floats bucket ctx env (c ∷ cs) cfg draws

  -- `pickCandidate`; `bucket` is the selector's `ipBucket`.
  pub pick_candidate :
      (Text → Text)
      → RequestContext
      → Environment
      → List (Candidate floats)
      → Config floats
      → List Text
      → Draws Float
      → Picked floats
  unfolding pick_left
  pick_candidate bucket ctx env pool cfg tried draws =
      pick_left bucket ctx env cfg draws (keep (λ cand. not (seen cand.meta.id tried)) pool)

  -- How a request ends: with a backend's response, with the status 502, or in a panic.
  pub data Outcome (R : Type 0) : Type 0 where
    responded : Candidate floats → R → Outcome R
    unavailable : Outcome R
    panicked : Outcome R

  -- The loop over the attempts that are left, and the candidates that it tries. `forward` is the
  -- network: an attempt fails, or gives a response.
  pub attempt_loop :
      {R : Type 0}
      → (Text → Text)
      → RequestContext
      → Environment
      → List (Candidate floats)
      → Config floats
      → (ℕ → Draws Float)
      → (ℕ → Candidate floats → Option R)
      → ℕ
      → List Text
      → Outcome R × List (Candidate floats)
  unfolding pick_candidate
  attempt_loop bucket ctx env pool cfg draws forward zero tried = (unavailable, [])
  attempt_loop bucket ctx env pool cfg draws forward (suc left) tried =
      elim (pick_candidate bucket ctx env pool cfg tried (draws left)) [
        | no_backend ↦ (unavailable, [])
        | out_of_range ↦ (panicked, [])
        | picked c ↦ elim (forward left c) [
          | some r ↦ (responded c r, c ∷ [])
          | none ↦
              let rest =
                attempt_loop bucket ctx env pool cfg draws forward left (c.meta.id ∷ tried) in
              (rest.0, c ∷ rest.1)
        ]
      ]

  -- The two attempts of `handleHTTP`, past its cache, and of `handleWebsocket`.
  unfoldable pub handle :
      {R : Type 0}
      → (Text → Text)
      → RequestContext
      → Environment
      → List (Candidate floats)
      → Config floats
      → (ℕ → Draws Float)
      → (ℕ → Candidate floats → Option R)
      → Outcome R × List (Candidate floats)
  unfolding attempt_loop
  handle bucket ctx env pool cfg draws forward =
      attempt_loop bucket ctx env pool cfg draws forward 2 []
